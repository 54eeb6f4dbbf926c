-- ===== src/Lib.antt =====
-- The Rust servers of the petstore, petshop-stacks/rust: one written on actix-web, one on generated
-- Hyper code. Both keep pets, orders, users and photos in a PostgreSQL database and answer the same
-- HTTP interface.
--
-- The parts, and where each is modelled:
--   Models, Models/Labels   actix/src/models.rs: the records and the two status enums with their
--                           `Display` and `FromStr`. The Hyper server's models have the same fields.
--   Helpers                 actix/src/helpers.rs (hyper/src/helpers.rs is the same code): rows to models.
--   Rows, Rows/RoundTrip    how the handlers bind a model to columns, and what is read back.
--   DbConfig                db_config.rs of both: the address of the database and the pool's size.
--   Actix                   actix/src/handlers: `Response` has `next_id` and the steps that all
--                           handlers share, `Pet`, `Store` and `User` have one function for each
--                           handler, of the handler's name. Their child modules say what they do.
--                           `Routes` is the route table of actix/src/main.rs.
--   Hyper                   hyper/src/lib.rs (the response types) and the implementation of the
--                           interface in hyper/examples/server/server.rs, under `Hyper/Api`.
--                           `Hyper/Agreement` compares it with the Actix server, request by request
--                           and over sequences of requests (`Runs`). Its functions `say_*` put the
--                           responses of the one into those of the other; `Statuses` compares the
--                           HTTP statuses. `Answered` is about the statuses of the Actix server,
--                           `Invariant` about what its handlers leave in the table of pets.
--   Hyper/Paths, Parse      the path table of hyper/src/server/mod.rs and the choice of a handler; the
--                           reading of numbers in a path.
--   Hyper/Server            the generated handlers of that file: `Access` has the authorisation and the
--                           call of the implementation, `Params` what is read of a request, `Write`
--                           the responses, `Service` the service as a whole. `Implementation` gives
--                           it the operations of `Hyper/Api` for the interface `Hyper/Interface`.
--   Hyper/Client            the operations of hyper/src/client/mod.rs: `Message` has the steps of a
--                           request, `Read` the reading of a response. `Connected` joins the client to
--                           the server.
--   Hyper/Form              the generated `Display` and `FromStr` of five models of
--                           hyper/src/models.rs, a form with commas.
--   Hyper/Http, Header      requests and responses; the header conversions of hyper/src/header.rs.
--   Sql, Views              the database and the store as clients see it, below.
--   Base, Tests             shared names; concrete parameters, and every theorem on an input.
--
-- A handler is a function of the request and the state of the database to a response and the next
-- state, written as a `do` block in the order of the source. An early `return` and a `?` leave the
-- block; what was written to the database before stays. A panic is a response of its own. Each
-- handler runs alone: what other requests do between two of its statements is not modelled. Logging
-- is left out. Every function is total and none takes fuel but the printing of a number, which has
-- more than it needs.
--
-- What is not in the repository is a parameter. `Serde.Json` is `serde_json` with the derived
-- implementations: what it writes it reads back, and writing plain data does not fail. `Serde.Chrono`
-- is `chrono`. `Sql.Postgres` is the server behind `sqlx`: a statement that succeeds does to the
-- tables what its SQL text says (`Sql.Meaning.sql`, on the columns of database/postgresql_schema.sql),
-- one that fails, for whatever reason, changes no table, and a sequence hands out larger and larger
-- numbers without regard to the keys in use. A SELECT of many rows comes in any order. `Tests.Memory`
-- is a database in memory that keeps these promises. The handlers store and print
-- an `i64` or `i32`, so it is an integer without bounds; where a text is parsed as one, its range is
-- written out (`Hyper.Parse`), and a count is refused by the database from 2 ^ 31 on.
--
-- `Hyper.Http.Wire` stands for the libraries that the generated HTTP layer calls: `hyper`,
-- `serde_json`, `serde_xml_rs`, `percent-encoding`, `form_urlencoded`, `chrono` and `swagger`, with
-- the promises that JSON and UTF-8 that they write they read back. `Client.Connected.Urls` is what
-- the client relies on of the parsing of the address of one request. The handlers are modelled with the feature
-- `validate` off, as Cargo.toml builds it by default; a panic of a handler is an answer `none`.
--
-- The specification is the store as clients see it (`Views`): what `pet_view`, `order_view` and
-- `user_view` give for a key. A handler's theorem says for each of its branches which answer is given
-- and how these views change.
--
-- Not modelled: main.rs of both servers beyond the configuration and the routes, the extractors of
-- actix-web, the context and the credentials of the Hyper server (hyper/src/context.rs, auth.rs), the
-- generated conversions of the other models and of models to header values, the rest of its header
-- conversions, the construction and the base path of its client, the command line client, and the
-- stacks in other languages.
pub mod Base
pub mod Sql
pub mod Models
pub mod Serde
pub mod Helpers
pub mod Rows
pub mod Views
pub mod DbConfig
pub mod Actix
pub mod Hyper
pub mod Tests
