-- ===== src/Sql.antt =====
-- The PostgreSQL database of the servers: its tables, the statements that the Rust code sends, what
-- each statement says, and what is assumed of the server that runs them.
pub mod Table
pub mod Schema
pub mod Meaning
pub mod Postgres
