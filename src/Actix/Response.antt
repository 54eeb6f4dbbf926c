-- ===== src/Actix/Response.antt =====
-- What the handlers of petshop-stacks/rust/actix hand back, and the steps that they share:
-- `next_id` of src/handlers/mod.rs, and queries whose error becomes a response.
pub mod Cases
use speed_test.Base.{ℕ, String, ◌++◌, Option, none, some, List, ℤ, pos, Exec, pure, map_err, ◌>>=◌}
use speed_test.Models.{Pet, Order, User, ApiResponse}
use speed_test.Sql.Schema.{Statement, Answer}
use speed_test.Sql.Postgres.{Postgres}

-- The value that `.json(…)` serialises, or the text of `.body(…)`; `empty` is `.finish()`.
pub data Body (DateTime : Type 0) : Type 0 where
  empty : Body DateTime
  text : String → Body DateTime
  pet : Pet → Body DateTime
  pets : List Pet → Body DateTime
  inventory : List (String × ℤ) → Body DateTime
  order : Order DateTime → Body DateTime
  user : User → Body DateTime
  api_response : ApiResponse → Body DateTime

-- `panicked` is a handler that called `unwrap` on `None`.
pub data HttpResponse (DateTime : Type 0) : Type 0 where
  response : ℕ → Body DateTime → HttpResponse DateTime
  panicked : HttpResponse DateTime

module _ {D : Type 0} where
  -- `HttpResponse::Ok().json(…)`, `.finish()` and the statuses that the handlers use
  abbrev pub ok_json : Body D → HttpResponse D
  ok_json b = response 200 b

  abbrev pub finish : HttpResponse D
  finish = response 200 Body.empty

  abbrev pub bad_request : String → HttpResponse D
  bad_request s = response 400 (Body.text s)

  abbrev pub unauthorized : String → HttpResponse D
  unauthorized s = response 401 (Body.text s)

  abbrev pub not_found : String → HttpResponse D
  not_found s = response 404 (Body.text s)

  abbrev pub internal_error : String → HttpResponse D
  internal_error s = response 500 (Body.text s)

module _ {N : Type 0} (pg : Postgres N) where
  -- `next_id`: the column is a `bigint`, which is read as `i64`.
  unfoldable pub next_id : String → Exec pg.State String ℤ
  next_id sequence = do
    id ← map_err (λ e. "DB error getting next id: " ++ e) (pg.nextval sequence)
    pure (pos id)

  -- `match id { Some(id) => id, None => match next_id(…) { … } }`
  unfoldable pub assign_id : {D : Type 0} → Option ℤ → String → Exec pg.State (HttpResponse D) ℤ
  unfolding next_id
  assign_id (some id) sequence = pure id
  assign_id none sequence = map_err internal_error (next_id sequence)

  -- a statement whose error is answered with 500 and a message
  abbrev pub query :
      {D : Type 0} → String → (q : Statement N) → Exec pg.State (HttpResponse D) (Answer q)
  query message q = map_err (λ e. internal_error (message ++ e)) (pg.execute q)
