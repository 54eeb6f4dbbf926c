-- ===== src/Hyper/Api.antt =====
-- `impl Api for Server` of petshop-stacks/rust/hyper/examples/server/server.rs. A handler answers
-- with a response of its own type, or fails with `ApiError`, which holds a message.
pub mod Pet
pub mod Store
pub mod User
use speed_test.Base.{
  ℕ, String, ◌++◌, Option, none, some, ℤ, pos, Result, ok, err, Exec, map_err, ◌>>=◌, pure,
}
use speed_test.Sql.Schema.{Statement, Answer}
use speed_test.Sql.Postgres.{Postgres}

module _ {N : Type 0} (pg : Postgres N) where
  -- `next_id` of server.rs
  unfoldable pub next_id : String → Exec pg.State String ℤ
  next_id sequence = do
    id ← map_err (λ e. "DB error getting next id: " ++ e) (pg.nextval sequence)
    pure (pos id)

  -- `match id { Some(id) => id, None => next_id(…).await? }`
  unfoldable pub assign_id : {R : Type 0} → Option ℤ → String → Exec pg.State (Result String R) ℤ
  unfolding next_id
  assign_id (some id) sequence = pure id
  assign_id none sequence = map_err err (next_id sequence)

  -- `.map_err(|e| ApiError(format!(…)))?`
  abbrev pub query :
      {R : Type 0} → String → (q : Statement N) → Exec pg.State (Result String R) (Answer q)
  query message q = map_err (λ e. err (message ++ e)) (pg.execute q)
