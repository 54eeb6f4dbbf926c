-- ===== src/Sql/Postgres.antt =====
-- The PostgreSQL server behind the `sqlx` pool, as a parameter. A statement that succeeds does what
-- its text says; one that fails, for whatever reason, changes no table. A sequence hands out larger
-- and larger numbers, and knows nothing of the keys that clients chose themselves.
use speed_test.Base.{ℕ, ◌≤◌, ◌<◌, ◌≡◌, String, some, Result, ok, err, ◌⊎◌, inl, inr, Result-cases}
use speed_test.Sql.Schema.{Tables, Statement, Answer}
use speed_test.Sql.Meaning.{Dialect, sql, SameAnswer}

pub record Postgres (N : Type 0) : Type 1 where
  pub State : Type 0
  pub tables : State → Tables N
  pub dialect : Dialect N
  pub execute : (q : Statement N) → State → Result String (Answer q) × State
  pub nextval : String → State → Result String ℕ × State
  -- the last number that a sequence handed out
  pub issued : State → String → ℕ
  pub execute-ok :
      (q : Statement N) (s : State) (a : Answer q)
      → (execute q s).0 ≡ ok a
      → (b : Answer q) × (sql dialect q (tables s) ≡ some (b, tables (execute q s).1))
        × SameAnswer q b a
  pub execute-err :
      (q : Statement N) (s : State) (e : String)
      → (execute q s).0 ≡ err e
      → tables (execute q s).1 ≡ tables s
  pub issued-execute :
      (q : Statement N) (s : State) (name : String) → issued s name ≤ issued (execute q s).1 name
  pub tables-nextval : (name : String) (s : State) → tables (nextval name s).1 ≡ tables s
  pub issued-nextval :
      (name : String) (s : State) (n : ℕ)
      → (nextval name s).0 ≡ ok n
      → (issued s name < n) × (issued (nextval name s).1 name ≡ n)
  pub nextval_grows :
      (name other : String) (s : State) → issued s other ≤ issued (nextval name s).1 other

module _ {N : Type 0} (pg : Postgres N) where
  open pg use {State, tables, dialect, execute, execute-ok, execute-err}

  -- How a statement can end.
  pub execute-cases :
      (q : Statement N) (s : State)
      → ((a : Answer q) × ((execute q s).0 ≡ ok a)
          × (b : Answer q) × (sql dialect q (tables s) ≡ some (b, tables (execute q s).1))
          × SameAnswer q b a)
        ⊎ ((e : String) × ((execute q s).0 ≡ err e) × (tables (execute q s).1 ≡ tables s))
  execute-cases q s = elim (Result-cases (execute q s).0) [
    | inl (a, h) ↦ let (b, m, same) = execute-ok q s a h in inl (a, h, b, m, same)
    | inr (e, h) ↦ inr (e, h, execute-err q s e h)
  ]
