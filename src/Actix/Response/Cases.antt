-- ===== src/Actix/Response/Cases.antt =====
-- How the shared steps of the handlers can end.
use speed_test.Base.{
  ℕ, String, ◌++◌, ◌<◌, Option, none, some, ℤ, pos, ◌≡◌, refl, ◌⊎◌, inl, inr, ok, err, Result-cases,
  arith,
}
use speed_test.Sql.Schema.{Statement, Answer}
use speed_test.Sql.Meaning.{sql, SameAnswer}
use speed_test.Sql.Postgres.{Postgres, execute-cases}
use speed_test.Actix.Response.{internal_error, assign_id, query}

module _ {N : Type 0} (pg : Postgres N) where
  open pg use {State, tables, dialect, issued}

  -- The id of a new row: the one that the client chose, or a number that the sequence had not handed
  -- out yet.
  abbrev pub Assigned : State → String → Option ℤ → ℤ → Type 0
  Assigned s sequence (some chosen) id = id ≡ chosen
  Assigned s sequence none id = (n : ℕ) × (id ≡ pos n) × (issued s sequence < n)

  pub assign_id-cases :
      {D : Type 0} (o : Option ℤ) (sequence : String) (s : State)
      → ((id : ℤ) × ((assign_id pg {D = D} o sequence s).0 ≡ ok id)
          × Assigned s sequence o id
          × (tables (assign_id pg {D = D} o sequence s).1 ≡ tables s))
        ⊎ ((m : String) × ((assign_id pg {D = D} o sequence s).0 ≡ err (internal_error m))
            × (tables (assign_id pg {D = D} o sequence s).1 ≡ tables s))
  unfolding assign_id
  assign_id-cases (some id) sequence s = inl (id, refl, refl, refl)
  assign_id-cases none sequence s = elim (Result-cases (pg.nextval sequence s).0) [
    | inl (n, e) ↦ inl (
      pos n,
      ground arith,
      (n, refl, (pg.issued-nextval sequence s n e).0),
      ground (arith, pg.tables-nextval sequence s),
    )
    | inr (m, e) ↦ inr (
      "DB error getting next id: " ++ m,
      ground arith,
      ground (arith, pg.tables-nextval sequence s),
    )
  ]

  pub query-cases :
      {D : Type 0} (message : String) (q : Statement N) (s : State)
      → ((a : Answer q) × ((query pg {D = D} message q s).0 ≡ ok a)
          × (b : Answer q) × (sql dialect q (tables s)
              ≡ some (b, tables (query pg {D = D} message q s).1))
          × SameAnswer q b a)
        ⊎ ((m : String) × ((query pg {D = D} message q s).0 ≡ err (internal_error m))
            × (tables (query pg {D = D} message q s).1 ≡ tables s))
  query-cases message q s = elim (execute-cases pg q s) [
    | inl (a, e, b, meant, answer) ↦ inl (a, rw e, b, meant, answer)
    | inr (m, e, same) ↦ inr (message ++ m, rw e, same)
  ]
