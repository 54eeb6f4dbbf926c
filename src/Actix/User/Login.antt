-- ===== src/Actix/User/Login.antt =====
-- `login_user`: exactly a stored password opens the door.
use speed_test.Base.{
  String, ◌++◌, Option, none, some, true, false, Bool, ◌≡◌, refl, ◌⊎◌, inl, inr, arith, unwrap_or,
  Option-cases,
}
use speed_test.Models.{User}
use speed_test.Serde.{Chrono}
use speed_test.Sql.Schema.{password_of}
use speed_test.Sql.Meaning.{sql}
use speed_test.Sql.Postgres.{Postgres}
use speed_test.Rows.{user_of_row}
use speed_test.Views.{user_view}
use speed_test.Actix.Response.{Body, response, bad_request, unauthorized, internal_error, query}
use speed_test.Actix.Response.Cases.{query-cases}
use speed_test.Actix.User.{LoginQuery, matches, login_user}

-- The user is there and has this password.
abbrev pub has_password : Option User → String → Bool
has_password none password = false
has_password (some u) password = matches u.password password

module _ (c : Chrono) (pg : Postgres c.NaiveDateTime) where
  open pg use {State, tables}

  -- Without a user name the answer is 400 and nothing happens. Otherwise no table changes, and the
  -- answer is 500, or a token where the user of that name has the password, a missing one being
  -- empty, and 401 where not.
  pub login_user-refines :
      (login : LoginQuery) (s : State)
      → let (r, s') = login_user c pg login s in
        ((login.username ≡ none) × (r ≡ bad_request "Username is required") × (s' ≡ s))
        ⊎ ((username : String) × (login.username ≡ some username)
            × (tables s' ≡ tables s)
            × (((m : String) × (r ≡ internal_error m))
                ⊎ (r
                    ≡ elim (has_password
                        (user_view (tables s) username)
                        (unwrap_or login.password "")) [
                          | true ↦ response 200 (Body.text ("logged-in-" ++ username))
                          | false ↦ unauthorized "Invalid username or password"
                        ])))
  login_user-refines login s = elim (Option-cases login.username) [
    | inl missing ↦
        let run : login_user c pg login s ≡ (bad_request "Username is required", s) =
          unfold login_user in ground arith in
        rw run (inl (missing, refl, refl))
    | inr (username, given) ↦
        let s₁ = (query pg {D = c.DateTime} "DB error during login: " (password_of username) s).1 in
        elim (query-cases pg {D = c.DateTime} "DB error during login: " (password_of username) s) [
          | inl (row, e, b, meant, answer) ↦ inr (
            username,
            given,
            unfold login_user sql in ground arith,
            inr (unfold login_user sql user_of_row in ground arith),
          )
          | inr (m, e, same_tables) ↦
              let run : login_user c pg login s ≡ (internal_error m, s₁) =
                unfold login_user in ground arith in
              rw run (inr (username, given, same_tables, inl (m, refl)))
        ]
  ]
