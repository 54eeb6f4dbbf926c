-- ===== src/Actix/User/Accounts.antt =====
-- The handlers of single users, on the store as clients see it.
use speed_test.Base.{
  String, Option, none, some, ℤ, ◌≡◌, ◌≢◌, ◌∙◌, refl, ◌⊎◌, inl, inr, arith, string_key, Bool-cases,
  ◌==◌,
}
use speed_test.Models.{User}
use speed_test.Serde.{Chrono}
use speed_test.Sql.Schema.{insert_user, user_by_username}
use speed_test.Sql.Schema
use speed_test.Sql.Meaning.{sql}
use speed_test.Sql.Postgres.{Postgres}
use speed_test.Rows.{user_values}
use speed_test.Views.{user_view}
use speed_test.Views.Users.{
  UserStored, UserGone, insert_user-UserStored, delete_user-none, delete_user-UserGone,
  update_user-none, update_user-UserStored,
}
use speed_test.Actix.Response.{
  Body, HttpResponse, ok_json, finish, not_found, internal_error, assign_id, query,
}
use speed_test.Actix.Response.Cases.{Assigned, assign_id-cases, query-cases}
use speed_test.Actix.User.{create_user, delete_user, get_user_by_name, update_user}

module _ (c : Chrono) (pg : Postgres c.NaiveDateTime) where
  open pg use {State, tables, dialect}

  -- The answer is 500 and no table changes, or the user has a name and the answer is 200 with the
  -- user under its id, which is then the stored user of that name while every other user is as
  -- before. The id is the one that the client chose, or one that the sequence had not handed out.
  pub create_user-refines :
      (user : User) (s : State)
      → let (r, s') = create_user c pg user s in
        ((m : String) × (r ≡ internal_error m) × (tables s' ≡ tables s))
        ⊎ ((id : ℤ) × (username : String) × Assigned pg s "user_id_seq" user.id id
            × (user.username ≡ some username)
            × (r ≡ ok_json (Body.user (record user { id = some id })))
            × UserStored dialect username (record user { id = some id }) (tables s) (tables s'))
  create_user-refines user s = elim (assign_id-cases pg {D = c.DateTime} user.id "user_id_seq" s) [
    | inl (id, e, assigned, unmoved) ↦
        let s₁ = (assign_id pg {D = c.DateTime} user.id "user_id_seq" s).1 in
        let q = insert_user user.username (user_values (some id) user) in
        let s₂ = (query pg {D = c.DateTime} "DB error creating user: " q s₁).1 in
        elim (query-cases pg {D = c.DateTime} "DB error creating user: " q s₁) [
          | inl (a, f, b, meant, answer) ↦
              let run : create_user c pg user s
                  ≡ (ok_json (Body.user (record user { id = some id })), s₂) =
                unfold create_user in ground arith in
              let (username, given, stored) =
                insert_user-UserStored dialect (some id) user (tables s₁) (tables s₂) b meant in
              rw run (inr (id, username, assigned, given, refl, λ k. rw (← unmoved) (stored k)))
          | inr (m, f, same_tables) ↦
              let run : create_user c pg user s ≡ (internal_error m, s₂) =
                unfold create_user in ground arith in
              rw run (inl (m, refl, same_tables ∙ unmoved))
        ]
    | inr (m, e, unmoved) ↦
        let run : create_user c pg user s
            ≡ (internal_error m, (assign_id pg {D = c.DateTime} user.id "user_id_seq" s).1) =
          unfold create_user in ground arith in
        rw run (inl (m, refl, unmoved))
  ]

  -- The answer is 500 and no table changes, or 404 where no user has the name and no table
  -- changes, or 200 where one has, and then no user has the name while every other user is as
  -- before.
  pub delete_user-refines :
      (username : String) (s : State)
      → let (r, s') = delete_user c pg username s in
        ((m : String) × (r ≡ internal_error m) × (tables s' ≡ tables s))
        ⊎ ((user_view (tables s) username ≡ none)
            × (r ≡ not_found "User not found")
            × (tables s' ≡ tables s))
        ⊎ ((user_view (tables s) username ≢ none)
            × (r ≡ finish)
            × UserGone dialect username (tables s) (tables s'))
  delete_user-refines username s =
      let q = Schema.delete_user username in
      let s₁ = (query pg {D = c.DateTime} "DB error deleting user: " q s).1 in
      elim (query-cases pg {D = c.DateTime} "DB error deleting user: " q s) [
        | inl (n, e, b, meant, answer) ↦ elim (Bool-cases (n == 0)) [
          | inl zero_rows ↦
              let run : delete_user c pg username s ≡ (not_found "User not found", s₁) =
                unfold delete_user in ground arith in
              let facts = delete_user-none dialect username (tables s) (tables s₁) (ground arith) in
              rw run (inr (inl (facts.0, refl, facts.1)))
          | inr some_rows ↦
              let run : delete_user c pg username s ≡ (finish, s₁) =
                unfold delete_user in ground arith in
              let facts =
                delete_user-UserGone dialect username (tables s) (tables s₁) b meant
                  (ground arith) in
              rw run (inr (inr (facts.0, refl, facts.1)))
        ]
        | inr (m, e, same_tables) ↦
            let run : delete_user c pg username s ≡ (internal_error m, s₁) =
              unfold delete_user in ground arith in
            rw run (inl (m, refl, same_tables))
      ]

  -- The answer is 500 and no table changes, or 404 where no user has the name and no table
  -- changes, or 200 where one has, which then is the user sent, but under that name, while every
  -- other user is as before.
  pub update_user-refines :
      (username : String) (user : User) (s : State)
      → let (r, s') = update_user c pg username user s in
        ((m : String) × (r ≡ internal_error m) × (tables s' ≡ tables s))
        ⊎ ((user_view (tables s) username ≡ none)
            × (r ≡ not_found "User not found")
            × (tables s' ≡ tables s))
        ⊎ ((user_view (tables s) username ≢ none)
            × (r ≡ finish)
            × UserStored dialect username
                (record user { username = some username })
                (tables s)
                (tables s'))
  update_user-refines username user s =
      let q = Schema.update_user username (user_values user.id user) in
      let s₁ = (query pg {D = c.DateTime} "DB error updating user: " q s).1 in
      elim (query-cases pg {D = c.DateTime} "DB error updating user: " q s) [
        | inl (n, e, b, meant, answer) ↦ elim (Bool-cases (n == 0)) [
          | inl zero_rows ↦
              let run : update_user c pg username user s ≡ (not_found "User not found", s₁) =
                unfold update_user in ground arith in
              let facts =
                update_user-none dialect username (user_values user.id user) (tables s) (tables s₁)
                  (ground arith) in
              rw run (inr (inl (facts.0, refl, facts.1)))
          | inr some_rows ↦
              let run : update_user c pg username user s ≡ (finish, s₁) =
                unfold update_user in ground arith in
              let facts =
                update_user-UserStored dialect username user (tables s) (tables s₁) b meant
                  (ground arith) in
              rw run (inr (inr (facts.0, refl, facts.1)))
        ]
        | inr (m, e, same_tables) ↦
            let run : update_user c pg username user s ≡ (internal_error m, s₁) =
              unfold update_user in ground arith in
            rw run (inl (m, refl, same_tables))
      ]

  -- The answer for what the store holds.
  abbrev pub shown : Option User → HttpResponse c.DateTime
  shown none = not_found "User not found"
  shown (some user) = ok_json (Body.user user)

  -- No table changes, and the answer is 500, or the user that the store has under the name, or 404
  -- where it has none.
  pub get_user_by_name-refines :
      (username : String) (s : State)
      → let (r, s') = get_user_by_name c pg username s in
        (tables s' ≡ tables s)
        × (((m : String) × (r ≡ internal_error m)) ⊎ (r ≡ shown (user_view (tables s) username)))
  get_user_by_name-refines username s =
      let q = user_by_username username in
      let s₁ = (query pg {D = c.DateTime} "DB error fetching user: " q s).1 in
      elim (query-cases pg {D = c.DateTime} "DB error fetching user: " q s) [
        | inl (row, e, b, meant, answer) ↦
            let run : get_user_by_name c pg username s
                ≡ (shown (user_view (tables s) username), s₁) =
              unfold get_user_by_name sql in ground arith in
            rw run (unfold sql in ground arith, inr refl)
        | inr (m, e, same_tables) ↦
            let run : get_user_by_name c pg username s ≡ (internal_error m, s₁) =
              unfold get_user_by_name in ground arith in
            rw run (same_tables, inl (m, refl))
      ]
