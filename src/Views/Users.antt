-- ===== src/Views/Users.antt =====
-- What the statements on table "user" do to the store as clients see it.
use speed_test.Base.{
  ℕ, String, Option, none, some, ◌≡◌, ◌≢◌, refl, arith, ℤ, same, string_key, if◌then◌else◌,
  Option-cases, inl, inr,
}
use speed_test.Models.{User}
use speed_test.Sql.Table.{
  find, find-key, find-upsert, find-update, find-delete, count-zero, count-none, update-none,
  delete-none,
}
use speed_test.Sql.Schema.{UserRow, UserColumns, Tables, insert_user, delete_user, update_user}
use speed_test.Sql.Meaning.{Dialect, sql}
use speed_test.Rows.{user_values}
use speed_test.Rows.RoundTrip.{user_of_row-user_values}
use speed_test.Views.{user_view}

module _ {N : Type 0} (d : Dialect N) where
  -- The store holds `user` under `username`, and is otherwise as it was.
  abbrev pub UserStored : String → User → Tables N → Tables N → Type 0
  UserStored username user t t' =
      (k : String) → user_view t' k ≡ (if same username k then some user else user_view t k)

  -- The store holds no user under `username`, and is otherwise as it was.
  abbrev pub UserGone : String → Tables N → Tables N → Type 0
  UserGone username t t' =
      (k : String) → user_view t' k ≡ (if same username k then none else user_view t k)

  -- An INSERT succeeds only with a name, which is the key.
  pub insert_user-UserStored :
      (id : Option ℤ) (user : User) (t t' : Tables N) (n : ℕ)
      → sql d (insert_user user.username (user_values id user)) t ≡ some (n, t')
      → (username : String) × (user.username ≡ some username)
        × UserStored username (record user { id = id }) t t'
  insert_user-UserStored id user t t' n h = elim (Option-cases user.username) [
    | inl missing ↦ absurd (unfold sql in ground arith)
    | inr (username, given) ↦ (
      username,
      given,
      λ k.
          unfold sql in
          ground (
            arith,
            user_of_row-user_values username id user given,
            find-upsert UserRow.username k
                (record { username = username; columns = user_values id user }) t.users,
          ),
    )
  ]

  pub delete_user-none :
      (username : String) (t t' : Tables N)
      → sql d (delete_user username) t ≡ some (0, t')
      → (user_view t username ≡ none) × (t' ≡ t)
  unfolding sql
  delete_user-none username t t' h = (
    ground (arith, count-zero UserRow.username username t.users),
    ground (arith, delete-none UserRow.username username t.users),
  )

  pub delete_user-UserGone :
      (username : String) (t t' : Tables N) (n : ℕ)
      → sql d (delete_user username) t ≡ some (n, t')
      → n ≢ 0
      → (user_view t username ≢ none) × UserGone username t t'
  unfolding sql
  delete_user-UserGone username t t' n h some_row = (
    ground (arith, count-none UserRow.username username t.users),
    λ k. ground (arith, find-delete UserRow.username username k t.users),
  )

  pub update_user-none :
      (username : String) (columns : UserColumns) (t t' : Tables N)
      → sql d (update_user username columns) t ≡ some (0, t')
      → (user_view t username ≡ none) × (t' ≡ t)
  unfolding sql
  update_user-none username columns t t' h =
      let f : UserRow → UserRow = λ r. record r { columns = columns } in
      (
        ground (arith, count-zero UserRow.username username t.users),
        ground (arith, update-none UserRow.username username f t.users),
      )

  -- An UPDATE replaces all but the name.
  pub update_user-UserStored :
      (username : String) (user : User) (t t' : Tables N) (n : ℕ)
      → sql d (update_user username (user_values user.id user)) t ≡ some (n, t')
      → n ≢ 0
      → (user_view t username ≢ none)
        × UserStored username (record user { username = some username }) t t'
  unfolding sql
  update_user-UserStored username user t t' n h some_row =
      let columns : UserColumns = user_values user.id user in
      let f : UserRow → UserRow = λ r. record r { columns = columns } in
      let named : User = record user { username = some username } in
      let model = user_of_row-user_values username user.id named refl in
      elim (Option-cases (find UserRow.username username t.users)) [
        | inl missing ↦
            absurd (ground (arith, count-none UserRow.username username t.users missing))
        | inr (r, found) ↦
            let key : r.username ≡ username = find-key UserRow.username username r t.users found in
            let new : f r ≡ record { username = username; columns = user_values named.id named } =
              unfold user_values in ground arith in
            (
              ground arith,
              λ k. ground (
                arith,
                new,
                model,
                string_key.same_iff username k,
                find-update UserRow.username username k f t.users (λ r. refl),
              ),
            )
      ]
