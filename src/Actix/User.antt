-- ===== src/Actix/User.antt =====
-- petshop-stacks/rust/actix/src/handlers/user.rs, handler by handler.
pub mod Accounts
pub mod Batch
pub mod Login
use speed_test.Base.{
  String, ◌++◌, Option, none, some, Bool, true, false, List, [], ◌∷◌, same, string_key, Exec, ok,
  err, pure, lift, guard_not, ◌>>=◌, ◌>>◌, respond, is_empty, unwrap_or, and_then, ◌==◌,
}
use speed_test.Models.{User}
use speed_test.Serde.{Chrono}
use speed_test.Rows.{user_values, user_of_row}
use speed_test.Sql.Schema.{insert_user, password_of, user_by_username}
use speed_test.Sql.Schema
use speed_test.Sql.Postgres.{Postgres}
use speed_test.Actix.Response.{
  Body, HttpResponse, panicked, ok_json, finish, bad_request, unauthorized, not_found, assign_id,
  query, response,
}

pub record LoginQuery : Type 0 where
  pub username : Option String
  pub password : Option String

-- `stored.as_deref() != Some(password)`, negated
abbrev pub matches : Option String → String → Bool
matches none password = false
matches (some stored) password = same stored password

module _ (c : Chrono) (pg : Postgres c.NaiveDateTime) where
  abbrev Handler : Type 0
  Handler = pg.State → HttpResponse c.DateTime × pg.State

  unfoldable pub create_user : User → Handler
  unfolding assign_id
  create_user user = respond do
    id ← assign_id pg user.id "user_id_seq"
    query pg "DB error creating user: " (insert_user user.username (user_values (some id) user))
    pure (ok_json (Body.user (record user { id = some id })))

  -- The loop over the users; `last_user` is the user of the last round.
  unfoldable pub insert_users :
      Option User → List User → Exec pg.State (HttpResponse c.DateTime) (Option User)
  insert_users last_user [] = pure last_user
  insert_users last_user (u ∷ users) = do
    query pg "DB error creating user in list: " (insert_user u.username (user_values u.id u))
    insert_users (some u) users

  unfoldable pub create_users_with_list_input : List User → Handler
  unfolding insert_users
  create_users_with_list_input users = respond do
    guard_not (is_empty users) (bad_request "No users provided")
    last_user ← insert_users none users
    pure (elim last_user [ none ↦ panicked | some u ↦ ok_json (Body.user u) ])

  unfoldable pub login_user : LoginQuery → Handler
  login_user login = respond do
    username ←
        lift
          (elim login.username [ none ↦ err (bad_request "Username is required") | some u ↦ ok u ])
    let password = unwrap_or login.password ""
    row ← query pg "DB error during login: " (password_of username)
    let stored_pw = and_then row (λ pw. pw)
    guard_not (elim (matches stored_pw password) [ true ↦ false | false ↦ true ])
        (unauthorized "Invalid username or password")
    pure (response 200 (Body.text ("logged-in-" ++ username)))

  unfoldable pub logout_user : Handler
  logout_user = respond (pure finish)

  unfoldable pub delete_user : String → Handler
  delete_user username = respond do
    n ← query pg "DB error deleting user: " (Schema.delete_user username)
    guard_not (n == 0) (not_found "User not found")
    pure finish

  unfoldable pub get_user_by_name : String → Handler
  get_user_by_name username = respond do
    row ← query pg "DB error fetching user: " (user_by_username username)
    pure (elim row [
      | none ↦ not_found "User not found"
      | some r ↦ ok_json (Body.user (user_of_row r))
    ])

  unfoldable pub update_user : String → User → Handler
  update_user username user = respond do
    n ← query pg "DB error updating user: " (Schema.update_user username (user_values user.id user))
    guard_not (n == 0) (not_found "User not found")
    pure finish
