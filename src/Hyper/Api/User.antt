-- ===== src/Hyper/Api/User.antt =====
-- The user operations of petshop-stacks/rust/hyper/examples/server/server.rs. A call
-- of `unwrap` on `None` is written out.
use speed_test.Base.{
  String, ◌++◌, Option, none, some, true, false, List, [], ◌∷◌, pos, Result, Exec, ok, err, pure,
  lift, guard_not, ◌>>=◌, ◌>>◌, respond, is_empty, unwrap_or, and_then, map_err, ◌==◌,
  if◌then◌else◌,
}
use speed_test.Models.{User}
use speed_test.Serde.{Chrono}
use speed_test.Rows.{user_values, user_of_row}
use speed_test.Sql.Schema.{insert_user, password_of, user_by_username}
use speed_test.Sql.Schema
use speed_test.Sql.Postgres.{Postgres}
use speed_test.Actix.User.{matches}
use speed_test.Hyper.Responses.{
  CreateUserResponse, CreateUsersWithListInputResponse, LoginUserResponse, LogoutUserResponse,
  DeleteUserResponse, GetUserByNameResponse, UpdateUserResponse,
}
use speed_test.Hyper.Api.{assign_id, query}

module _ (c : Chrono) (pg : Postgres c.NaiveDateTime) where
  abbrev Handler : Type 0 → Type 0
  Handler R = pg.State → Result String R × pg.State

  unfoldable pub create_user : Option User → Handler CreateUserResponse
  unfolding assign_id
  create_user user = respond do
    user ← lift (elim user [
      | none ↦ err (
          ok (
            CreateUserResponse.unexpected_error
              (record { code = "400"; message = "No user body provided" })))
      | some u ↦ ok u
    ])
    id ← assign_id pg user.id "user_id_seq"
    query pg "DB error creating user: " (insert_user user.username (user_values (some id) user))
    pure (ok (CreateUserResponse.successful_operation (record user { id = some id })))

  -- The loop over the users; `last_user` is the user of the last round.
  unfoldable pub insert_users :
      {R : Type 0} → Option User → List User → Exec pg.State (Result String R) (Option User)
  insert_users last_user [] = pure last_user
  insert_users last_user (u ∷ users) = do
    query pg "DB error creating user in list: " (insert_user u.username (user_values u.id u))
    insert_users (some u) users

  abbrev no_users : CreateUsersWithListInputResponse
  no_users =
      CreateUsersWithListInputResponse.unexpected_error
        (record { code = "400"; message = "No users provided" })

  -- `none` is a panic: the code calls `unwrap` on the last user.
  unfoldable pub create_users_with_list_input :
      Option (List User)
      → pg.State
      → Option (Result String CreateUsersWithListInputResponse) × pg.State
  unfolding insert_users
  create_users_with_list_input user = respond do
    users ← lift (elim user [
      | none ↦ err (some (ok no_users))
      | some u ↦ if is_empty u then err (some (ok no_users)) else ok u
    ])
    last_user ← map_err some (insert_users none users)
    pure (elim last_user [
      | none ↦ none
      | some u ↦ some (ok (CreateUsersWithListInputResponse.successful_operation u))
    ])

  -- `expires_after` is an hour after the clock of the server.
  unfoldable pub login_user :
      c.DateTime → Option String → Option String → Handler (LoginUserResponse c.DateTime)
  login_user expires_after username password = respond do
    username ←
        lift (elim username [ none ↦ err (ok LoginUserResponse.invalid_username) | some u ↦ ok u ])
    let password = unwrap_or password ""
    row ← query pg "DB error during login: " (password_of username)
    let stored_pw = and_then row (λ pw. pw)
    guard_not (elim (matches stored_pw password) [ true ↦ false | false ↦ true ])
        (ok LoginUserResponse.invalid_username)
    pure (
        ok (
          LoginUserResponse.successful_operation ("logged-in-" ++ username) (some (pos 1000))
            (some expires_after)))

  unfoldable pub logout_user : Handler LogoutUserResponse
  logout_user = respond (pure (ok LogoutUserResponse.successful_operation))

  unfoldable pub delete_user : String → Handler DeleteUserResponse
  delete_user username = respond do
    n ← query pg "DB error deleting user: " (Schema.delete_user username)
    guard_not (n == 0) (ok DeleteUserResponse.user_not_found)
    pure (ok DeleteUserResponse.successful_operation)

  unfoldable pub get_user_by_name : String → Handler GetUserByNameResponse
  get_user_by_name username = respond do
    row ← query pg "DB error fetching user: " (user_by_username username)
    pure (elim row [
      | none ↦ ok GetUserByNameResponse.user_not_found
      | some r ↦ ok (GetUserByNameResponse.successful_operation (user_of_row r))
    ])

  unfoldable pub update_user : String → Option User → Handler UpdateUserResponse
  update_user username user = respond do
    user ← lift (elim user [
      | none ↦ err (
          ok (
            UpdateUserResponse.unexpected_error
              (record { code = "400"; message = "No user body provided" })))
      | some u ↦ ok u
    ])
    n ← query pg "DB error updating user: " (Schema.update_user username (user_values user.id user))
    guard_not (n == 0) (
        ok (
          UpdateUserResponse.unexpected_error
            (record { code = "404"; message = "User not found" })))
    pure (ok UpdateUserResponse.successful_operation)
