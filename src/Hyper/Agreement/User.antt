-- ===== src/Hyper/Agreement/User.antt =====
-- The user operations of the two servers.
use speed_test.Base.{
  String, Option, none, some, List, [], ◌∷◌, arith, refl, ◌≡◌, Result, ok, err, unwrap_or,
  Result-cases, ◌⊎◌, inl, inr, ◌++◌,
}
use speed_test.Models.{User}
use speed_test.Serde.{Chrono}
use speed_test.Rows.{user_values}
use speed_test.Sql.Schema.{insert_user}
use speed_test.Sql.Postgres.{Postgres}
use speed_test.Actix.Response.{
  Body, HttpResponse, panicked, ok_json, finish, bad_request, unauthorized, not_found, response,
  internal_error,
}
use speed_test.Actix.Response
use speed_test.Actix.User.{LoginQuery}
use speed_test.Actix.User as A
use speed_test.Hyper.Api
use speed_test.Hyper.Api.User as H
use speed_test.Hyper.Responses.{
  CreateUserResponse, CreateUsersWithListInputResponse, LoginUserResponse, DeleteUserResponse,
  GetUserByNameResponse, UpdateUserResponse,
}
use speed_test.Hyper.Agreement.{Same, say_error, in_actix}

module _ {D : Type 0} where
  abbrev pub say_create : CreateUserResponse → Option (HttpResponse D)
  say_create (CreateUserResponse.successful_operation user) = some (ok_json (Body.user user))
  say_create (CreateUserResponse.unexpected_error e) = say_error e

  abbrev pub say_list : CreateUsersWithListInputResponse → Option (HttpResponse D)
  say_list (CreateUsersWithListInputResponse.successful_operation user) =
      some (ok_json (Body.user user))
  say_list (CreateUsersWithListInputResponse.unexpected_error e) = say_error e

  -- The Actix server sends the token alone, and words the two reasons of a refusal apart.
  abbrev pub say_login : Option String → LoginUserResponse D → Option (HttpResponse D)
  say_login username (LoginUserResponse.successful_operation token limit expires) =
      some (response 200 (Body.text token))
  say_login none LoginUserResponse.invalid_username = some (bad_request "Username is required")
  say_login (some u) LoginUserResponse.invalid_username =
      some (unauthorized "Invalid username or password")
  say_login username (LoginUserResponse.unexpected_error e) = none

  abbrev pub say_delete : DeleteUserResponse → Option (HttpResponse D)
  say_delete DeleteUserResponse.successful_operation = some finish
  say_delete DeleteUserResponse.user_not_found = some (not_found "User not found")
  say_delete _ = none

  abbrev pub say_by_name : GetUserByNameResponse → Option (HttpResponse D)
  say_by_name (GetUserByNameResponse.successful_operation user) = some (ok_json (Body.user user))
  say_by_name GetUserByNameResponse.user_not_found = some (not_found "User not found")
  say_by_name _ = none

  abbrev pub say_update : UpdateUserResponse → Option (HttpResponse D)
  say_update UpdateUserResponse.successful_operation = some finish
  say_update (UpdateUserResponse.unexpected_error e) = say_error e

module _ (c : Chrono) (pg : Postgres c.NaiveDateTime) where
  pub create_user-Same :
      (user : User) (s : pg.State)
      → Same say_create (H.create_user c pg (some user) s) (A.create_user c pg user s)
  unfolding H.create_user A.create_user Api.assign_id Response.assign_id
  create_user-Same user s = ground arith

  pub login_user-Same :
      (expires_after : c.DateTime) (username password : Option String) (s : pg.State)
      → Same
          (say_login username)
          (H.login_user c pg expires_after username password s)
          (A.login_user c pg (record { username = username; password = password }) s)
  unfolding H.login_user A.login_user
  login_user-Same expires_after username password s = ground arith

  pub delete_user-Same :
      (username : String) (s : pg.State)
      → Same say_delete (H.delete_user c pg username s) (A.delete_user c pg username s)
  unfolding H.delete_user A.delete_user
  delete_user-Same username s = ground arith

  pub get_user_by_name-Same :
      (username : String) (s : pg.State)
      → Same say_by_name (H.get_user_by_name c pg username s) (A.get_user_by_name c pg username s)
  unfolding H.get_user_by_name A.get_user_by_name
  get_user_by_name-Same username s = ground arith

  pub update_user-Same :
      (username : String) (user : User) (s : pg.State)
      → Same say_update
          (H.update_user c pg username (some user) s)
          (A.update_user c pg username user s)
  unfolding H.update_user A.update_user
  update_user-Same username user s = ground arith

  -- The words for the end of a list, where `none` is a panic.
  abbrev pub in_actix_list :
      Option (Result String CreateUsersWithListInputResponse) → Option (HttpResponse c.DateTime)
  in_actix_list none = some panicked
  in_actix_list (some r) = in_actix say_list r

  insert_users-insert_users :
      (last_user : Option User) (users : List User) (s : pg.State)
      → let (r, s₁) =
          H.insert_users c pg {R = CreateUsersWithListInputResponse} last_user users s in
        ((A.insert_users c pg last_user users s).1 ≡ s₁)
        × ((((u : Option User) × (r ≡ ok u) × ((A.insert_users c pg last_user users s).0 ≡ ok u)))
            ⊎ ((m : String) × (r ≡ err (err m))
                × ((A.insert_users c pg last_user users s).0 ≡ err (internal_error m))))
  unfolding H.insert_users A.insert_users
  insert_users-insert_users last_user [] s = (refl, inl (last_user, refl, refl))
  insert_users-insert_users last_user (u ∷ users) s =
      let q = insert_user u.username (user_values u.id u) in
      let (state, answer) = insert_users-insert_users (some u) users (pg.execute q s).1 in
      elim (Result-cases (pg.execute q s).0) [
        | inl (n, e) ↦ (
          ground arith,
          elim answer [
            | inl (last, h, a) ↦ inl (last, ground arith, ground arith)
            | inr (m, h, a) ↦ inr (m, ground arith, ground arith)
          ],
        )
        | inr (m, e) ↦ (
          ground arith,
          inr ("DB error creating user in list: " ++ m, ground arith, ground arith),
        )
      ]

  pub create_users_with_list_input-Same :
      (users : Option (List User)) (s : pg.State)
      → let (r, s₁) = H.create_users_with_list_input c pg users s in
        let (r', s₂) = A.create_users_with_list_input c pg (unwrap_or users []) s in
        (in_actix_list r ≡ some r') × (s₁ ≡ s₂)
  unfolding H.create_users_with_list_input A.create_users_with_list_input
  create_users_with_list_input-Same none s = ground arith
  create_users_with_list_input-Same (some []) s = ground arith
  create_users_with_list_input-Same (some (u ∷ users)) s =
      ground (arith, insert_users-insert_users none (u ∷ users) s)
