-- ===== src/Hyper/Client/User.antt =====
-- The user operations of petshop-stacks/rust/hyper/src/client/mod.rs.
use speed_test.Base.{
  String, ◌++◌, Option, none, some, List, [], ok, err, pure, ◌>>=◌, respond, return_early, append,
}
use speed_test.Models.{User}
use speed_test.Hyper.Http.{Method, Request, Wire}
use speed_test.Hyper.Interface.{Call}
use speed_test.Hyper.Responses.{
  CreateUserResponse, CreateUsersWithListInputResponse, LoginUserResponse, LogoutUserResponse,
  DeleteUserResponse, GetUserByNameResponse, UpdateUserResponse,
}
use speed_test.Hyper.Client.Message.{
  Context, Service, Step, try, send, set_header, set_body, new_request, span_header,
}
use speed_test.Hyper.Client.Pet.{pair}
use speed_test.Hyper.Client.Store.{optional_xml}
use speed_test.Hyper.Client.Read.{
  read_create_user, read_create_users_with_list_input, read_login_user, read_logout_user,
  read_delete_user, read_get_user_by_name, read_update_user,
}

module _ {DateTime : Type 0} (w : Wire DateTime) where
  -- The body of `create_users_with_list_input`, which is JSON: `expect` panics where it fails.
  unfoldable pub users_body : {S R : Type 0} → Option (List User) → Request → Step S R Request
  users_body none request = pure request
  users_body (some users) request = elim (w.users.to_string users) [
    | ok text ↦ pure (set_body (w.as_bytes text) request)
    | err e ↦ return_early none
  ]

module _ {DateTime S : Type 0} (w : Wire DateTime) (base_path : String) (service : Service S)
    (context : Context) where
  unfoldable pub create_user : Option User → Call S CreateUserResponse
  unfolding new_request optional_xml set_header span_header read_create_user
  create_user user = respond do
    request ← try (new_request w base_path Method.post "/api/v3/user" [])
    request ← optional_xml w w.user_body user request
    let request = set_header "content-type" "application/json" request
    request ← try (span_header w context request)
    response ← send service request
    pure (some (read_create_user w response))

  unfoldable pub create_users_with_list_input :
      Option (List User) → Call S CreateUsersWithListInputResponse
  unfolding new_request set_header span_header users_body read_create_users_with_list_input
  create_users_with_list_input user = respond do
    request ← try (new_request w base_path Method.post "/api/v3/user/createWithList" [])
    request ← users_body w user request
    let request = set_header "content-type" "application/json" request
    request ← try (span_header w context request)
    response ← send service request
    pure (some (read_create_users_with_list_input w response))

  unfoldable pub login_user : Option String → Option String → Call S (LoginUserResponse DateTime)
  unfolding new_request span_header read_login_user
  login_user username password = respond do
    request ← try (
        new_request w base_path Method.get "/api/v3/user/login"
          (append (pair "username" username) (pair "password" password)))
    request ← try (span_header w context request)
    response ← send service request
    pure (some (read_login_user w response))

  unfoldable pub logout_user : Call S LogoutUserResponse
  unfolding new_request span_header read_logout_user
  logout_user = respond do
    request ← try (new_request w base_path Method.get "/api/v3/user/logout" [])
    request ← try (span_header w context request)
    response ← send service request
    pure (some (read_logout_user w response))

  unfoldable pub delete_user : String → Call S DeleteUserResponse
  unfolding new_request span_header read_delete_user
  delete_user username = respond do
    request ←
        try
          (new_request w base_path Method.delete ("/api/v3/user/" ++ w.percent_encode username) [])
    request ← try (span_header w context request)
    response ← send service request
    pure (some (read_delete_user w response))

  unfoldable pub get_user_by_name : String → Call S GetUserByNameResponse
  unfolding new_request span_header read_get_user_by_name
  get_user_by_name username = respond do
    request ←
        try (new_request w base_path Method.get ("/api/v3/user/" ++ w.percent_encode username) [])
    request ← try (span_header w context request)
    response ← send service request
    pure (some (read_get_user_by_name w response))

  unfoldable pub update_user : String → Option User → Call S UpdateUserResponse
  unfolding new_request optional_xml set_header span_header read_update_user
  update_user username user = respond do
    request ←
        try (new_request w base_path Method.put ("/api/v3/user/" ++ w.percent_encode username) [])
    request ← optional_xml w w.user_body user request
    let request = set_header "content-type" "application/json" request
    request ← try (span_header w context request)
    response ← send service request
    pure (some (read_update_user w response))
