-- ===== src/Hyper/Server/User.antt =====
-- The handlers of the user operations of petshop-stacks/rust/hyper/src/server/mod.rs.
use speed_test.Base.{
  String, ◌++◌, Option, none, some, List, [], ◌∷◌, ℕ, ok, err, lift, pure, ◌>>=◌, respond,
  or_default, is_empty, if◌then◌else◌,
}
use speed_test.Models.{User}
use speed_test.Hyper.Http.{Request, Response, Wire, insert_header}
use speed_test.Hyper.Paths.{PathId}
use speed_test.Hyper.Interface.{Api}
use speed_test.Hyper.Server.Access.{Context, Handler, call_api, finish, finish_with}
use speed_test.Hyper.Server.Params.{path_text, first_value, query_params, read_body, optional_body}
use speed_test.Hyper.Server.Write.{
  write_create_user, write_create_users_with_list_input, write_login_user, write_logout_user,
  write_delete_user, write_get_user_by_name, write_update_user,
}

module _ {DateTime : Type 0} (w : Wire DateTime) where
  -- The body of `create_users_with_list_input`, which is JSON whatever its type, and its unknown
  -- fields
  unfoldable pub users_param : List ℕ → Option (List User) × List String
  users_param bytes =
      if is_empty bytes
      then (none, [])
      else let (users, unused) = w.users_body.from_json bytes in (or_default users none, unused)

  -- The header `warning`; the handler panics where the names are no header.
  unfoldable pub warn : List String → Response → Option Response
  unfolding insert_header
  warn [] r = some r
  warn (u ∷ unused) r =
      elim (w.header_value ("Ignoring unknown fields in body: " ++ w.debug_list (u ∷ unused))) [
        | err e ↦ none
        | ok v ↦ some (record r { headers = insert_header "warning" v r.headers })
      ]

module _ {DateTime S : Type 0} (w : Wire DateTime) (api : Api DateTime S) (context : Context)
    (request : Request) where
  unfoldable pub handle_create_user : Handler S
  unfolding read_body optional_body finish_with write_create_user
  handle_create_user = respond do
    bytes ← lift (read_body w request)
    result ← call_api (api.create_user (optional_body w w.user_body request bytes))
    pure (finish w context (write_create_user w) result)

  unfoldable pub handle_create_users_with_list_input : Handler S
  unfolding read_body users_param warn finish_with write_create_users_with_list_input
  handle_create_users_with_list_input = respond do
    bytes ← lift (read_body w request)
    result ← call_api (api.create_users_with_list_input (users_param w bytes).0)
    pure (
        finish_with w context (warn w (users_param w bytes).1)
          (write_create_users_with_list_input w) result)

  unfoldable pub handle_login_user : Handler S
  unfolding first_value finish_with write_login_user
  handle_login_user = respond do
    let pairs = query_params w request.uri
    result ← call_api (api.login_user (first_value "username" pairs) (first_value "password" pairs))
    pure (finish w context (write_login_user w) result)

  unfoldable pub handle_logout_user : Handler S
  unfolding finish_with write_logout_user
  handle_logout_user =
      respond
        do result ← call_api api.logout_user; pure (finish w context (write_logout_user w) result)

  unfoldable pub handle_delete_user : Handler S
  unfolding path_text finish_with write_delete_user
  handle_delete_user = respond do
    username ← lift (path_text w PathId.user_username request.uri.path)
    result ← call_api (api.delete_user username)
    pure (finish w context (write_delete_user w) result)

  unfoldable pub handle_get_user_by_name : Handler S
  unfolding path_text finish_with write_get_user_by_name
  handle_get_user_by_name = respond do
    username ← lift (path_text w PathId.user_username request.uri.path)
    result ← call_api (api.get_user_by_name username)
    pure (finish w context (write_get_user_by_name w) result)

  unfoldable pub handle_update_user : Handler S
  unfolding path_text read_body optional_body finish_with write_update_user
  handle_update_user = respond do
    username ← lift (path_text w PathId.user_username request.uri.path)
    bytes ← lift (read_body w request)
    result ← call_api (api.update_user username (optional_body w w.user_body request bytes))
    pure (finish w context (write_update_user w) result)
