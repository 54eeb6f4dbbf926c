-- ===== src/Hyper/Server/Answers.antt =====
-- The server answers every request, if the implementation does not panic.
pub mod Pets
pub mod Orders
pub mod Users
pub mod Every
use speed_test.Base.{
  ℕ, String, ◌≡◌, refl, Option, none, some, Bool, true, false, List, [], ◌∷◌, arith, Result, ok,
  err, Exec, ◌>>=◌, ◌>>◌, respond, lift, pure, inl, inr, Result-cases, Option-cases, ℤ,
}
use speed_test.Models.{Pet, Order, User}
use speed_test.Hyper.Http.{Request, Response, Body, Uri, Wire, get_header}
use speed_test.Hyper.Header.{read_string}
use speed_test.Hyper.Interface.{Api, Call}
use speed_test.Hyper.Responses.{FindPetsByStatusStatusParameter}
use speed_test.Hyper.Paths.{
  PathId, regex, captures, matched, Operation, Route, handle, method_not_allowed, not_found,
  dispatch, is_some,
}
use speed_test.Hyper.Paths.Matched.{Reads, dispatch-Reads}
use speed_test.Hyper.Server.Access.{
  Scopes, Authorization, Context, Answer, call_api, authenticate, check_scopes, authorize, plain,
  finish, finish_with, missing,
}
use speed_test.Hyper.Server.Params.{
  path_text, path_i64, status_param, read_body, required_body, body_param, parse_status_parameter,
}
use speed_test.Hyper.Server.Write.{
  empty, json, write_add_pet, write_find_pets_by_status, write_find_pets_by_tags, write_update_pet,
  write_delete_pet, write_get_pet_by_id, write_update_pet_with_form, write_upload_file,
  write_get_inventory, write_place_order, write_delete_order, write_get_order_by_id,
  write_create_user, write_create_users_with_list_input, add_header, login_body, write_login_user,
  write_logout_user, write_delete_user, write_get_user_by_name, write_update_user,
}
use speed_test.Hyper.Server.Statuses.{
  is_status, IsAnswer, write_add_pet-IsAnswer, write_find_pets_by_status-IsAnswer,
  write_find_pets_by_tags-IsAnswer, write_update_pet-IsAnswer, write_delete_pet-IsAnswer,
  write_get_pet_by_id-IsAnswer, write_update_pet_with_form-IsAnswer, write_upload_file-IsAnswer,
  write_get_inventory-IsAnswer, write_place_order-IsAnswer, write_delete_order-IsAnswer,
  write_get_order_by_id-IsAnswer, write_create_user-IsAnswer,
  write_create_users_with_list_input-IsAnswer, write_logout_user-IsAnswer,
  write_get_user_by_name-IsAnswer, write_update_user-IsAnswer, write_login_user-IsAnswer,
}
use speed_test.Hyper.Server.Service.{run, answer, call, bare}
use speed_test.Hyper.Server.Pet.{
  byte_array, api_key_header, handle_add_pet, handle_find_pets_by_status, handle_find_pets_by_tags,
  handle_update_pet, handle_delete_pet, handle_get_pet_by_id, handle_update_pet_with_form,
  handle_upload_file,
}
use speed_test.Hyper.Server.Store.{
  handle_get_inventory, handle_place_order, handle_delete_order, handle_get_order_by_id,
}
use speed_test.Hyper.Server.User.{
  users_param, warn, handle_create_user, handle_create_users_with_list_input, handle_login_user,
  handle_logout_user, handle_delete_user, handle_get_user_by_name, handle_update_user,
}

-- An implementation that never panics.
abbrev pub Returns : {S R : Type 0} → Call S R → Type 0
Returns {S} c = (s : S) → is_some (c s).0 ≡ true

pub record IsTotal {DateTime S : Type 0} (api : Api DateTime S) : Type 0 where
  pub add_pet : (pet : Pet) → Returns (api.add_pet pet)
  pub find_pets_by_status :
      (status : Option FindPetsByStatusStatusParameter) → Returns (api.find_pets_by_status status)
  pub find_pets_by_tags : (tags : Option (List String)) → Returns (api.find_pets_by_tags tags)
  pub update_pet : (pet : Pet) → Returns (api.update_pet pet)
  pub delete_pet : (id : ℤ) (key : Option String) → Returns (api.delete_pet id key)
  pub get_pet_by_id : (id : ℤ) → Returns (api.get_pet_by_id id)
  pub update_pet_with_form :
      (id : ℤ) (name status : Option String) → Returns (api.update_pet_with_form id name status)
  pub upload_file :
      (id : ℤ) (metadata : Option String) (body : Option (List ℕ))
      → Returns (api.upload_file id metadata body)
  pub get_inventory : Returns api.get_inventory
  pub place_order : (order : Option (Order DateTime)) → Returns (api.place_order order)
  pub delete_order : (id : ℤ) → Returns (api.delete_order id)
  pub get_order_by_id : (id : ℤ) → Returns (api.get_order_by_id id)
  pub create_user : (user : Option User) → Returns (api.create_user user)
  pub create_users_with_list_input :
      (users : Option (List User)) → Returns (api.create_users_with_list_input users)
  pub login_user : (username password : Option String) → Returns (api.login_user username password)
  pub logout_user : Returns api.logout_user
  pub delete_user : (username : String) → Returns (api.delete_user username)
  pub get_user_by_name : (username : String) → Returns (api.get_user_by_name username)
  pub update_user :
      (username : String) (user : Option User) → Returns (api.update_user username user)

abbrev pub is_ok : {E A : Type 0} → Result E A → Bool
is_ok (ok a) = true
is_ok (err e) = false

-- The response that a handler begins with.
abbrev pub started : String → Response
started span = record { status = 200; headers = ("x-span-id", span) ∷ []; body = ok [] }

-- A step of a handler ends with a value, or with an answer.
abbrev pub EndsAs : {A : Type 0} → (A → Type 0) → Answer A → Type 0
EndsAs P (ok a) = P a
EndsAs P (err o) = IsAnswer o

abbrev pub Any : {A : Type 0} → A → Type 0
Any a = Unit {0}

module _ {DateTime : Type 0} (w : Wire DateTime) where
  pub ends_path_text :
      (id : PathId) (path : String) → matched path id ≡ true → EndsAs Any (path_text w id path)
  unfolding path_text matched
  ends_path_text id path h = ground arith

  pub ends_path_i64 :
      (id : PathId) (name path : String)
      → matched path id ≡ true
      → EndsAs Any (path_i64 w id name path)
  unfolding path_i64
  ends_path_i64 id name path h = ground (arith, ends_path_text id path h)

  pub ends_status_param : (uri : Uri) → EndsAs Any (status_param w uri)
  unfolding status_param
  ends_status_param uri = ground arith

  pub ends_read_body : (request : Request) → EndsAs Any (read_body w request)
  unfolding read_body
  ends_read_body request = ground arith

  pub read_body-ok :
      (request : Request) (bytes : List ℕ)
      → read_body w request ≡ ok bytes
      → request.body ≡ ok bytes
  unfolding read_body
  read_body-ok request bytes h = ground arith

  pub ends_required_body :
      {A : Type 0} (name : String) (body : Body A) (request : Request) (bytes : List ℕ)
      → EndsAs Any (required_body w name body request bytes)
  unfolding required_body
  ends_required_body name body request bytes = ground arith

  pub ends_api_key_header : (request : Request) → EndsAs Any (api_key_header w request)
  unfolding api_key_header
  ends_api_key_header request = ground arith

  pub ends_authenticate : (context : Context) → EndsAs Any (authenticate w context)
  unfolding authenticate
  ends_authenticate context = ground arith

  pub ends_check_scopes : (scopes : Scopes) → EndsAs Any (check_scopes w scopes)
  unfolding check_scopes
  ends_check_scopes Scopes.all = tt
  ends_check_scopes (Scopes.some_of scopes) = ground arith

  pub ends_authorize : (context : Context) → EndsAs Any (authorize w context)
  unfolding authorize
  ends_authorize context = elim (Result-cases (authenticate w context)) [
    | inl (a, e) ↦ rw (authorize, e) (ends_check_scopes a.scopes)
    | inr (o, e) ↦ rw (authorize, e) (rw e at (ends_authenticate context))
  ]

  pub finish_answers :
      {R : Type 0} (context : Context) (prepare : Response → Option Response)
      (write : Response → R → Option Response) (result : Result String R)
      → ((span : String) → is_some (prepare (started span)) ≡ true)
      → is_ok (w.header_value context.span_id) ≡ true
      → ((r : Response) (rsp : R) → IsAnswer (write r rsp))
      → IsAnswer (finish_with w context prepare write result)
  unfolding finish_with
  finish_answers context prepare write result ready span h =
      elim (Result-cases (w.header_value context.span_id)) [
        | inr (e, q) ↦ absurd (let r = span in cc)
        | inl (v, q) ↦ elim (Option-cases (prepare (started v))) [
          | inl none_ready ↦ absurd (let r = ready v in cc)
          | inr (r, e) ↦ elim (Result-cases result) [
            | inl (rsp, a) ↦ rw (finish_with, q, e, a) (h r rsp)
            | inr (m, a) ↦ rw (finish_with, q, e, a) refl
          ]
        ]
      ]
