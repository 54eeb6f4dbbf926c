-- ===== src/Hyper/Server/Pet.antt =====
-- The handlers of the pet operations of petshop-stacks/rust/hyper/src/server/mod.rs.
use speed_test.Base.{
  String, ◌++◌, Option, none, some, List, [], ◌∷◌, ℕ, ok, err, lift, pure, ◌>>=◌, ◌>>◌, respond,
}
use speed_test.Hyper.Http.{Request, Wire, get_header}
use speed_test.Hyper.Header.{read_string}
use speed_test.Hyper.Paths.{PathId}
use speed_test.Hyper.Interface.{Api}
use speed_test.Hyper.Server.Access.{
  Context, Handler, Answer, call_api, bad_request, authorize, finish, finish_with,
}
use speed_test.Hyper.Server.Params.{
  first_value, path_i64, query_params, status_param, tags_param, read_body, required_body,
}
use speed_test.Hyper.Server.Write.{
  write_add_pet, write_find_pets_by_status, write_find_pets_by_tags, write_update_pet,
  write_delete_pet, write_get_pet_by_id, write_update_pet_with_form, write_upload_file,
}

-- `swagger::ByteArray`, where there are bytes
abbrev pub byte_array : List ℕ → Option (List ℕ)
byte_array [] = none
byte_array (b ∷ bytes) = some (b ∷ bytes)

module _ {DateTime : Type 0} (w : Wire DateTime) where
  -- The header of `delete_pet`
  unfoldable pub api_key_header : Request → Answer (Option String)
  unfolding get_header read_string
  api_key_header request = elim (get_header "api_key" request.headers) [
    | none ↦ ok none
    | some v ↦ elim (read_string w v) [
      | ok key ↦ ok (some key)
      | err e ↦ bad_request w ("Invalid header api_key - " ++ e)
    ]
  ]

module _ {DateTime S : Type 0} (w : Wire DateTime) (api : Api DateTime S) (context : Context)
    (request : Request) where
  unfoldable pub handle_add_pet : Handler S
  unfolding authorize read_body required_body finish_with write_add_pet
  handle_add_pet = respond do
    lift (authorize w context)
    bytes ← lift (read_body w request)
    pet ← lift (required_body w "Pet" w.pet_body request bytes)
    result ← call_api (api.add_pet pet)
    pure (finish w context (write_add_pet w) result)

  unfoldable pub handle_find_pets_by_status : Handler S
  unfolding authorize status_param finish_with write_find_pets_by_status
  handle_find_pets_by_status = respond do
    lift (authorize w context)
    status ← lift (status_param w request.uri)
    result ← call_api (api.find_pets_by_status status)
    pure (finish w context (write_find_pets_by_status w) result)

  unfoldable pub handle_find_pets_by_tags : Handler S
  unfolding authorize tags_param finish_with write_find_pets_by_tags
  handle_find_pets_by_tags = respond do
    lift (authorize w context)
    result ← call_api (api.find_pets_by_tags (tags_param w request.uri))
    pure (finish w context (write_find_pets_by_tags w) result)

  unfoldable pub handle_update_pet : Handler S
  unfolding authorize read_body required_body finish_with write_update_pet
  handle_update_pet = respond do
    lift (authorize w context)
    bytes ← lift (read_body w request)
    pet ← lift (required_body w "Pet" w.pet_body request bytes)
    result ← call_api (api.update_pet pet)
    pure (finish w context (write_update_pet w) result)

  unfoldable pub handle_delete_pet : Handler S
  unfolding authorize path_i64 api_key_header finish_with write_delete_pet
  handle_delete_pet = respond do
    lift (authorize w context)
    pet_id ← lift (path_i64 w PathId.pet_petid "petId" request.uri.path)
    api_key ← lift (api_key_header w request)
    result ← call_api (api.delete_pet pet_id api_key)
    pure (finish w context (write_delete_pet w) result)

  unfoldable pub handle_get_pet_by_id : Handler S
  unfolding authorize path_i64 finish_with write_get_pet_by_id
  handle_get_pet_by_id = respond do
    lift (authorize w context)
    pet_id ← lift (path_i64 w PathId.pet_petid "petId" request.uri.path)
    result ← call_api (api.get_pet_by_id pet_id)
    pure (finish w context (write_get_pet_by_id w) result)

  unfoldable pub handle_update_pet_with_form : Handler S
  unfolding authorize path_i64 first_value finish_with write_update_pet_with_form
  handle_update_pet_with_form = respond do
    lift (authorize w context)
    pet_id ← lift (path_i64 w PathId.pet_petid "petId" request.uri.path)
    let pairs = query_params w request.uri
    result ←
        call_api
          (api.update_pet_with_form pet_id (first_value "name" pairs) (first_value "status" pairs))
    pure (finish w context (write_update_pet_with_form w) result)

  unfoldable pub handle_upload_file : Handler S
  unfolding authorize path_i64 first_value read_body finish_with write_upload_file
  handle_upload_file = respond do
    lift (authorize w context)
    pet_id ← lift (path_i64 w PathId.pet_petid_uploadimage "petId" request.uri.path)
    let metadata = first_value "additionalMetadata" (query_params w request.uri)
    bytes ← lift (read_body w request)
    result ← call_api (api.upload_file pet_id metadata (byte_array bytes))
    pure (finish w context (write_upload_file w) result)
