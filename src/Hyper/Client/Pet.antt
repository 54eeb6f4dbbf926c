-- ===== src/Hyper/Client/Pet.antt =====
-- The pet operations of petshop-stacks/rust/hyper/src/client/mod.rs.
use speed_test.Base.{
  String, ◌++◌, Option, none, some, List, [], ◌∷◌, ℤ, ℕ, Result, ok, err, pure, ◌>>=◌, respond,
  return_early, append, show_int,
}
use speed_test.Models.{Pet}
use speed_test.Hyper.Http.{Body, Method, Request, Wire}
use speed_test.Hyper.Header.{write_string}
use speed_test.Hyper.Interface.{Call}
use speed_test.Hyper.Responses.{
  FindPetsByStatusStatusParameter, status_parameter_to_string, AddPetResponse,
  FindPetsByStatusResponse, FindPetsByTagsResponse, UpdatePetResponse, DeletePetResponse,
  GetPetByIdResponse, UpdatePetWithFormResponse, UploadFileResponse,
}
use speed_test.Hyper.Client.Message.{
  Context, Service, Step, try, send, set_header, set_body, new_request, span_header, bearer_header,
  key_header,
}
use speed_test.Hyper.Client.Read.{
  read_add_pet, read_find_pets_by_status, read_find_pets_by_tags, read_update_pet, read_delete_pet,
  read_get_pet_by_id, read_update_pet_with_form, read_upload_file,
}

-- `append_pair`, where there is a value
abbrev pub pair : String → Option String → List (String × String)
pair name none = []
pair name (some v) = (name, v) ∷ []

abbrev pub status_pairs : Option FindPetsByStatusStatusParameter → List (String × String)
status_pairs none = []
status_pairs (some status) = ("status", status_parameter_to_string status) ∷ []

-- `join(",")`
unfoldable pub join_commas : List String → String
join_commas [] = ""
join_commas (s ∷ []) = s
join_commas (s ∷ t ∷ ss) = s ++ "," ++ join_commas (t ∷ ss)

abbrev pub tags_pairs : Option (List String) → List (String × String)
tags_pairs none = []
tags_pairs (some tags) = ("tags", join_commas tags) ∷ []

module _ {DateTime : Type 0} (w : Wire DateTime) where
  -- The header parameter of `delete_pet`
  unfoldable pub api_key_param : Option String → Request → Result String Request
  unfolding write_string set_header
  api_key_param none request = ok request
  api_key_param (some key) request = elim (write_string w key) [
    | ok v ↦ ok (record request { headers = append request.headers (("api_key", v) ∷ []) })
    | err e ↦ err ("Invalid header api_key - " ++ e)
  ]

  -- `as_xml` and the body: `expect` panics where the serialisation fails.
  unfoldable pub xml_body : {S R A : Type 0} → Body A → A → Request → Step S R Request
  xml_body body a request = elim (body.as_xml a) [
    | ok text ↦ pure (set_body (w.as_bytes text) request)
    | err e ↦ return_early none
  ]

  -- The body of `upload_file`: the client panics where it is no text.
  unfoldable pub upload_body : {S R : Type 0} → Option (List ℕ) → Request → Step S R Request
  upload_body none request = pure request
  upload_body (some bytes) request = elim (w.from_utf8 bytes) [
    | ok text ↦ pure (set_body (w.as_bytes text) request)
    | err e ↦ return_early none
  ]

module _ {DateTime S : Type 0} (w : Wire DateTime) (base_path : String) (service : Service S)
    (context : Context) where
  unfoldable pub add_pet : Pet → Call S AddPetResponse
  unfolding new_request xml_body set_header bearer_header span_header read_add_pet
  add_pet pet = respond do
    request ← try (new_request w base_path Method.post "/api/v3/pet" [])
    request ← xml_body w w.pet_body pet request
    let request = set_header "content-type" "application/json" request
    request ← try (span_header w context request)
    request ← try (bearer_header w context request)
    response ← send service request
    pure (some (read_add_pet w response))

  unfoldable pub find_pets_by_status :
      Option FindPetsByStatusStatusParameter → Call S FindPetsByStatusResponse
  unfolding new_request span_header bearer_header read_find_pets_by_status
      status_parameter_to_string
  find_pets_by_status status = respond do
    request ←
        try (new_request w base_path Method.get "/api/v3/pet/findByStatus" (status_pairs status))
    request ← try (span_header w context request)
    request ← try (bearer_header w context request)
    response ← send service request
    pure (some (read_find_pets_by_status w response))

  unfoldable pub find_pets_by_tags : Option (List String) → Call S FindPetsByTagsResponse
  unfolding join_commas new_request span_header bearer_header read_find_pets_by_tags
  find_pets_by_tags tags = respond do
    request ← try (new_request w base_path Method.get "/api/v3/pet/findByTags" (tags_pairs tags))
    request ← try (span_header w context request)
    request ← try (bearer_header w context request)
    response ← send service request
    pure (some (read_find_pets_by_tags w response))

  unfoldable pub update_pet : Pet → Call S UpdatePetResponse
  unfolding new_request xml_body set_header bearer_header span_header read_update_pet
  update_pet pet = respond do
    request ← try (new_request w base_path Method.put "/api/v3/pet" [])
    request ← xml_body w w.pet_body pet request
    let request = set_header "content-type" "application/json" request
    request ← try (span_header w context request)
    request ← try (bearer_header w context request)
    response ← send service request
    pure (some (read_update_pet w response))

  unfoldable pub delete_pet : ℤ → Option String → Call S DeletePetResponse
  unfolding new_request span_header api_key_param bearer_header read_delete_pet
  delete_pet pet_id api_key = respond do
    request ← try (
        new_request w base_path Method.delete ("/api/v3/pet/" ++ w.percent_encode (show_int pet_id))
          [])
    request ← try (span_header w context request)
    request ← try (bearer_header w context request)
    request ← try (api_key_param w api_key request)
    response ← send service request
    pure (some (read_delete_pet w response))

  unfoldable pub get_pet_by_id : ℤ → Call S GetPetByIdResponse
  unfolding new_request span_header key_header bearer_header read_get_pet_by_id
  get_pet_by_id pet_id = respond do
    request ← try (
        new_request w base_path Method.get ("/api/v3/pet/" ++ w.percent_encode (show_int pet_id))
          [])
    request ← try (span_header w context request)
    request ← try (bearer_header w context request)
    request ← try (key_header w context request)
    response ← send service request
    pure (some (read_get_pet_by_id w response))

  unfoldable pub update_pet_with_form :
      ℤ → Option String → Option String → Call S UpdatePetWithFormResponse
  unfolding new_request span_header bearer_header read_update_pet_with_form
  update_pet_with_form pet_id name status = respond do
    request ← try (
        new_request w base_path Method.post ("/api/v3/pet/" ++ w.percent_encode (show_int pet_id))
          (append (pair "name" name) (pair "status" status)))
    request ← try (span_header w context request)
    request ← try (bearer_header w context request)
    response ← send service request
    pure (some (read_update_pet_with_form w response))

  unfoldable pub upload_file : ℤ → Option String → Option (List ℕ) → Call S UploadFileResponse
  unfolding new_request set_header bearer_header span_header upload_body read_upload_file
  upload_file pet_id additional_metadata body = respond do
    request ← try (
        new_request w base_path Method.post
          ("/api/v3/pet/" ++ w.percent_encode (show_int pet_id) ++ "/uploadImage")
          (pair "additionalMetadata" additional_metadata))
    request ← upload_body w body request
    let request = set_header "content-type" "application/octet-stream" request
    request ← try (span_header w context request)
    request ← try (bearer_header w context request)
    response ← send service request
    pure (some (read_upload_file w response))
