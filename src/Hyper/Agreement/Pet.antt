-- ===== src/Hyper/Agreement/Pet.antt =====
-- The pet operations of the two servers.
use speed_test.Base.{ℕ, String, Option, none, some, List, [], ℤ, arith, map_option, unwrap_or}
use speed_test.Models.{Pet}
use speed_test.Serde.{Json, Chrono}
use speed_test.Sql.Postgres.{Postgres}
use speed_test.Actix.Response.{Body, HttpResponse, ok_json, finish, bad_request, not_found}
use speed_test.Actix.Response
use speed_test.Actix.Pet as A
use speed_test.Hyper.Api
use speed_test.Hyper.Api.Pet as H
use speed_test.Hyper.Responses.{
  FindPetsByStatusStatusParameter, status_parameter_to_string, AddPetResponse,
  FindPetsByStatusResponse, FindPetsByTagsResponse, UpdatePetResponse, DeletePetResponse,
  GetPetByIdResponse, UpdatePetWithFormResponse, UploadFileResponse,
}
use speed_test.Hyper.Agreement.{Same, say_error}

module _ {D : Type 0} where
  abbrev pub say_add : AddPetResponse → Option (HttpResponse D)
  say_add (AddPetResponse.successful_operation pet) = some (ok_json (Body.pet pet))
  say_add AddPetResponse.invalid_input = some (bad_request "Name and photoUrls must not be empty")
  say_add _ = none

  abbrev pub say_by_status : FindPetsByStatusResponse → Option (HttpResponse D)
  say_by_status (FindPetsByStatusResponse.successful_operation pets) =
      some (ok_json (Body.pets pets))
  say_by_status _ = none

  abbrev pub say_by_tags : FindPetsByTagsResponse → Option (HttpResponse D)
  say_by_tags (FindPetsByTagsResponse.successful_operation pets) = some (ok_json (Body.pets pets))
  say_by_tags _ = none

  abbrev pub say_update : UpdatePetResponse → Option (HttpResponse D)
  say_update (UpdatePetResponse.successful_operation pet) = some (ok_json (Body.pet pet))
  say_update UpdatePetResponse.invalid_id_supplied =
      some (bad_request "Pet ID is required for update")
  say_update UpdatePetResponse.pet_not_found = some (not_found "Pet not found")
  say_update _ = none

  abbrev pub say_delete : DeletePetResponse → Option (HttpResponse D)
  say_delete DeletePetResponse.successful_operation = some finish
  say_delete _ = none

  abbrev pub say_by_id : GetPetByIdResponse → Option (HttpResponse D)
  say_by_id (GetPetByIdResponse.successful_operation pet) = some (ok_json (Body.pet pet))
  say_by_id GetPetByIdResponse.pet_not_found = some (not_found "Pet not found")
  say_by_id _ = none

  abbrev pub say_form : UpdatePetWithFormResponse → Option (HttpResponse D)
  say_form UpdatePetWithFormResponse.successfully_updated = some finish
  say_form UpdatePetWithFormResponse.invalid_input = some (bad_request "Pet not found")
  say_form _ = none

  abbrev pub say_upload : UploadFileResponse → Option (HttpResponse D)
  say_upload (UploadFileResponse.successful_operation r) = some (ok_json (Body.api_response r))
  say_upload (UploadFileResponse.unexpected_error e) = say_error e

module _ (json : Json) (c : Chrono) (pg : Postgres c.NaiveDateTime) where
  -- Both servers answer `add_pet` alike, and leave the database in the same state.
  pub add_pet-Same :
      (pet : Pet) (s : pg.State)
      → Same say_add (H.add_pet json c pg pet s) (A.add_pet json c pg pet s)
  unfolding H.add_pet A.add_pet Api.assign_id Response.assign_id
  add_pet-Same pet s = ground arith

  -- A status of the Hyper server is a label of the Actix server's text.
  pub find_pets_by_status-Same :
      (status : Option FindPetsByStatusStatusParameter) (s : pg.State)
      → Same say_by_status
          (H.find_pets_by_status json c pg status s)
          (A.find_pets_by_status json c pg (map_option status_parameter_to_string status) s)
  unfolding H.find_pets_by_status A.find_pets_by_status
  find_pets_by_status-Same status s = ground arith

  -- No list of tags is as good as an empty one.
  pub find_pets_by_tags-Same :
      (tags : Option (List String)) (s : pg.State)
      → Same say_by_tags
          (H.find_pets_by_tags json c pg tags s)
          (A.find_pets_by_tags json c pg (unwrap_or tags []) s)
  unfolding H.find_pets_by_tags A.find_pets_by_tags
  find_pets_by_tags-Same tags s = ground arith

  pub update_pet-Same :
      (pet : Pet) (s : pg.State)
      → Same say_update (H.update_pet json c pg pet s) (A.update_pet json c pg pet s)
  unfolding H.update_pet A.update_pet
  update_pet-Same pet s = ground arith

  -- Whatever API key comes along.
  pub delete_pet-Same :
      (pet_id : ℤ) (api_key : Option String) (s : pg.State)
      → Same say_delete (H.delete_pet json c pg pet_id api_key s) (A.delete_pet json c pg pet_id s)
  unfolding H.delete_pet A.delete_pet
  delete_pet-Same pet_id api_key s = ground arith

  pub get_pet_by_id-Same :
      (pet_id : ℤ) (s : pg.State)
      → Same say_by_id (H.get_pet_by_id json c pg pet_id s) (A.get_pet_by_id json c pg pet_id s)
  unfolding H.get_pet_by_id A.get_pet_by_id
  get_pet_by_id-Same pet_id s = ground arith

  pub update_pet_with_form-Same :
      (pet_id : ℤ) (name status : Option String) (s : pg.State)
      → Same say_form
          (H.update_pet_with_form json c pg pet_id name status s)
          (A.update_pet_with_form json c pg pet_id (record { name = name; status = status }) s)
  unfolding H.update_pet_with_form A.update_pet_with_form
  update_pet_with_form-Same pet_id name status s = ground arith

  -- No body is as good as an empty one.
  pub upload_file-Same :
      (pet_id : ℤ) (metadata : Option String) (body : Option (List ℕ)) (s : pg.State)
      → Same say_upload
          (H.upload_file json c pg pet_id metadata body s)
          (A.upload_file json c pg pet_id metadata (unwrap_or body []) s)
  unfolding H.upload_file A.upload_file
  upload_file-Same pet_id metadata body s = ground arith
