-- ===== src/Hyper/Api/Pet.antt =====
-- The pet operations of petshop-stacks/rust/hyper/examples/server/server.rs.
use speed_test.Base.{
  ℕ, String, ◌++◌, Option, none, some, true, false, ◌||◌, List, [], map, ℤ, pos, same, string_key,
  Result, Exec, ok, err, ok?, pure, lift, guard_not, map_err, ◌>>=◌, ◌>>◌, respond, if◌then◌else◌,
  is_empty, length, unwrap_or, and_then, map_option, ◌==◌, show_int, show_nat,
}
use speed_test.Models.{Pet, pet_status_to_string, parse_pet_status}
use speed_test.Serde.{Json, Chrono}
use speed_test.Rows.{pet_values, pet_of_row}
use speed_test.Sql.Schema.{
  PhotoRow, insert_pet, pets_by_status, pets_by_tags, pet_by_id, update_pet_form, pet_exists,
  insert_photo,
}
use speed_test.Sql.Schema
use speed_test.Sql.Postgres.{Postgres}
use speed_test.Hyper.Responses.{
  FindPetsByStatusStatusParameter, status_parameter_to_string, AddPetResponse,
  FindPetsByStatusResponse, FindPetsByTagsResponse, UpdatePetResponse, DeletePetResponse,
  GetPetByIdResponse, UpdatePetWithFormResponse, UploadFileResponse,
}
use speed_test.Hyper.Api.{assign_id, query}

module _ (json : Json) (c : Chrono) (pg : Postgres c.NaiveDateTime) where
  abbrev Handler : Type 0 → Type 0
  Handler R = pg.State → Result String R × pg.State

  -- `serde_json::to_string(&pet.photo_urls).map_err(…)?`
  abbrev urls_json : {R : Type 0} → Pet → Exec pg.State (Result String R) String
  urls_json pet =
      map_err (λ e. err ("JSON error: " ++ e)) (lift (json.urls.to_string pet.photo_urls))

  unfoldable pub add_pet : Pet → Handler AddPetResponse
  unfolding assign_id
  add_pet pet = respond do
    guard_not (same pet.name "" || is_empty pet.photo_urls) (ok AddPetResponse.invalid_input)
    id ← assign_id pg pet.id "pet_id_seq"
    photo_urls_json ← urls_json pet
    query pg "DB error inserting pet: " (insert_pet (pet_values json id pet photo_urls_json))
    pure (ok (AddPetResponse.successful_operation (record pet { id = some id })))

  unfoldable pub find_pets_by_status :
      Option FindPetsByStatusStatusParameter → Handler FindPetsByStatusResponse
  unfolding status_parameter_to_string
  find_pets_by_status status = respond do
    let status_str = unwrap_or (map_option status_parameter_to_string status) "available"
    rows ← query pg "DB error finding pets by status: " (pets_by_status status_str)
    pure (ok (FindPetsByStatusResponse.successful_operation (map (pet_of_row json) rows)))

  unfoldable pub find_pets_by_tags : Option (List String) → Handler FindPetsByTagsResponse
  find_pets_by_tags tags = respond do
    tag_list ← lift (elim tags [
      | none ↦ err (ok (FindPetsByTagsResponse.successful_operation []))
      | some t ↦
          if is_empty t then err (ok (FindPetsByTagsResponse.successful_operation [])) else ok t
    ])
    rows ← query pg "DB error finding pets by tags: " (pets_by_tags tag_list)
    pure (ok (FindPetsByTagsResponse.successful_operation (map (pet_of_row json) rows)))

  unfoldable pub update_pet : Pet → Handler UpdatePetResponse
  update_pet pet = respond do
    id ←
        lift
          (elim pet.id [ some id ↦ ok id | none ↦ err (ok UpdatePetResponse.invalid_id_supplied) ])
    photo_urls_json ← urls_json pet
    n ←
        query pg "DB error updating pet: "
          (Schema.update_pet (pet_values json id pet photo_urls_json))
    guard_not (n == 0) (ok UpdatePetResponse.pet_not_found)
    pure (ok (UpdatePetResponse.successful_operation (record pet { id = some id })))

  -- The API key is only logged.
  unfoldable pub delete_pet : ℤ → Option String → Handler DeletePetResponse
  delete_pet pet_id api_key = respond do
    query pg "DB error deleting pet: " (Schema.delete_pet pet_id)
    pure (ok DeletePetResponse.successful_operation)

  unfoldable pub get_pet_by_id : ℤ → Handler GetPetByIdResponse
  get_pet_by_id pet_id = respond do
    row ← query pg "DB error fetching pet: " (pet_by_id pet_id)
    pure (elim row [
      | none ↦ ok GetPetByIdResponse.pet_not_found
      | some r ↦ ok (GetPetByIdResponse.successful_operation (pet_of_row json r))
    ])

  unfoldable pub update_pet_with_form :
      ℤ → Option String → Option String → Handler UpdatePetWithFormResponse
  unfolding parse_pet_status pet_status_to_string
  update_pet_with_form pet_id name status = respond do
    let status_enum =
        and_then status (λ s. map_option pet_status_to_string (ok? (parse_pet_status s)))
    n ← query pg "DB error updating pet with form: " (update_pet_form pet_id name status_enum)
    guard_not (n == 0) (ok UpdatePetWithFormResponse.invalid_input)
    pure (ok UpdatePetWithFormResponse.successfully_updated)

  -- The message of a stored upload.
  abbrev pub uploaded : ℤ → ℕ → Option String → String
  uploaded pet_id size none =
      "File uploaded for pet " ++ show_int pet_id ++ ", " ++ show_nat size ++ " bytes"
  uploaded pet_id size (some meta) =
      "File uploaded for pet "
      ++ show_int pet_id
      ++ ", "
      ++ show_nat size
      ++ " bytes ("
      ++ meta
      ++ ")"

  unfoldable pub upload_file : ℤ → Option String → Option (List ℕ) → Handler UploadFileResponse
  upload_file pet_id additional_metadata body = respond do
    exists ← query pg "DB error checking pet: " (pet_exists pet_id)
    guard_not (if exists then false else true) (
        ok (
          UploadFileResponse.unexpected_error (record { code = "404"; message = "Pet not found" })))
    let content = unwrap_or body []
    query pg "DB error saving photo: " (
        insert_photo (record {
          pet_id = pet_id;
          content_type = "application/octet-stream";
          metadata = additional_metadata;
          content = content;
        }))
    pure (
        ok (
          UploadFileResponse.successful_operation (record {
            code = some (pos 200);
            type = some "application/octet-stream";
            message = some (uploaded pet_id (length content) additional_metadata);
          })))
