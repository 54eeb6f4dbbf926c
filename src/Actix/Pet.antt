-- ===== src/Actix/Pet.antt =====
-- petshop-stacks/rust/actix/src/handlers/pet.rs, handler by handler. A request is handled alone:
-- what other requests do between two statements of one handler is not modelled.
pub mod Writes
pub mod Reads
pub mod Upload
pub mod Tags
use speed_test.Base.{
  ℕ, String, ◌++◌, Option, none, some, true, false, ◌||◌, List, [], map, ℤ, pos, same, string_key,
  Exec, ok, err, ok?, pure, lift, guard_not, map_err, ◌>>=◌, ◌>>◌, respond, if◌then◌else◌, is_empty,
  length, unwrap_or, and_then, map_option, ◌==◌, show_int, show_nat,
}
use speed_test.Models.{Pet, pet_status_to_string, parse_pet_status}
use speed_test.Serde.{Json, Chrono}
use speed_test.Rows.{pet_values, pet_of_row}
use speed_test.Sql.Schema.{
  PhotoRow, insert_pet, pets_by_status, pets_by_tags, pet_by_id, update_pet_form, pet_exists,
  insert_photo,
}
use speed_test.Sql.Schema
use speed_test.Sql.Postgres.{Postgres}
use speed_test.Actix.Response.{
  Body, HttpResponse, ok_json, finish, bad_request, not_found, internal_error, assign_id, query,
}

pub record UpdatePetForm : Type 0 where
  pub name : Option String
  pub status : Option String

module _ (json : Json) (c : Chrono) (pg : Postgres c.NaiveDateTime) where
  abbrev Handler : Type 0
  Handler = pg.State → HttpResponse c.DateTime × pg.State

  -- `match serde_json::to_string(&pet.photo_urls) { … }`
  abbrev urls_json : Pet → Exec pg.State (HttpResponse c.DateTime) String
  urls_json pet =
      map_err (λ e. internal_error ("JSON error: " ++ e))
        (lift (json.urls.to_string pet.photo_urls))

  unfoldable pub add_pet : Pet → Handler
  unfolding assign_id
  add_pet pet = respond do
    guard_not (same pet.name "" || is_empty pet.photo_urls)
        (bad_request "Name and photoUrls must not be empty")
    id ← assign_id pg pet.id "pet_id_seq"
    photo_urls_json ← urls_json pet
    query pg "DB error inserting pet: " (insert_pet (pet_values json id pet photo_urls_json))
    pure (ok_json (Body.pet (record pet { id = some id })))

  unfoldable pub find_pets_by_status : Option String → Handler
  find_pets_by_status status = respond do
    let status_str = unwrap_or status "available"
    rows ← query pg "DB error finding pets by status: " (pets_by_status status_str)
    pure (ok_json (Body.pets (map (pet_of_row json) rows)))

  unfoldable pub find_pets_by_tags : List String → Handler
  find_pets_by_tags tag_list = respond do
    guard_not (is_empty tag_list) (ok_json (Body.pets []))
    rows ← query pg "DB error finding pets by tags: " (pets_by_tags tag_list)
    pure (ok_json (Body.pets (map (pet_of_row json) rows)))

  unfoldable pub update_pet : Pet → Handler
  update_pet pet = respond do
    id ←
        lift (elim pet.id [
          | some id ↦ ok id
          | none ↦ err (bad_request "Pet ID is required for update")
        ])
    photo_urls_json ← urls_json pet
    n ←
        query pg "DB error updating pet: "
          (Schema.update_pet (pet_values json id pet photo_urls_json))
    guard_not (n == 0) (not_found "Pet not found")
    pure (ok_json (Body.pet (record pet { id = some id })))

  unfoldable pub delete_pet : ℤ → Handler
  delete_pet pet_id =
      respond do query pg "DB error deleting pet: " (Schema.delete_pet pet_id); pure finish

  unfoldable pub get_pet_by_id : ℤ → Handler
  get_pet_by_id pet_id = respond do
    row ← query pg "DB error fetching pet: " (pet_by_id pet_id)
    pure (elim row [
      | none ↦ not_found "Pet not found"
      | some r ↦ ok_json (Body.pet (pet_of_row json r))
    ])

  unfoldable pub update_pet_with_form : ℤ → UpdatePetForm → Handler
  unfolding parse_pet_status pet_status_to_string
  update_pet_with_form pet_id form = respond do
    let status_enum =
        and_then form.status (λ s. map_option pet_status_to_string (ok? (parse_pet_status s)))
    n ← query pg "DB error updating pet with form: " (update_pet_form pet_id form.name status_enum)
    guard_not (n == 0) (bad_request "Pet not found")
    pure finish

  -- The message of a stored upload.
  abbrev pub uploaded : ℤ → ℕ → Option String → String
  uploaded pet_id size none =
      "File uploaded for pet " ++ show_int pet_id ++ ", " ++ show_nat size ++ " bytes"
  uploaded pet_id size (some meta) =
      "File uploaded for pet "
      ++ show_int pet_id
      ++ ", "
      ++ show_nat size
      ++ " bytes ("
      ++ meta
      ++ ")"

  unfoldable pub upload_file : ℤ → Option String → List ℕ → Handler
  upload_file pet_id metadata content = respond do
    exists ← query pg "DB error checking pet: " (pet_exists pet_id)
    guard_not (if exists then false else true) (not_found "Pet not found")
    query pg "DB error saving photo: " (
        insert_photo (record {
          pet_id = pet_id;
          content_type = "application/octet-stream";
          metadata = metadata;
          content = content;
        }))
    pure (
        ok_json (
          Body.api_response (record {
            code = some (pos 200);
            type = some "application/octet-stream";
            message = some (uploaded pet_id (length content) metadata);
          })))
