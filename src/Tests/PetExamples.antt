-- ===== src/Tests/PetExamples.antt =====
-- The theorems on pets at concrete inputs, on the database in memory.
use mathlib.Core.List.{Perm}
use speed_test.Base.{
  String, none, some, true, false, List, [], ◌∷◌, ℤ, pos, ◌≡◌, ◌≢◌, refl, ◌⊎◌, inr, int_key,
  string_key, unwrap_or,
}
use speed_test.Models.{Pet, PetStatus, pet_status_to_string}
use speed_test.Views.{pet_view}
use speed_test.Views.Pets.{PetStored, PetGone, PetEdited}
use speed_test.Views.Catalog.{catalog, has_status}
use speed_test.Sql.Meaning.{select}
use speed_test.Actix.Response.{Body, ok_json, finish, bad_request, not_found, internal_error}
use speed_test.Actix.Response.Cases.{Assigned}
use speed_test.Actix.Pet.{
  UpdatePetForm, add_pet, find_pets_by_status, find_pets_by_tags, update_pet, delete_pet,
  get_pet_by_id, update_pet_with_form, upload_file,
}
use speed_test.Actix.Pet.Writes.{
  is_incomplete, form_status, add_pet-refines, update_pet-refines, delete_pet-refines,
  update_pet_with_form-refines,
}
use speed_test.Actix.Pet.Reads.{
  shown, get_pet_by_id-refines, get_pet_by_id-add_pet, get_pet_by_id-update_pet,
  find_pets_by_status-refines,
}
use speed_test.Actix.Pet.Upload.{photo, receipt, upload_file-refines}
use speed_test.Actix.Pet.Tags.{find_pets_by_tags-refines, has_tag}
use speed_test.Tests.Serial.{json, chrono}
use speed_test.Tests.Memory.{memory, fresh, execute, nextval}
use speed_test.Tests.Inputs.{rex, rex_sold, filled}

abbrev max_form : UpdatePetForm
max_form = record { name = some "Max"; status = some "sold" }

add_pet-refines_example :
    let (r, s') = add_pet json chrono memory rex fresh in
    ((is_incomplete rex ≡ true)
      × (r ≡ bad_request "Name and photoUrls must not be empty")
      × (s' ≡ fresh))
    ⊎ ((is_incomplete rex ≡ false)
        × (m : String) × (r ≡ internal_error m)
        × (memory.tables s' ≡ memory.tables fresh))
    ⊎ ((is_incomplete rex ≡ false)
        × (id : ℤ) × Assigned memory fresh "pet_id_seq" rex.id id
        × (r ≡ ok_json (Body.pet (record rex { id = some id })))
        × PetStored json memory.dialect id
            (record rex { id = some id })
            (memory.tables fresh)
            (memory.tables s'))
add_pet-refines_example = add_pet-refines json chrono memory rex fresh

get_pet_by_id-add_pet_example :
    let r = (get_pet_by_id json chrono memory (pos 1) (add_pet json chrono memory rex fresh).1).0 in
    ((record rex { id = some (pos 1) }) ≡ record rex { id = some (pos 1) })
    × (((m : String) × (r ≡ internal_error m))
        ⊎ (r ≡ ok_json (Body.pet (record rex { id = some (pos 1) }))))
unfolding add_pet nextval execute speed_test.Rows.pet_values speed_test.Tests.Serial.put_nat
    speed_test.Tests.Serial.put_all speed_test.Tests.Serial.put_text
    speed_test.Tests.Serial.put_option
get_pet_by_id-add_pet_example =
    get_pet_by_id-add_pet json chrono memory rex fresh (record rex { id = some (pos 1) }) (pos 1)
      refl refl

update_pet-refines_example :
    let (r, s') = update_pet json chrono memory rex_sold filled in
    ((rex_sold.id ≡ none) × (r ≡ bad_request "Pet ID is required for update") × (s' ≡ filled))
    ⊎ ((id : ℤ) × (rex_sold.id ≡ some id)
        × (((m : String) × (r ≡ internal_error m) × (memory.tables s' ≡ memory.tables filled))
            ⊎ ((pet_view json (memory.tables filled) id ≡ none)
                × (r ≡ not_found "Pet not found")
                × (memory.tables s' ≡ memory.tables filled))
            ⊎ ((pet_view json (memory.tables filled) id ≢ none)
                × (r ≡ ok_json (Body.pet rex_sold))
                × PetStored json memory.dialect id rex_sold
                    (memory.tables filled)
                    (memory.tables s'))))
update_pet-refines_example = update_pet-refines json chrono memory rex_sold filled

get_pet_by_id-update_pet_example :
    let r =
      (get_pet_by_id json chrono memory
        (pos 1)
        (update_pet json chrono memory rex_sold filled).1).0 in
    (rex_sold ≡ rex_sold)
    × (((m : String) × (r ≡ internal_error m)) ⊎ (r ≡ ok_json (Body.pet rex_sold)))
unfolding update_pet speed_test.Sql.Table.count speed_test.Sql.Table.upsert add_pet nextval execute
    speed_test.Rows.pet_values speed_test.Tests.Serial.put_nat speed_test.Tests.Serial.put_all
    speed_test.Tests.Serial.put_text speed_test.Tests.Serial.put_option
get_pet_by_id-update_pet_example =
    get_pet_by_id-update_pet json chrono memory rex_sold filled rex_sold (pos 1) refl refl

delete_pet-refines_example :
    let (r, s') = delete_pet json chrono memory (pos 1) filled in
    ((m : String) × (r ≡ internal_error m) × (memory.tables s' ≡ memory.tables filled))
    ⊎ ((r ≡ finish) × PetGone json memory.dialect (pos 1) (memory.tables filled) (memory.tables s'))
delete_pet-refines_example = delete_pet-refines json chrono memory (pos 1) filled

update_pet_with_form-refines_example :
    let (r, s') = update_pet_with_form json chrono memory (pos 1) max_form filled in
    ((m : String) × (r ≡ internal_error m) × (memory.tables s' ≡ memory.tables filled))
    ⊎ ((pet_view json (memory.tables filled) (pos 1) ≡ none)
        × (r ≡ bad_request "Pet not found")
        × (memory.tables s' ≡ memory.tables filled))
    ⊎ ((pet_view json (memory.tables filled) (pos 1) ≢ none)
        × (r ≡ finish)
        × PetEdited json memory.dialect
            (pos 1)
            max_form.name
            (form_status json chrono memory max_form)
            (memory.tables filled)
            (memory.tables s'))
update_pet_with_form-refines_example =
    update_pet_with_form-refines json chrono memory (pos 1) max_form filled

upload_file-refines_example :
    let (r, s') =
      upload_file json chrono memory (pos 1) (some "portrait") (255 ∷ 216 ∷ []) filled in
    ((m : String) × (r ≡ internal_error m) × (memory.tables s' ≡ memory.tables filled))
    ⊎ ((pet_view json (memory.tables filled) (pos 1) ≡ none)
        × (r ≡ not_found "Pet not found")
        × (memory.tables s' ≡ memory.tables filled))
    ⊎ ((pet_view json (memory.tables filled) (pos 1) ≢ none)
        × (r
            ≡ ok_json (
                Body.api_response
                  (receipt json chrono memory (pos 1) (some "portrait") (255 ∷ 216 ∷ []))))
        × (memory.tables s' ≡ record (memory.tables filled) {
          photos = photo (pos 1) (some "portrait") (255 ∷ 216 ∷ []) ∷ (memory.tables filled).photos;
        }))
upload_file-refines_example =
    upload_file-refines json chrono memory (pos 1) (some "portrait") (255 ∷ 216 ∷ []) filled

get_pet_by_id-refines_example :
    let (r, s') = get_pet_by_id json chrono memory (pos 1) filled in
    (memory.tables s' ≡ memory.tables filled)
    × (((m : String) × (r ≡ internal_error m))
        ⊎ (r ≡ shown json chrono memory (pet_view json (memory.tables filled) (pos 1))))
get_pet_by_id-refines_example = get_pet_by_id-refines json chrono memory (pos 1) filled

find_pets_by_status-refines_example :
    let (r, s') = find_pets_by_status json chrono memory (some "available") filled in
    (memory.tables s' ≡ memory.tables filled)
    × (((m : String) × (r ≡ internal_error m))
        ⊎ ((st : PetStatus) × (unwrap_or (some "available") "available" ≡ pet_status_to_string st)
            × (pets : List Pet) × (r ≡ ok_json (Body.pets pets))
            × Perm (select (has_status st) (catalog json (memory.tables filled))) pets))
find_pets_by_status-refines_example =
    find_pets_by_status-refines json chrono memory (some "available") filled

find_pets_by_tags-refines_example :
    let (r, s') = find_pets_by_tags json chrono memory ("good" ∷ []) filled in
    (memory.tables s' ≡ memory.tables filled)
    × (((m : String) × (r ≡ internal_error m))
        ⊎ ((pets : List Pet) × (r ≡ ok_json (Body.pets pets))
            × Perm (select (has_tag ("good" ∷ [])) (catalog json (memory.tables filled))) pets))
unfolding add_pet nextval execute speed_test.Rows.pet_values speed_test.Tests.Serial.put_nat
    speed_test.Tests.Serial.put_all speed_test.Tests.Serial.put_text
    speed_test.Tests.Serial.put_option speed_test.Sql.Table.upsert speed_test.Tests.Serial.take_list
    speed_test.Tests.Serial.take_nat speed_test.Tests.Serial.take_all
    speed_test.Tests.Serial.take_option speed_test.Tests.Serial.take_text
find_pets_by_tags-refines_example =
    find_pets_by_tags-refines json chrono memory ("good" ∷ []) filled
      (inr (record { id = none; name = some "good" } ∷ [], refl, refl), tt)
