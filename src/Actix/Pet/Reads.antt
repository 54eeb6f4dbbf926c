-- ===== src/Actix/Pet/Reads.antt =====
-- The pet handlers that read, and what they read after a write.
use mathlib.Core.List.{Perm}
use mathlib.Core.List.Perm
use speed_test.Base.{
  String, Option, none, some, List, true, false, ℤ, ◌≡◌, refl, ◌⊎◌, inl, inr, arith, same, int_key,
  string_key, if◌then◌else◌, unwrap_or, map,
}
use speed_test.Models.{Pet, PetStatus, pet_status_to_string}
use speed_test.Views.Catalog.{
  catalog, has_status, label-status, is_pet_label-pet_status_to_string, map-select_status,
}
use speed_test.Serde.{Json, Chrono}
use speed_test.Sql.Schema.{pets_by_status, pet_by_id}
use speed_test.Sql.Meaning.{sql, select, equals, is_pet_label}
use speed_test.Sql.Postgres.{Postgres}
use speed_test.Rows.{pet_of_row}
use speed_test.Views.{pet_view}
use speed_test.Actix.Response.{
  Body, HttpResponse, ok_json, finish, not_found, internal_error, query,
}
use speed_test.Actix.Response.Cases.{query-cases}
use speed_test.Actix.Pet.{add_pet, update_pet, delete_pet, get_pet_by_id, find_pets_by_status}
use speed_test.Actix.Pet.Writes.{add_pet-refines, update_pet-refines, delete_pet-refines}

module _ (json : Json) (c : Chrono) (pg : Postgres c.NaiveDateTime) where
  open pg use {State, tables, dialect}

  -- The answer for what the store holds.
  abbrev pub shown : Option Pet → HttpResponse c.DateTime
  shown none = not_found "Pet not found"
  shown (some pet) = ok_json (Body.pet pet)

  -- No table changes, and the answer is 500, or the pet that the store has under the id, or 404
  -- where it has none.
  pub get_pet_by_id-refines :
      (id : ℤ) (s : State)
      → let (r, s') = get_pet_by_id json c pg id s in
        (tables s' ≡ tables s)
        × (((m : String) × (r ≡ internal_error m)) ⊎ (r ≡ shown (pet_view json (tables s) id)))
  get_pet_by_id-refines id s =
      let q = pet_by_id id in
      let s₁ = (query pg {D = c.DateTime} "DB error fetching pet: " q s).1 in
      elim (query-cases pg {D = c.DateTime} "DB error fetching pet: " q s) [
        | inl (row, e, b, meant, answer) ↦
            let run : get_pet_by_id json c pg id s ≡ (shown (pet_view json (tables s) id), s₁) =
              unfold get_pet_by_id sql in ground arith in
            rw run (unfold sql in ground arith, inr refl)
        | inr (m, e, same_tables) ↦
            let run : get_pet_by_id json c pg id s ≡ (internal_error m, s₁) =
              unfold get_pet_by_id in ground arith in
            rw run (same_tables, inl (m, refl))
      ]

  -- Where add_pet answered with a pet that has an id, that pet is the one sent, under that id, and
  -- get_pet_by_id answers with the same pet, or with 500.
  pub get_pet_by_id-add_pet :
      (pet : Pet) (s : State) (saved : Pet) (id : ℤ)
      → (add_pet json c pg pet s).0 ≡ ok_json (Body.pet saved)
      → saved.id ≡ some id
      → let r = (get_pet_by_id json c pg id (add_pet json c pg pet s).1).0 in
        (saved ≡ record pet { id = some id })
        × (((m : String) × (r ≡ internal_error m)) ⊎ (r ≡ ok_json (Body.pet saved)))
  get_pet_by_id-add_pet pet s saved id added known =
      let s₁ = (add_pet json c pg pet s).1 in
      let read = get_pet_by_id-refines id s₁ in
      elim (add_pet-refines json c pg pet s) [
        | inl (bad, e, _) ↦ absurd (ground arith)
        | inr (inl (good, m, e, _)) ↦ absurd (ground arith)
        | inr (inr (good, id', assigned, e, stored)) ↦
            ground (arith, stored id, read, int_key.same_iff id' id)
      ]

  -- Where update_pet answered a pet with an id by a pet, that pet is the one sent, and
  -- get_pet_by_id answers with it, or with 500.
  pub get_pet_by_id-update_pet :
      (pet : Pet) (s : State) (saved : Pet) (id : ℤ)
      → (update_pet json c pg pet s).0 ≡ ok_json (Body.pet saved)
      → pet.id ≡ some id
      → let r = (get_pet_by_id json c pg id (update_pet json c pg pet s).1).0 in
        (saved ≡ pet) × (((m : String) × (r ≡ internal_error m)) ⊎ (r ≡ ok_json (Body.pet pet)))
  get_pet_by_id-update_pet pet s saved id updated known =
      let s₁ = (update_pet json c pg pet s).1 in
      let read = get_pet_by_id-refines id s₁ in
      elim (update_pet-refines json c pg pet s) [
        | inl (missing, e, _) ↦ absurd (ground arith)
        | inr (id', given, inl (m, e, _)) ↦ absurd (ground arith)
        | inr (id', given, inr (inl (gone, e, _))) ↦ absurd (ground arith)
        | inr (id', given, inr (inr (there, e, stored))) ↦
            ground (arith, stored id, read, int_key.same_iff id' id)
      ]

  -- After delete_pet answered with 200, get_pet_by_id answers with 500, or with 404 for the
  -- deleted id and with what was stored before for any other.
  pub get_pet_by_id-delete_pet :
      (id k : ℤ) (s : State)
      → (delete_pet json c pg id s).0 ≡ finish
      → let r = (get_pet_by_id json c pg k (delete_pet json c pg id s).1).0 in
        ((m : String) × (r ≡ internal_error m))
        ⊎ (r
            ≡ (if same id k then not_found "Pet not found" else shown (pet_view json (tables s) k)))
  get_pet_by_id-delete_pet id k s deleted =
      let read = get_pet_by_id-refines k (delete_pet json c pg id s).1 in
      elim (delete_pet-refines json c pg id s) [
        | inl (m, e, _) ↦ absurd (ground arith)
        | inr (e, gone) ↦ ground (arith, gone k, read)
      ]

  -- No table changes, and the answer is 500, or the text, which is "available" where it is
  -- missing, is the label of a status and the answer lists in some order the pets that have that
  -- status, each as often as it is stored.
  pub find_pets_by_status-refines :
      (status : Option String) (s : State)
      → let (r, s') = find_pets_by_status json c pg status s in
        (tables s' ≡ tables s)
        × (((m : String) × (r ≡ internal_error m))
            ⊎ ((st : PetStatus) × (unwrap_or status "available" ≡ pet_status_to_string st)
                × (pets : List Pet) × (r ≡ ok_json (Body.pets pets))
                × Perm (select (has_status st) (catalog json (tables s))) pets))
  find_pets_by_status-refines status s =
      let label = unwrap_or status "available" in
      let q = pets_by_status label in
      let s₁ = (query pg {D = c.DateTime} "DB error finding pets by status: " q s).1 in
      elim (query-cases pg {D = c.DateTime} "DB error finding pets by status: " q s) [
        | inl (rows, e, b, meant, answer) ↦
            let run : find_pets_by_status json c pg status s
                ≡ (ok_json (Body.pets (map (pet_of_row json) rows)), s₁) =
              unfold find_pets_by_status in ground arith in
            let known : is_pet_label label ≡ true = unfold sql in ground arith in
            let st = (label-status label known).0 in
            let is_label : label ≡ pet_status_to_string st = (label-status label known).1 in
            let found : b ≡ select (λ r. equals r.status label) (tables s).pets =
              unfold sql in ground arith in
            let models : map (pet_of_row json) b
                ≡ select (has_status st) (catalog json (tables s)) =
              rw (found, is_label) (map-select_status json st (tables s).pets) in
            rw run (
              unfold sql in ground arith,
              inr (
                st,
                is_label,
                map (pet_of_row json) rows,
                refl,
                rw (← models) (Perm.map (pet_of_row json) answer),
              ),
            )
        | inr (m, e, same_tables) ↦
            let run : find_pets_by_status json c pg status s ≡ (internal_error m, s₁) =
              unfold find_pets_by_status in ground arith in
            rw run (same_tables, inl (m, refl))
      ]

  -- A status that is no label is answered with 500.
  pub find_pets_by_status_unknown :
      (label : String) (s : State)
      → is_pet_label label ≡ false
      → (m : String) × ((find_pets_by_status json c pg (some label) s).0 ≡ internal_error m)
  find_pets_by_status_unknown label s unknown =
      let (_, answer) = find_pets_by_status-refines (some label) s in
      elim answer [
        | inl failed ↦ failed
        | inr (st, is_label, _, _, _) ↦
            absurd (ground (arith, is_pet_label-pet_status_to_string st))
      ]
