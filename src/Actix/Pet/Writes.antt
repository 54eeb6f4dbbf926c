-- ===== src/Actix/Pet/Writes.antt =====
-- The pet handlers that write, on the store as clients see it: each does what the operation says, or
-- answers with an error and changes no pet.
use speed_test.Base.{
  String, Option, none, some, true, false, Bool, ◌||◌, ℤ, ◌≡◌, ◌≢◌, ◌∙◌, refl, ◌⊎◌, inl, inr, arith,
  same, int_key, string_key, is_empty, Bool-cases, map_option, Option-cases, and_then, ok?, ◌==◌,
}
use speed_test.Models.{Pet, PetStatus, pet_status_to_string, parse_pet_status}
use speed_test.Serde.{Json, Chrono}
use speed_test.Sql.Schema.{PetRow, insert_pet, update_pet_form}
use speed_test.Sql.Schema
use speed_test.Sql.Postgres.{Postgres}
use speed_test.Views.{pet_view}
use speed_test.Views.Pets.{
  PetStored, PetGone, PetEdited, bound, insert_pet-PetStored, delete_pet-PetGone, update_pet-none,
  update_pet-PetStored, update_pet_form-none, update_pet_form-PetEdited,
}
use speed_test.Actix.Response.{
  Body, ok_json, finish, not_found, bad_request, internal_error, assign_id, query,
}
use speed_test.Actix.Response.Cases.{Assigned, assign_id-cases, query-cases}
use speed_test.Actix.Pet.{UpdatePetForm, add_pet, update_pet, delete_pet, update_pet_with_form}

-- The name or the list of photos is empty.
abbrev pub is_incomplete : Pet → Bool
is_incomplete pet = same pet.name "" || is_empty pet.photo_urls

module _ (json : Json) (c : Chrono) (pg : Postgres c.NaiveDateTime) where
  open pg use {State, tables, dialect}

  -- A pet without a name or without photos is answered with 400 and nothing happens. Any other pet
  -- is answered with 500, and no table changes, or with 200 and the pet under its id, which is
  -- then the stored pet of that id while every other pet is as before. The id is the one that the
  -- client chose, or one that the sequence had not handed out.
  pub add_pet-refines :
      (pet : Pet) (s : State)
      → let (r, s') = add_pet json c pg pet s in
        ((is_incomplete pet ≡ true)
          × (r ≡ bad_request "Name and photoUrls must not be empty")
          × (s' ≡ s))
        ⊎ ((is_incomplete pet ≡ false)
            × (m : String) × (r ≡ internal_error m)
            × (tables s' ≡ tables s))
        ⊎ ((is_incomplete pet ≡ false)
            × (id : ℤ) × Assigned pg s "pet_id_seq" pet.id id
            × (r ≡ ok_json (Body.pet (record pet { id = some id })))
            × PetStored json dialect id (record pet { id = some id }) (tables s) (tables s'))
  add_pet-refines pet s = elim (Bool-cases (is_incomplete pet)) [
    | inl bad ↦
        let run : add_pet json c pg pet s
            ≡ (bad_request "Name and photoUrls must not be empty", s) =
          unfold add_pet in ground arith in
        rw run (inl (bad, refl, refl))
    | inr good ↦ elim (assign_id-cases pg {D = c.DateTime} pet.id "pet_id_seq" s) [
      | inl (id, e, assigned, kept) ↦
          let s₁ = (assign_id pg {D = c.DateTime} pet.id "pet_id_seq" s).1 in
          let q = insert_pet (bound json dialect id pet) in
          let s₂ = (query pg {D = c.DateTime} "DB error inserting pet: " q s₁).1 in
          let w = json.urls.writes pet.photo_urls in
          elim (query-cases pg {D = c.DateTime} "DB error inserting pet: " q s₁) [
            | inl (a, f, b, meant, answer) ↦
                let run : add_pet json c pg pet s
                    ≡ (ok_json (Body.pet (record pet { id = some id })), s₂) =
                  unfold add_pet in ground (arith, w) in
                rw run (
                  inr (
                    inr (
                      good,
                      id,
                      assigned,
                      refl,
                      λ k. rw (← kept) (
                          insert_pet-PetStored json dialect id pet (tables s₁) (tables s₂) b meant
                            k),
                    )))
            | inr (m, f, same_tables) ↦
                let run : add_pet json c pg pet s ≡ (internal_error m, s₂) =
                  unfold add_pet in ground (arith, w) in
                rw run (inr (inl (good, m, refl, same_tables ∙ kept)))
          ]
      | inr (m, e, kept) ↦
          let run : add_pet json c pg pet s
              ≡ (internal_error m, (assign_id pg {D = c.DateTime} pet.id "pet_id_seq" s).1) =
            unfold add_pet in ground arith in
          rw run (inr (inl (good, m, refl, kept)))
    ]
  ]

  -- A pet without an id is answered with 400 and nothing happens. Otherwise the answer is 500 and
  -- no table changes, or 404 where no pet has the id and no table changes, or 200 with the pet
  -- where one has, which is then the stored pet of that id while every other pet is as before.
  pub update_pet-refines :
      (pet : Pet) (s : State)
      → let (r, s') = update_pet json c pg pet s in
        ((pet.id ≡ none) × (r ≡ bad_request "Pet ID is required for update") × (s' ≡ s))
        ⊎ ((id : ℤ) × (pet.id ≡ some id)
            × (((m : String) × (r ≡ internal_error m) × (tables s' ≡ tables s))
                ⊎ ((pet_view json (tables s) id ≡ none)
                    × (r ≡ not_found "Pet not found")
                    × (tables s' ≡ tables s))
                ⊎ ((pet_view json (tables s) id ≢ none)
                    × (r ≡ ok_json (Body.pet pet))
                    × PetStored json dialect id pet (tables s) (tables s'))))
  update_pet-refines pet s = elim (Option-cases pet.id) [
    | inl missing ↦
        let run : update_pet json c pg pet s ≡ (bad_request "Pet ID is required for update", s) =
          unfold update_pet in ground arith in
        rw run (inl (missing, refl, refl))
    | inr (id, given) ↦
        let q = Schema.update_pet (bound json dialect id pet) in
        let s₁ = (query pg {D = c.DateTime} "DB error updating pet: " q s).1 in
        let w = json.urls.writes pet.photo_urls in
        elim (query-cases pg {D = c.DateTime} "DB error updating pet: " q s) [
          | inl (n, e, b, meant, answer) ↦ elim (Bool-cases (n == 0)) [
            | inl zero_rows ↦
                let run : update_pet json c pg pet s ≡ (not_found "Pet not found", s₁) =
                  unfold update_pet in ground (arith, w) in
                let facts =
                  update_pet-none json dialect id pet (tables s) (tables s₁) (ground arith) in
                rw run (inr (id, given, inr (inl (facts.0, refl, facts.1))))
            | inr some_rows ↦
                let run : update_pet json c pg pet s ≡ (ok_json (Body.pet pet), s₁) =
                  unfold update_pet in ground (arith, w) in
                let facts =
                  update_pet-PetStored json dialect id pet (tables s) (tables s₁) b meant
                    (ground arith) in
                let same_pet : record pet { id = some id } ≡ pet = ground arith in
                rw run (inr (id, given, inr (inr (facts.0, refl, rw same_pet at facts.1))))
          ]
          | inr (m, e, same_tables) ↦
              let run : update_pet json c pg pet s ≡ (internal_error m, s₁) =
                unfold update_pet in ground (arith, w) in
              rw run (inr (id, given, inl (m, refl, same_tables)))
        ]
  ]

  -- The answer is 500 and no table changes, or 200, whether or not there was such a pet, and then
  -- no pet has the id while every other pet is as before.
  pub delete_pet-refines :
      (id : ℤ) (s : State)
      → let (r, s') = delete_pet json c pg id s in
        ((m : String) × (r ≡ internal_error m) × (tables s' ≡ tables s))
        ⊎ ((r ≡ finish) × PetGone json dialect id (tables s) (tables s'))
  delete_pet-refines id s =
      let q = Schema.delete_pet id in
      let s₁ = (query pg {D = c.DateTime} "DB error deleting pet: " q s).1 in
      elim (query-cases pg {D = c.DateTime} "DB error deleting pet: " q s) [
        | inl (n, e, b, meant, answer) ↦
            let run : delete_pet json c pg id s ≡ (finish, s₁) =
              unfold delete_pet in ground arith in
            rw run (inr (refl, delete_pet-PetGone json dialect id (tables s) (tables s₁) b meant))
        | inr (m, e, same_tables) ↦
            let run : delete_pet json c pg id s ≡ (internal_error m, s₁) =
              unfold delete_pet in ground arith in
            rw run (inl (m, refl, same_tables))
      ]

  -- The status that a form asks for: a text that is no label asks for nothing.
  abbrev pub form_status : UpdatePetForm → Option PetStatus
  form_status form = and_then form.status (λ s. ok? (parse_pet_status s))

  form_label :
      (o : Option String)
      → and_then o (λ s. map_option pet_status_to_string (ok? (parse_pet_status s)))
        ≡ map_option pet_status_to_string (and_then o (λ s. ok? (parse_pet_status s)))
  form_label none = refl
  form_label (some s) = refl

  -- The answer is 500 and no table changes, or 400 where no pet has the id and no table changes,
  -- or 200 where one has, whose name and status are then those of the form where it gives them, a
  -- status that is no label giving none, while every other pet is as before.
  pub update_pet_with_form-refines :
      (id : ℤ) (form : UpdatePetForm) (s : State)
      → let (r, s') = update_pet_with_form json c pg id form s in
        ((m : String) × (r ≡ internal_error m) × (tables s' ≡ tables s))
        ⊎ ((pet_view json (tables s) id ≡ none)
            × (r ≡ bad_request "Pet not found")
            × (tables s' ≡ tables s))
        ⊎ ((pet_view json (tables s) id ≢ none)
            × (r ≡ finish)
            × PetEdited json dialect id form.name (form_status form) (tables s) (tables s'))
  update_pet_with_form-refines id form s =
      let q = update_pet_form id form.name (map_option pet_status_to_string (form_status form)) in
      let s₁ = (query pg {D = c.DateTime} "DB error updating pet with form: " q s).1 in
      let label = form_label form.status in
      elim (query-cases pg {D = c.DateTime} "DB error updating pet with form: " q s) [
        | inl (n, e, b, meant, answer) ↦ elim (Bool-cases (n == 0)) [
          | inl zero_rows ↦
              let run : update_pet_with_form json c pg id form s
                  ≡ (bad_request "Pet not found", s₁) =
                unfold update_pet_with_form in rw label (ground arith) in
              let facts =
                update_pet_form-none json dialect id form.name
                  (map_option pet_status_to_string (form_status form)) (tables s) (tables s₁)
                  (ground arith) in
              rw run (inr (inl (facts.0, refl, facts.1)))
          | inr some_rows ↦
              let run : update_pet_with_form json c pg id form s ≡ (finish, s₁) =
                unfold update_pet_with_form in rw label (ground arith) in
              let facts =
                update_pet_form-PetEdited json dialect id form.name (form_status form) (tables s)
                  (tables s₁) b meant (ground arith) in
              rw run (inr (inr (facts.0, refl, facts.1)))
        ]
        | inr (m, e, same_tables) ↦
            let run : update_pet_with_form json c pg id form s ≡ (internal_error m, s₁) =
              unfold update_pet_with_form in rw label (ground arith) in
            rw run (inl (m, refl, same_tables))
      ]
