-- ===== src/Hyper/Agreement/Invariant/Pets.antt =====
-- The handlers of pets keep the rows of the pets written for pets.
use speed_test.Base.{
  ℕ, ◌++◌, String, ◌≡◌, refl, ap, arith, map_error, and_then, ok?, Exec, pure, guard_not, ◌==◌,
  ◌>>=◌, ◌>>◌, Option, none, some, List, ℤ, ok, err, Result, map_option,
}
use speed_test.Models.{Pet, PetStatus, pet_status_to_string, parse_pet_status}
use speed_test.Rows.{pet_values}
use speed_test.Serde.{Json, Chrono}
use speed_test.Sql.Schema.{insert_pet, update_pet}
use speed_test.Sql.Postgres.{Postgres}
use speed_test.Actix.Response.{
  Body, HttpResponse, bad_request, not_found, internal_error, ok_json, query,
}
use speed_test.Actix.Pet
use speed_test.Actix.Pet.{UpdatePetForm}
use speed_test.Hyper.Agreement.Written.{
  AreWritten, Keeps, lift-bind-Keeps, assign_id-Keeps, bind-Keeps, respond-Keeps, pure-Keeps,
  lift-Keeps, guard_not-Keeps, query-bind-Keeps,
}

module _ (json : Json) (c : Chrono) (pg : Postgres c.NaiveDateTime) where
  open pg use {State, tables}

  -- The text that the list of photos is bound as.
  abbrev urls : Pet → Result (HttpResponse c.DateTime) String
  urls pet =
      map_error (λ e. internal_error ("JSON error: " ++ e)) (json.urls.to_string pet.photo_urls)

  bound :
      (pet : Pet) (id : ℤ) (text : String)
      → urls pet ≡ ok text
      → pet_values json id pet text ≡ pet_values json id pet (json.urls.text pet.photo_urls)
  bound pet id text e =
      let same_text : text ≡ json.urls.text pet.photo_urls =
        ground (arith, json.urls.writes pet.photo_urls) in
      ap (pet_values json id pet) same_text

  -- The status of a form is a label, or none.
  status_of :
      (o : Option String)
      → (st : Option PetStatus) × (and_then o
            (λ s. map_option pet_status_to_string (ok? (parse_pet_status s)))
          ≡ map_option pet_status_to_string st)
  status_of none = (none, refl)
  status_of (some s) = (ok? (parse_pet_status s), refl)

  -- The ends of add_pet and update_pet.
  abbrev inserted :
      Pet → ℤ → String → Exec State (HttpResponse c.DateTime) (HttpResponse c.DateTime)
  inserted pet id text = do
    query pg "DB error inserting pet: " (insert_pet (pet_values json id pet text))
    pure (ok_json (Body.pet (record pet { id = some id })))

  inserted-Keeps :
      (pet : Pet) (id : ℤ) (text : String)
      → pet_values json id pet text ≡ pet_values json id pet (json.urls.text pet.photo_urls)
      → Keeps json c pg (inserted pet id text)
  inserted-Keeps pet id text e =
      query-bind-Keeps json c pg {D = c.DateTime} "DB error inserting pet: "
        (insert_pet (pet_values json id pet text))
        (λ n. pure (ok_json (Body.pet (record pet { id = some id })))) (id, pet, e)
        λ n. pure-Keeps json c pg _ _

  abbrev shown : Pet → ℤ → ℕ → Exec State (HttpResponse c.DateTime) (HttpResponse c.DateTime)
  shown pet id n = do
    guard_not (n == 0) (not_found "Pet not found")
    pure (ok_json (Body.pet (record pet { id = some id })))

  abbrev updated : Pet → ℤ → String → Exec State (HttpResponse c.DateTime) (HttpResponse c.DateTime)
  updated pet id text = do
    n ← query pg "DB error updating pet: " (update_pet (pet_values json id pet text))
    shown pet id n

  updated-Keeps :
      (pet : Pet) (id : ℤ) (text : String)
      → pet_values json id pet text ≡ pet_values json id pet (json.urls.text pet.photo_urls)
      → Keeps json c pg (updated pet id text)
  updated-Keeps pet id text e =
      query-bind-Keeps json c pg {D = c.DateTime} "DB error updating pet: "
        (update_pet (pet_values json id pet text)) (shown pet id) (id, pet, e)
        λ n. bind-Keeps json c pg _ _ (guard_not-Keeps json c pg _ _) λ y. pure-Keeps json c pg _ _

  pub add_pet-AreWritten :
      (pet : Pet) (s : State)
      → AreWritten json (tables s).pets
      → AreWritten json (tables (Pet.add_pet json c pg pet s).1).pets
  unfolding Pet.add_pet
  add_pet-AreWritten pet s h =
      respond-Keeps json c pg {R = HttpResponse c.DateTime} _ s
        (bind-Keeps json c pg _ _ (guard_not-Keeps json c pg _ _) λ y.
          bind-Keeps json c pg _ _ (assign_id-Keeps json c pg c.DateTime pet.id "pet_id_seq") λ id.
            lift-bind-Keeps json c pg (urls pet) (inserted pet id)
              λ text e. inserted-Keeps pet id text (bound pet id text e))
        h

  pub find_pets_by_status-AreWritten :
      (status : Option String) (s : State)
      → AreWritten json (tables s).pets
      → AreWritten json (tables (Pet.find_pets_by_status json c pg status s).1).pets
  unfolding Pet.find_pets_by_status
  find_pets_by_status-AreWritten status s h =
      respond-Keeps json c pg {R = HttpResponse c.DateTime} _ s
        (query-bind-Keeps json c pg {D = c.DateTime} _ _ _ tt λ x. pure-Keeps json c pg _ _) h

  pub find_pets_by_tags-AreWritten :
      (tags : List String) (s : State)
      → AreWritten json (tables s).pets
      → AreWritten json (tables (Pet.find_pets_by_tags json c pg tags s).1).pets
  unfolding Pet.find_pets_by_tags
  find_pets_by_tags-AreWritten tags s h =
      respond-Keeps json c pg {R = HttpResponse c.DateTime} _ s
        (bind-Keeps json c pg _ _ (guard_not-Keeps json c pg _ _)
          λ y. query-bind-Keeps json c pg {D = c.DateTime} _ _ _ tt λ x. pure-Keeps json c pg _ _)
        h

  pub update_pet-AreWritten :
      (pet : Pet) (s : State)
      → AreWritten json (tables s).pets
      → AreWritten json (tables (Pet.update_pet json c pg pet s).1).pets
  unfolding Pet.update_pet
  update_pet-AreWritten pet s h =
      let id : Result (HttpResponse c.DateTime) ℤ = elim pet.id [
        | some id ↦ ok id
        | none ↦ err (bad_request "Pet ID is required for update")
      ] in
      respond-Keeps json c pg {R = HttpResponse c.DateTime} _ s
        (bind-Keeps json c pg _ _ (lift-Keeps json c pg id) λ z.
          lift-bind-Keeps json c pg (urls pet) (updated pet z)
            λ text e. updated-Keeps pet z text (bound pet z text e))
        h

  pub delete_pet-AreWritten :
      (id : ℤ) (s : State)
      → AreWritten json (tables s).pets
      → AreWritten json (tables (Pet.delete_pet json c pg id s).1).pets
  unfolding Pet.delete_pet
  delete_pet-AreWritten id s h =
      respond-Keeps json c pg {R = HttpResponse c.DateTime} _ s
        (query-bind-Keeps json c pg {D = c.DateTime} _ _ _ tt λ x. pure-Keeps json c pg _ _) h

  pub get_pet_by_id-AreWritten :
      (id : ℤ) (s : State)
      → AreWritten json (tables s).pets
      → AreWritten json (tables (Pet.get_pet_by_id json c pg id s).1).pets
  unfolding Pet.get_pet_by_id
  get_pet_by_id-AreWritten id s h =
      respond-Keeps json c pg {R = HttpResponse c.DateTime} _ s
        (query-bind-Keeps json c pg {D = c.DateTime} _ _ _ tt λ x. pure-Keeps json c pg _ _) h

  pub update_pet_with_form-AreWritten :
      (id : ℤ) (form : UpdatePetForm) (s : State)
      → AreWritten json (tables s).pets
      → AreWritten json (tables (Pet.update_pet_with_form json c pg id form s).1).pets
  unfolding Pet.update_pet_with_form
  update_pet_with_form-AreWritten id form s h =
      respond-Keeps json c pg {R = HttpResponse c.DateTime} _ s
        (query-bind-Keeps json c pg {D = c.DateTime} _ _ _ (status_of form.status) λ x.
          bind-Keeps json c pg _ _ (guard_not-Keeps json c pg _ _) λ y. pure-Keeps json c pg _ _)
        h

  pub upload_file-AreWritten :
      (id : ℤ) (metadata : Option String) (content : List ℕ) (s : State)
      → AreWritten json (tables s).pets
      → AreWritten json (tables (Pet.upload_file json c pg id metadata content s).1).pets
  unfolding Pet.upload_file
  upload_file-AreWritten id metadata content s h =
      respond-Keeps json c pg {R = HttpResponse c.DateTime} _ s
        (query-bind-Keeps json c pg {D = c.DateTime} _ _ _ tt λ x.
          bind-Keeps json c pg _ _ (guard_not-Keeps json c pg _ _)
            λ y. query-bind-Keeps json c pg {D = c.DateTime} _ _ _ tt λ x. pure-Keeps json c pg _ _)
        h
