-- ===== src/Views/Pets.antt =====
-- What the statements on table `pet` do to the store as clients see it.
use speed_test.Base.{
  ℕ, String, Option, none, some, ℤ, ◌≡◌, ◌≢◌, refl, arith, same, int_key, if◌then◌else◌, map_option,
  unwrap_or, int_eq_iff, Option-cases, inl, inr,
}
use speed_test.Models.{Pet, PetStatus, pet_status_to_string}
use speed_test.Models.Labels.{parse_pet_status_iff}
use speed_test.Serde.{Json}
use speed_test.Sql.Table.{
  find, find-key, find-upsert, find-update, find-delete, count-zero, count-none, update-none,
}
use speed_test.Sql.Schema.{PetRow, Tables, insert_pet, update_pet, delete_pet, update_pet_form}
use speed_test.Sql.Meaning.{Dialect, sql, set_form}
use speed_test.Rows.{pet_values, pet_of_row}
use speed_test.Rows.RoundTrip.{pet_of_row-pet_values, id-pet_values}
use speed_test.Views.{pet_view}

module _ {N : Type 0} (json : Json) (d : Dialect N) where
  -- The store holds `pet` under `id`, and is otherwise as it was.
  abbrev pub PetStored : ℤ → Pet → Tables N → Tables N → Type 0
  PetStored id pet t t' =
      (k : ℤ) → pet_view json t' k ≡ (if same id k then some pet else pet_view json t k)

  -- The store holds no pet under `id`, and is otherwise as it was.
  abbrev pub PetGone : ℤ → Tables N → Tables N → Type 0
  PetGone id t t' = (k : ℤ) → pet_view json t' k ≡ (if same id k then none else pet_view json t k)

  -- The values that the handlers bind for a pet.
  abbrev pub bound : ℤ → Pet → PetRow
  bound id pet = pet_values json id pet (json.urls.text pet.photo_urls)

  pub insert_pet-PetStored :
      (id : ℤ) (pet : Pet) (t t' : Tables N) (n : ℕ)
      → sql d (insert_pet (bound id pet)) t ≡ some (n, t')
      → PetStored id (record pet { id = some id }) t t'
  unfolding sql
  insert_pet-PetStored id pet t t' n h k = ground (
    arith,
    pet_of_row-pet_values json id pet,
    find-upsert PetRow.id k (bound id pet) t.pets,
    id-pet_values json id pet (json.urls.text pet.photo_urls),
  )

  pub delete_pet-PetGone :
      (id : ℤ) (t t' : Tables N) (n : ℕ) → sql d (delete_pet id) t ≡ some (n, t') → PetGone id t t'
  unfolding sql
  delete_pet-PetGone id t t' n h k = ground (arith, find-delete PetRow.id id k t.pets)

  -- An UPDATE that hits no row says that there was none.
  pub update_pet-none :
      (id : ℤ) (pet : Pet) (t t' : Tables N)
      → sql d (update_pet (bound id pet)) t ≡ some (0, t')
      → (pet_view json t id ≡ none) × (t' ≡ t)
  unfolding sql
  update_pet-none id pet t t' h =
      let f : PetRow → PetRow = λ old. record (bound id pet) { id = old.id } in
      let key : (bound id pet).id ≡ id =
        id-pet_values json id pet (json.urls.text pet.photo_urls) in
      (
        ground (arith, key, count-zero PetRow.id id t.pets),
        ground (arith, key, update-none PetRow.id id f t.pets),
      )

  -- Otherwise the new pet stands there.
  pub update_pet-PetStored :
      (id : ℤ) (pet : Pet) (t t' : Tables N) (n : ℕ)
      → sql d (update_pet (bound id pet)) t ≡ some (n, t')
      → n ≢ 0
      → (pet_view json t id ≢ none) × PetStored id (record pet { id = some id }) t t'
  unfolding sql
  update_pet-PetStored id pet t t' n h some_row =
      let f : PetRow → PetRow = λ old. record (bound id pet) { id = old.id } in
      let key : (bound id pet).id ≡ id =
        id-pet_values json id pet (json.urls.text pet.photo_urls) in
      elim (Option-cases (find PetRow.id id t.pets)) [
        | inl missing ↦ absurd (ground (arith, key, count-none PetRow.id id t.pets missing))
        | inr (r, found) ↦
            let new : f r ≡ bound id pet =
              ground (arith, key, find-key PetRow.id id r t.pets found) in
            (
              ground arith,
              λ k. ground (
                arith,
                key,
                new,
                int_eq_iff id k,
                find-update PetRow.id id k f t.pets (λ r. refl),
                pet_of_row-pet_values json id pet,
              ),
            )
      ]

  -- A form sets the name and the status that it gives.
  abbrev pub edited : Option String → Option PetStatus → Pet → Pet
  edited name status pet = record pet {
    name = unwrap_or name pet.name;
    status = elim status [ none ↦ pet.status | some st ↦ some st ];
  }

  edited-pet_of_row :
      (name : Option String) (status : Option PetStatus) (r : PetRow)
      → pet_of_row json (set_form name (map_option pet_status_to_string status) r)
        ≡ edited name status (pet_of_row json r)
  unfolding pet_of_row
  edited-pet_of_row name none r = refl
  edited-pet_of_row name (some st) r =
      rw ((parse_pet_status_iff (pet_status_to_string st) st).1 refl)

  -- The pet under `id` is edited, if there is one, and the rest of the store is as it was.
  abbrev pub PetEdited : ℤ → Option String → Option PetStatus → Tables N → Tables N → Type 0
  PetEdited id name status t t' =
      (k : ℤ)
      → pet_view json t' k ≡ (
          if same id k
          then map_option (edited name status) (pet_view json t k)
          else pet_view json t k)

  pub update_pet_form-none :
      (id : ℤ) (name status : Option String) (t t' : Tables N)
      → sql d (update_pet_form id name status) t ≡ some (0, t')
      → (pet_view json t id ≡ none) × (t' ≡ t)
  unfolding sql
  update_pet_form-none id name status t t' h = (
    ground (arith, count-zero PetRow.id id t.pets),
    ground (arith, update-none PetRow.id id (set_form name status) t.pets),
  )

  pub update_pet_form-PetEdited :
      (id : ℤ) (name : Option String) (status : Option PetStatus) (t t' : Tables N) (n : ℕ)
      → sql d (update_pet_form id name (map_option pet_status_to_string status)) t ≡ some (n, t')
      → n ≢ 0
      → (pet_view json t id ≢ none) × PetEdited id name status t t'
  unfolding sql
  update_pet_form-PetEdited id name status t t' n h some_row =
      let f : PetRow → PetRow = set_form name (map_option pet_status_to_string status) in
      (
        ground (arith, count-none PetRow.id id t.pets),
        λ k. elim (Option-cases (find PetRow.id k t.pets)) [
          | inl missing ↦ ground (arith, find-update PetRow.id id k f t.pets (λ r. refl))
          | inr (r, found) ↦ ground (
            arith,
            find-update PetRow.id id k f t.pets (λ r. refl),
            edited-pet_of_row name status r,
          )
        ],
      )
