-- ===== src/Actix/Pet/Tags.antt =====
-- `find_pets_by_tags`: the pets that have a tag of one of the names.
use mathlib.Core.List.{Perm}
use mathlib.Core.List.Perm
use speed_test.Base.{
  String, Option, none, some, Bool, false, List, [], ◌∷◌, map, ◌≡◌, refl, ◌⊎◌, inl, inr, arith,
  Option-cases,
}
use speed_test.Models.{Pet, Tag}
use speed_test.Serde.{Json, Chrono}
use speed_test.Sql.Schema.{PetRow, pets_by_tags}
use speed_test.Sql.Meaning.{sql, Dialect, select, tagged, any_of, exists_name}
use speed_test.Sql.Postgres.{Postgres}
use speed_test.Rows.{pet_of_row}
use speed_test.Views.Catalog.{catalog}
use speed_test.Actix.Response.{Body, ok_json, internal_error, query}
use speed_test.Actix.Response.Cases.{query-cases}
use speed_test.Actix.Pet.{find_pets_by_tags}

abbrev pub has_tag : List String → Pet → Bool
has_tag names pet = elim pet.tags [
  | none ↦ false
  | some tags ↦ exists_name (map (λ (t : Tag). t.name) tags) names
]

-- The column `tags` of each row is NULL, or the text of a list of tags as the servers write it, in
-- which PostgreSQL reads the names of these tags.
abbrev pub TagsAreWritten : {N : Type 0} → Json → Dialect N → List PetRow → Type 0
TagsAreWritten json d [] = Unit {0}
TagsAreWritten json d (r ∷ rows) =
    ((r.tags ≡ none)
      ⊎ ((tags : List Tag) × (r.tags ≡ some (json.tags.text tags))
          × (d.tag_names (json.tags.text tags) ≡ map (λ (t : Tag). t.name) tags)))
    × TagsAreWritten json d rows

exists_name-nil : (names : List (Option String)) → exists_name names [] ≡ false
unfolding exists_name any_of
exists_name-nil [] = refl
exists_name-nil (v ∷ names) = exists_name-nil names

-- No pet has a tag of no name.
select-has_tag-nil : (pets : List Pet) → select (has_tag []) pets ≡ []
unfolding select
select-has_tag-nil [] = refl
select-has_tag-nil (pet ∷ pets) = elim (Option-cases pet.tags) [
  | inl e ↦ ground (arith, select-has_tag-nil pets)
  | inr (tags, e) ↦
      ground (arith, exists_name-nil (map (λ (t : Tag). t.name) tags), select-has_tag-nil pets)
]

module _ (json : Json) (c : Chrono) (pg : Postgres c.NaiveDateTime) where
  open pg use {tables, dialect}

  map-select-tagged :
      (names : List String) (rows : List PetRow)
      → TagsAreWritten json dialect rows
      → map (pet_of_row json) (select (tagged dialect names) rows)
        ≡ select (has_tag names) (map (pet_of_row json) rows)
  unfolding select pet_of_row
  map-select-tagged names [] h = refl
  map-select-tagged names (r ∷ rows) h = elim h.0 [
    | inl e ↦ ground (arith, map-select-tagged names rows h.1)
    | inr (tags, e, f) ↦ ground (arith, f, json.tags.reads tags, map-select-tagged names rows h.1)
  ]

  -- Where the column tags of each stored pet is NULL, or the JSON text of a list of tags in which
  -- PostgreSQL reads the names of these tags: no table changes, and the answer is 500, or lists in
  -- some order the pets that have a tag of one of the names, each as often as it is stored.
  pub find_pets_by_tags-refines :
      (names : List String) (s : pg.State)
      → TagsAreWritten json dialect (tables s).pets
      → let (r, s') = find_pets_by_tags json c pg names s in
        (tables s' ≡ tables s)
        × (((m : String) × (r ≡ internal_error m))
            ⊎ ((pets : List Pet) × (r ≡ ok_json (Body.pets pets))
                × Perm (select (has_tag names) (catalog json (tables s))) pets))
  find_pets_by_tags-refines [] s h =
      let run : find_pets_by_tags json c pg [] s ≡ (ok_json (Body.pets []), s) =
        unfold find_pets_by_tags in refl in
      rw run
        (refl, inr ([], refl, rw (select-has_tag-nil (catalog json (tables s))) (Perm.refl [])))
  find_pets_by_tags-refines (name ∷ more) s h =
      let q = pets_by_tags (name ∷ more) in
      let s₁ = (query pg {D = c.DateTime} "DB error finding pets by tags: " q s).1 in
      elim (query-cases pg {D = c.DateTime} "DB error finding pets by tags: " q s) [
        | inl (rows, e, b, meant, answer) ↦
            let run : find_pets_by_tags json c pg (name ∷ more) s
                ≡ (ok_json (Body.pets (map (pet_of_row json) rows)), s₁) =
              unfold find_pets_by_tags in ground arith in
            let found : b ≡ select (tagged dialect (name ∷ more)) (tables s).pets =
              unfold sql in ground arith in
            let models : map (pet_of_row json) b
                ≡ select (has_tag (name ∷ more)) (catalog json (tables s)) =
              rw found (map-select-tagged (name ∷ more) (tables s).pets h) in
            rw run (
              unfold sql in ground arith,
              inr (
                map (pet_of_row json) rows,
                refl,
                rw (← models) (Perm.map (pet_of_row json) answer),
              ),
            )
        | inr (m, e, same_tables) ↦
            let run : find_pets_by_tags json c pg (name ∷ more) s ≡ (internal_error m, s₁) =
              unfold find_pets_by_tags in ground arith in
            rw run (same_tables, inl (m, refl))
      ]
