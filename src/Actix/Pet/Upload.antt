-- ===== src/Actix/Pet/Upload.antt =====
-- `upload_file`: what is stored, and for which pets.
use speed_test.Base.{
  ℕ, String, Option, none, some, List, ◌∷◌, ℤ, pos, ◌≡◌, ◌≢◌, ◌∙◌, refl, ◌⊎◌, inl, inr, arith,
  Bool-cases, length,
}
use speed_test.Models.{ApiResponse}
use speed_test.Serde.{Json, Chrono}
use speed_test.Sql.Schema.{PhotoRow, pet_exists, insert_photo}
use speed_test.Sql.Meaning.{sql}
use speed_test.Sql.Postgres.{Postgres}
use speed_test.Views.{pet_view}
use speed_test.Actix.Response.{Body, ok_json, not_found, internal_error, query}
use speed_test.Actix.Response.Cases.{query-cases}
use speed_test.Actix.Pet.{uploaded, upload_file}

-- The stored photo and the response's message.
abbrev pub photo : ℤ → Option String → List ℕ → PhotoRow
photo id metadata content = record {
  pet_id = id;
  content_type = "application/octet-stream";
  metadata = metadata;
  content = content;
}

module _ (json : Json) (c : Chrono) (pg : Postgres c.NaiveDateTime) where
  open pg use {State, tables, dialect}

  abbrev pub receipt : ℤ → Option String → List ℕ → ApiResponse
  receipt id metadata content = record {
    code = some (pos 200);
    type = some "application/octet-stream";
    message = some (uploaded json c pg id (length content) metadata);
  }

  -- The answer is 500 and no table changes, or 404 where no pet has the id and no table changes,
  -- or 200 with a receipt where one has, and then the photo with the uploaded bytes is added and
  -- nothing else changes.
  pub upload_file-refines :
      (id : ℤ) (metadata : Option String) (content : List ℕ) (s : State)
      → let (r, s') = upload_file json c pg id metadata content s in
        ((m : String) × (r ≡ internal_error m) × (tables s' ≡ tables s))
        ⊎ ((pet_view json (tables s) id ≡ none)
            × (r ≡ not_found "Pet not found")
            × (tables s' ≡ tables s))
        ⊎ ((pet_view json (tables s) id ≢ none)
            × (r ≡ ok_json (Body.api_response (receipt id metadata content)))
            × (tables s'
                ≡ record (tables s) { photos = photo id metadata content ∷ (tables s).photos }))
  upload_file-refines id metadata content s =
      let s₁ = (query pg {D = c.DateTime} "DB error checking pet: " (pet_exists id) s).1 in
      let q = insert_photo (photo id metadata content) in
      let s₂ = (query pg {D = c.DateTime} "DB error saving photo: " q s₁).1 in
      elim (query-cases pg {D = c.DateTime} "DB error checking pet: " (pet_exists id) s) [
        | inl (exists, e, b, meant, answer) ↦
            let kept : tables s₁ ≡ tables s = unfold sql in ground arith in
            elim (Bool-cases exists) [
              | inl there ↦ elim (query-cases pg {D = c.DateTime} "DB error saving photo: " q s₁) [
                | inl (n, f, b', meant', answer') ↦
                    let run : upload_file json c pg id metadata content s
                        ≡ (ok_json (Body.api_response (receipt id metadata content)), s₂) =
                      unfold upload_file in ground arith in
                    rw run
                      (inr (inr (unfold sql in ground arith, refl, unfold sql in ground arith)))
                | inr (m, f, same_tables) ↦
                    let run : upload_file json c pg id metadata content s ≡ (internal_error m, s₂) =
                      unfold upload_file in ground arith in
                    rw run (inl (m, refl, same_tables ∙ kept))
              ]
              | inr missing ↦
                  let run : upload_file json c pg id metadata content s
                      ≡ (not_found "Pet not found", s₁) =
                    unfold upload_file in ground arith in
                  rw run (inr (inl (unfold sql in ground arith, refl, kept)))
            ]
        | inr (m, e, same_tables) ↦
            let run : upload_file json c pg id metadata content s ≡ (internal_error m, s₁) =
              unfold upload_file in ground arith in
            rw run (inl (m, refl, same_tables))
      ]
