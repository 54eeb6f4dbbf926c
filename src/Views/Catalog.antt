-- ===== src/Views/Catalog.antt =====
-- All pets of the store, and those of one status: a search by the label in the column finds exactly
-- the pets whose status, as clients see it, is that one.
use speed_test.Base.{
  String, Option, none, some, Bool, List, [], ◌∷◌, map, ◌≡◌, refl, ap, arith, map_option, and_then,
  ok?, true, sym, same, string_key, Result-cases, Bool-cases, inl, inr,
}
use speed_test.Models.{Pet, PetStatus, pet_status_to_string, parse_pet_status}
use speed_test.Models.Labels.{parse_pet_status_iff}
use speed_test.Serde.{Json}
use speed_test.Sql.Schema.{PetRow, Tables}
use speed_test.Sql.Meaning.{select, equals, is_pet_label}
use speed_test.Rows.{pet_of_row}
use text.Mathlib.TextEquality.{eq_iff}

abbrev pub catalog : {N : Type 0} → Json → Tables N → List Pet
catalog json t = map (pet_of_row json) t.pets

abbrev pub has_status : PetStatus → Pet → Bool
has_status st pet = equals (map_option pet_status_to_string pet.status) (pet_status_to_string st)

-- Every label is the label of a status.
pub label-status :
    (s : String) → is_pet_label s ≡ true → (st : PetStatus) × (s ≡ pet_status_to_string st)
unfolding pet_status_to_string
label-status s h = elim (Bool-cases (same s "available")) [
  | inl e ↦ (PetStatus.available, (eq_iff s "available").0 e)
  | inr ne ↦ elim (Bool-cases (same s "pending")) [
    | inl e ↦ (PetStatus.pending, (eq_iff s "pending").0 e)
    | inr ne' ↦ (PetStatus.sold, ground (arith, eq_iff s "sold"))
  ]
]

pub is_pet_label-pet_status_to_string :
    (st : PetStatus) → is_pet_label (pet_status_to_string st) ≡ true
unfolding pet_status_to_string
is_pet_label-pet_status_to_string PetStatus.available = refl
is_pet_label-pet_status_to_string PetStatus.pending = refl
is_pet_label-pet_status_to_string PetStatus.sold = refl

equals-status :
    (o : Option String) (st : PetStatus)
    → equals
        (map_option pet_status_to_string (and_then o (λ s. ok? (parse_pet_status s))))
        (pet_status_to_string st)
      ≡ equals o (pet_status_to_string st)
equals-status none st = refl
equals-status (some s) st = elim (Result-cases (parse_pet_status s)) [
  | inl (a, e) ↦
      let label : s ≡ pet_status_to_string a = (parse_pet_status_iff s a).0 e in
      rw e (ap (λ x. same x (pet_status_to_string st)) (sym label))
  | inr (m, e) ↦ ground (arith, eq_iff s (pet_status_to_string st), (parse_pet_status_iff s st).1)
]

pub map-select_status :
    (json : Json) (st : PetStatus) (rows : List PetRow)
    → map (pet_of_row json) (select (λ r. equals r.status (pet_status_to_string st)) rows)
      ≡ select (has_status st) (map (pet_of_row json) rows)
unfolding select pet_of_row
map-select_status json st [] = refl
map-select_status json st (r ∷ rows) =
    ground (arith, equals-status r.status st, map-select_status json st rows)
