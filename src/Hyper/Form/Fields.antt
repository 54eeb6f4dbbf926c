-- ===== src/Hyper/Form/Fields.antt =====
-- How the loop of `from_str` takes one parameter after the other.
use speed_test.Base.{String, ◌≡◌, refl, Option, none, some, List, ◌∷◌, Result, ok}
use speed_test.Hyper.Form.{parse_fields}
use speed_test.Hyper.Form.Split.{pairs}

module _ {R : Type 0} (type : String) (push : String → String → R → Result String R) where
  -- What a parameter does to the intermediate value.
  abbrev pub Pushes : String → Option String → R → R → Type 0
  Pushes key none rep next = rep ≡ next
  Pushes key (some v) rep next = push key v rep ≡ ok next

  pub parse_fields-pairs :
      (key : String) (v : Option String) (fields : List (String × Option String)) (rep next : R)
      → Pushes key v rep next
      → parse_fields type push rep (pairs ((key, v) ∷ fields))
        ≡ parse_fields type push next (pairs fields)
  unfolding parse_fields
  parse_fields-pairs key none fields rep next h = rw h refl
  parse_fields-pairs key (some v) fields rep next h = rw h refl
