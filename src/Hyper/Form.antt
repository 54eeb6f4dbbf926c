-- ===== src/Hyper/Form.antt =====
-- The comma-separated form of the models of petshop-stacks/rust/hyper/src/models.rs: the generated
-- `Display` and `FromStr`. The models have the fields of `Models`.
pub mod Split
pub mod Category
pub mod Tag
pub mod ApiResponse
pub mod Error
pub mod User
pub mod Fields
pub mod RoundTrip
use Prim.Native.Char.{Char, code}
use speed_test.Base.{
  String, ◌++◌, Option, none, some, List, [], ◌∷◌, append, if◌then◌else◌, Result, ok, err, ◌==◌,
}
use speed_test.Hyper.Client.Pet.{join_commas}

abbrev pub cons_to_first : Char → List String → List String
cons_to_first c [] = String.◌∷◌ c String.[] ∷ []
cons_to_first c (piece ∷ pieces) = String.◌∷◌ c piece ∷ pieces

-- `s.split(',')`
unfoldable pub split_commas : String → List String
split_commas String.[] = "" ∷ []
split_commas (String.◌∷◌ c s) =
    let rest = split_commas s in if code c == 44 then "" ∷ rest else cons_to_first c rest

-- The parameters that are there, each a name and a value: `params.into_iter().flatten()`.
unfoldable pub present : List (String × Option String) → List String
unfolding join_commas
present [] = []
present ((key, none) ∷ fields) = present fields
present ((key, some v) ∷ fields) = join_commas (key ∷ v ∷ []) ∷ present fields

abbrev pub show_fields : List (String × Option String) → String
show_fields fields = join_commas (present fields)

-- The loop of `from_str`: names and values by turns, from the intermediate value `rep`.
unfoldable pub parse_fields :
    {R : Type 0}
    → String
    → (String → String → R → Result String R)
    → R
    → List String
    → Result String R
parse_fields type push rep [] = ok rep
parse_fields type push rep (key ∷ []) = err ("Missing value while parsing " ++ type)
parse_fields type push rep (key ∷ v ∷ pieces) = elim (push key v rep) [
  | err e ↦ err e
  | ok next ↦ parse_fields type push next pieces
]

abbrev pub with_value : {A R : Type 0} → Result String A → (A → R) → Result String R
with_value (ok a) f = ok (f a)
with_value (err e) f = err e

-- `into_iter().next()`
abbrev pub first : {A : Type 0} → List A → Option A
first [] = none
first (a ∷ rest) = some a

abbrev pub push : {A : Type 0} → List A → A → List A
push values a = append values (a ∷ [])
