-- ===== src/Hyper/Form/Category.antt =====
-- `Display` and `FromStr` of `Category` of petshop-stacks/rust/hyper/src/models.rs.
use speed_test.Base.{
  String, Option, List, [], ◌∷◌, same, string_key, if◌then◌else◌, Result, ok, err, ℤ, map_option,
  show_int,
}
use speed_test.Models.{Category}
use speed_test.Hyper.Parse.{parse_i64}
use speed_test.Hyper.Client.Pet.{join_commas}
use speed_test.Hyper.Form.{
  split_commas, present, show_fields, parse_fields, push, with_value, first,
}

-- `IntermediateRep`
pub record CategoryRep : Type 0 where
  pub id : List ℤ
  pub name : List String

abbrev pub category_fields : Category → List (String × Option String)
category_fields c = ("id", map_option show_int c.id) ∷ ("name", c.name) ∷ []

unfoldable pub category_to_string : Category → String
unfolding join_commas present show_int
category_to_string c = show_fields (category_fields c)

unfoldable pub push_category : String → String → CategoryRep → Result String CategoryRep
push_category key v rep =
    if same key "id"
    then with_value (parse_i64 v) (λ z. record rep { id = push rep.id z })
    else if same key "name"
    then ok (record rep { name = push rep.name v })
    else err "Unexpected key while parsing Category"

abbrev pub no_category : CategoryRep
no_category = record { id = []; name = [] }

abbrev pub category_of : CategoryRep → Category
category_of rep = record { id = first rep.id; name = first rep.name }

unfoldable pub category_from_str : String → Result String Category
unfolding split_commas parse_fields push_category
category_from_str s =
    with_value (parse_fields "Category" push_category no_category (split_commas s)) category_of
