-- ===== src/Hyper/Form/Tag.antt =====
-- `Display` and `FromStr` of `Tag` of petshop-stacks/rust/hyper/src/models.rs.
use speed_test.Base.{
  String, Option, List, [], ◌∷◌, same, string_key, if◌then◌else◌, Result, ok, err, ℤ, map_option,
  show_int,
}
use speed_test.Models.{Tag}
use speed_test.Hyper.Parse.{parse_i64}
use speed_test.Hyper.Client.Pet.{join_commas}
use speed_test.Hyper.Form.{
  split_commas, present, show_fields, parse_fields, push, with_value, first,
}

-- `IntermediateRep`
pub record TagRep : Type 0 where
  pub id : List ℤ
  pub name : List String

abbrev pub tag_fields : Tag → List (String × Option String)
tag_fields t = ("id", map_option show_int t.id) ∷ ("name", t.name) ∷ []

unfoldable pub tag_to_string : Tag → String
unfolding join_commas present show_int
tag_to_string t = show_fields (tag_fields t)

unfoldable pub push_tag : String → String → TagRep → Result String TagRep
push_tag key v rep =
    if same key "id"
    then with_value (parse_i64 v) (λ z. record rep { id = push rep.id z })
    else if same key "name"
    then ok (record rep { name = push rep.name v })
    else err "Unexpected key while parsing Tag"

abbrev pub no_tag : TagRep
no_tag = record { id = []; name = [] }

abbrev pub tag_of : TagRep → Tag
tag_of rep = record { id = first rep.id; name = first rep.name }

unfoldable pub tag_from_str : String → Result String Tag
unfolding split_commas parse_fields push_tag
tag_from_str s = with_value (parse_fields "Tag" push_tag no_tag (split_commas s)) tag_of
