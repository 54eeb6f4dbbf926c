-- ===== src/Hyper/Form/RoundTrip/Category.antt =====
-- What `from_str` of `Category` makes of the text that `Display` prints.
use speed_test.Base.{
  String, ◌≡◌, refl, ap, ◌∙◌, Option, none, some, [], ◌∷◌, ℤ, ok, List, map_option, show_int, arith,
}
use speed_test.Models.{Category}
use speed_test.Hyper.Parse.Printed.{parse_i64-show_int}
use speed_test.Hyper.Form.{push}
use speed_test.Hyper.Form.Category.{
  CategoryRep, category_fields, category_to_string, push_category, no_category, category_of,
  category_from_str,
}
use speed_test.Hyper.Form.Split.{OptionHasNoComma}
use speed_test.Hyper.Form.Fields.{Pushes, parse_fields-pairs}
use speed_test.Hyper.Form.RoundTrip.{
  OptionIsI64, values, first-values, or_missing, parse_fields-show_fields, show_int-HasNoComma,
}

push_category-id :
    (rep : CategoryRep) (z : Option ℤ)
    → OptionIsI64 z
    → rep.id ≡ []
    → Pushes "Category" push_category "id"
        (map_option show_int z)
        rep
        (record rep { id = values z })
unfolding push_category
push_category-id rep none r h = ap (λ x. record rep { id = x }) h
push_category-id rep (some z) r h =
    rw (parse_i64-show_int z r) (ap (λ x. ok (record rep { id = push x z })) h)

push_category-name :
    (rep : CategoryRep) (v : Option String)
    → rep.name ≡ []
    → Pushes "Category" push_category "name" v rep (record rep { name = values v })
unfolding push_category
push_category-name rep none h = ap (λ x. record rep { name = x }) h
push_category-name rep (some v) h = ap (λ x. ok (record rep { name = push x v })) h

-- No text of it holds a comma, and its numbers are in their ranges.
abbrev pub IsPlainCategory : Category → Type 0
IsPlainCategory c = OptionIsI64 c.id × OptionHasNoComma c.name

-- A value of Category whose texts hold no comma and whose numbers are in the ranges of their types
-- is read back from its printed form, except where it has no field: then the printed form is refused.
pub category_from_str-category_to_string :
    (c : Category)
    → IsPlainCategory c
    → category_from_str (category_to_string c) ≡ or_missing "Category" (category_fields c) c
unfolding category_from_str category_to_string
category_from_str-category_to_string c h =
    let r1 : CategoryRep = record no_category { id = values c.id } in
    let r2 : CategoryRep = record r1 { name = values c.name } in
    let fields_2 : List (String × Option String) = ("name", c.name) ∷ [] in
    parse_fields-show_fields "Category" push_category no_category r2 category_of (category_fields c)
      c (ground arith, show_int-HasNoComma c.id, (ground arith, h.1, tt))
      (parse_fields-pairs "Category" push_category "id" (map_option show_int c.id) fields_2
          no_category r1 (push_category-id no_category c.id h.0 refl)
        ∙ parse_fields-pairs "Category" push_category "name" (c.name) [] r1 r2
            (push_category-name r1 c.name refl)
        ∙ refl)
      (rw (first-values c.id, first-values c.name) refl)
