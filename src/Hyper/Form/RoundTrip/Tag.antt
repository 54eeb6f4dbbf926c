-- ===== src/Hyper/Form/RoundTrip/Tag.antt =====
-- What `from_str` of `Tag` makes of the text that `Display` prints.
use speed_test.Base.{
  String, ◌≡◌, refl, ap, ◌∙◌, Option, none, some, [], ◌∷◌, ℤ, ok, List, map_option, show_int, arith,
}
use speed_test.Models.{Tag}
use speed_test.Hyper.Parse.Printed.{parse_i64-show_int}
use speed_test.Hyper.Form.{push}
use speed_test.Hyper.Form.Tag.{
  TagRep, tag_fields, tag_to_string, push_tag, no_tag, tag_of, tag_from_str,
}
use speed_test.Hyper.Form.Split.{OptionHasNoComma}
use speed_test.Hyper.Form.Fields.{Pushes, parse_fields-pairs}
use speed_test.Hyper.Form.RoundTrip.{
  OptionIsI64, values, first-values, or_missing, parse_fields-show_fields, show_int-HasNoComma,
}

push_tag-id :
    (rep : TagRep) (z : Option ℤ)
    → OptionIsI64 z
    → rep.id ≡ []
    → Pushes "Tag" push_tag "id" (map_option show_int z) rep (record rep { id = values z })
unfolding push_tag
push_tag-id rep none r h = ap (λ x. record rep { id = x }) h
push_tag-id rep (some z) r h =
    rw (parse_i64-show_int z r) (ap (λ x. ok (record rep { id = push x z })) h)

push_tag-name :
    (rep : TagRep) (v : Option String)
    → rep.name ≡ []
    → Pushes "Tag" push_tag "name" v rep (record rep { name = values v })
unfolding push_tag
push_tag-name rep none h = ap (λ x. record rep { name = x }) h
push_tag-name rep (some v) h = ap (λ x. ok (record rep { name = push x v })) h

-- No text of it holds a comma, and its numbers are in their ranges.
abbrev pub IsPlainTag : Tag → Type 0
IsPlainTag t = OptionIsI64 t.id × OptionHasNoComma t.name

-- A value of Tag whose texts hold no comma and whose numbers are in the ranges of their types
-- is read back from its printed form, except where it has no field: then the printed form is refused.
pub tag_from_str-tag_to_string :
    (t : Tag) → IsPlainTag t → tag_from_str (tag_to_string t) ≡ or_missing "Tag" (tag_fields t) t
unfolding tag_from_str tag_to_string
tag_from_str-tag_to_string t h =
    let r1 : TagRep = record no_tag { id = values t.id } in
    let r2 : TagRep = record r1 { name = values t.name } in
    let fields_2 : List (String × Option String) = ("name", t.name) ∷ [] in
    parse_fields-show_fields "Tag" push_tag no_tag r2 tag_of (tag_fields t) t
      (ground arith, show_int-HasNoComma t.id, (ground arith, h.1, tt))
      (parse_fields-pairs "Tag" push_tag "id" (map_option show_int t.id) fields_2 no_tag r1
          (push_tag-id no_tag t.id h.0 refl)
        ∙ parse_fields-pairs "Tag" push_tag "name" (t.name) [] r1 r2 (push_tag-name r1 t.name refl)
        ∙ refl)
      (rw (first-values t.id, first-values t.name) refl)
