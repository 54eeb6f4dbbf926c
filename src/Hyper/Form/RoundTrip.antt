-- ===== src/Hyper/Form/RoundTrip.antt =====
-- What `from_str` makes of the text that `Display` prints.
pub mod Category
pub mod Tag
pub mod ApiResponse
pub mod Error
pub mod User
use Prim.Native.Char.{code}
use speed_test.Base.{
  String, ◌++◌, ◌≡◌, refl, ap, sym, ◌∙◌, inl, inr, Option, none, some, List, [], ◌∷◌, ℤ, arith,
  is_empty, if◌then◌else◌, Result, ok, err, map_option, show_int,
}
use speed_test.Hyper.Parse.Plain.{IsPlain, is_plain, show_int-IsPlain}
use speed_test.Hyper.Parse.Printed.{IsI64, IsI32}
use speed_test.Hyper.Form.{split_commas, present, show_fields, parse_fields, with_value, first}
use speed_test.Hyper.Form.Split.{
  HasNoComma, OptionHasNoComma, FieldsHaveNoComma, pairs, or_blank, present-cases,
  split_commas-present,
}

IsPlain-HasNoComma : (s : String) → IsPlain s → HasNoComma s
unfolding is_plain
IsPlain-HasNoComma String.[] h = tt
IsPlain-HasNoComma (String.◌∷◌ c s) h = (ground arith, IsPlain-HasNoComma s h.1)

pub show_int-HasNoComma : (z : Option ℤ) → OptionHasNoComma (map_option show_int z)
show_int-HasNoComma none = tt
show_int-HasNoComma (some z) = IsPlain-HasNoComma (show_int z) (show_int-IsPlain z)

-- An optional `i64` or `i32`
abbrev pub OptionIsI64 : Option ℤ → Type 0
OptionIsI64 none = Unit {0}
OptionIsI64 (some z) = IsI64 z

abbrev pub OptionIsI32 : Option ℤ → Type 0
OptionIsI32 none = Unit {0}
OptionIsI32 (some z) = IsI32 z

abbrev pub values : {A : Type 0} → Option A → List A
values none = []
values (some a) = a ∷ []

pub first-values : {A : Type 0} (o : Option A) → first (values o) ≡ o
first-values none = refl
first-values (some a) = refl

-- A model whose parameters are all absent is printed as the empty text, which is refused.
abbrev pub or_missing : {A : Type 0} → String → List (String × Option String) → A → Result String A
or_missing type fields a =
    if is_empty (present fields) then err ("Missing value while parsing " ++ type) else ok a

module _ {R A : Type 0} (type : String) (push : String → String → R → Result String R)
    (rep done : R) (of : R → A) where
  pub parse_fields-show_fields :
      (fields : List (String × Option String)) (a : A)
      → FieldsHaveNoComma fields
      → parse_fields type push rep (pairs fields) ≡ ok done
      → of done ≡ a
      → with_value (parse_fields type push rep (split_commas (show_fields fields))) of
        ≡ or_missing type fields a
  unfolding parse_fields
  parse_fields-show_fields fields a h parsed made = elim (present-cases fields) [
    | inl (e, e') ↦ rw (split_commas-present fields h, e', e) refl
    | inr (p, ps, k, ks, e, e') ↦
        let all : parse_fields type push rep (k ∷ ks) ≡ ok done =
          ap (parse_fields type push rep) (sym e') ∙ parsed in
        rw (split_commas-present fields h, e', e, all, made) refl
  ]
