-- ===== src/Hyper/Form/Split.antt =====
-- Splitting at commas what was joined by commas.
use Prim.Native.Char.{code}
use text.Mathlib.TextLemmas.{nil-append, cons-append, append_assoc}
use speed_test.Base.{
  String, ◌++◌, ◌≡◌, refl, ap, sym, ◌⊎◌, inl, inr, Option, none, some, false, List, [], ◌∷◌, ◌==◌,
  ◌∙◌,
}
use speed_test.Hyper.Client.Pet.{join_commas}
use speed_test.Hyper.Form.{split_commas, present}

abbrev pub HasNoComma : String → Type 0
HasNoComma String.[] = Unit {0}
HasNoComma (String.◌∷◌ c s) = ((code c == 44) ≡ false) × HasNoComma s

pub split_commas-comma :
    (s t : String) → HasNoComma s → split_commas (s ++ "," ++ t) ≡ s ∷ split_commas t
unfolding split_commas
split_commas-comma String.[] t h =
    rw (nil-append ("," ++ t), cons-append "," "" t, nil-append t) refl
split_commas-comma (String.◌∷◌ c s) t h =
    rw (cons-append c s ("," ++ t), h.0, split_commas-comma s t h.1) refl

pub split_commas-plain : (s : String) → HasNoComma s → split_commas s ≡ s ∷ []
unfolding split_commas
split_commas-plain String.[] h = refl
split_commas-plain (String.◌∷◌ c s) h = rw (h.0, split_commas-plain s h.1) refl

-- The names and values of the parameters that are there.
abbrev pub pairs : List (String × Option String) → List String
pairs [] = []
pairs ((key, none) ∷ fields) = pairs fields
pairs ((key, some v) ∷ fields) = key ∷ v ∷ pairs fields

abbrev pub OptionHasNoComma : Option String → Type 0
OptionHasNoComma none = Unit {0}
OptionHasNoComma (some v) = HasNoComma v

abbrev pub FieldsHaveNoComma : List (String × Option String) → Type 0
FieldsHaveNoComma [] = Unit {0}
FieldsHaveNoComma ((key, v) ∷ fields) =
    HasNoComma key × OptionHasNoComma v × FieldsHaveNoComma fields

-- What is split where nothing is there is one empty text.
abbrev pub or_blank : List String → List String
or_blank [] = "" ∷ []
or_blank (piece ∷ pieces) = piece ∷ pieces

pub present-cases :
    (fields : List (String × Option String))
    → ((present fields ≡ []) × (pairs fields ≡ []))
      ⊎ ((p : String) × (ps : List String) × (k : String) × (ks : List String) × (present fields
            ≡ p ∷ ps)
          × (pairs fields ≡ k ∷ ks))
unfolding present
present-cases [] = inl (refl, refl)
present-cases ((key, none) ∷ fields) = present-cases fields
present-cases ((key, some v) ∷ fields) = inr (_, _, _, _, refl, refl)

pub split_commas-present :
    (fields : List (String × Option String))
    → FieldsHaveNoComma fields
    → split_commas (join_commas (present fields)) ≡ or_blank (pairs fields)
unfolding split_commas present join_commas
split_commas-present [] h = refl
split_commas-present ((key, none) ∷ fields) h = split_commas-present fields h.2
split_commas-present ((key, some v) ∷ fields) h = elim (present-cases fields) [
  | inl (e, e') ↦ rw (e, e', split_commas-comma key v h.0, split_commas-plain v h.1) refl
  | inr (p, ps, k, ks, e, e') ↦
      let rest : split_commas (join_commas (p ∷ ps)) ≡ k ∷ ks =
        sym (ap (λ x. split_commas (join_commas x)) e)
        ∙ split_commas-present fields h.2
        ∙ ap or_blank e' in
      let tail = join_commas (p ∷ ps) in
      rw
        (
          e,
          e',
          append_assoc key ("," ++ v) ("," ++ tail),
          append_assoc "," v ("," ++ tail),
          split_commas-comma key (v ++ "," ++ tail) h.0,
          split_commas-comma v tail h.1,
          rest,
        )
        refl
]
