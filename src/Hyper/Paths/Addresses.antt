-- ===== src/Hyper/Paths/Addresses.antt =====
-- The paths that are built of a fixed text and a plain segment, as the client builds them, and how
-- the server takes them apart.
use Prim.Native.Char.{Char, code}
use text.Mathlib.TextLemmas.{
  append-nil, nil-append, cons-append, append_cancel_left, head-eq_of_cons-eq,
}
use text.Mathlib.TextEquality.{eq_iff}
use speed_test.Base.{
  String, ◌++◌, ◌≡◌, ◌≢◌, refl, sym, some, none, false, arith, ◌==◌, ap, ◌∙◌, same, same_refl,
  string_key, Bool-cases, inl, inr,
}
use speed_test.Hyper.Parse.{strip_prefix}
use speed_test.Hyper.Parse.Plain.{is_plain, IsPlain}
use speed_test.Hyper.Paths.{literal, param, segment, captures}

pub strip_prefix-++ : (p s : String) → strip_prefix p (p ++ s) ≡ some s
unfolding strip_prefix
strip_prefix-++ String.[] s = rw (nil-append s) refl
strip_prefix-++ (String.◌∷◌ c p) s = rw (cons-append c p s) (ground (arith, strip_prefix-++ p s))

pub segment-++ : (s t : String) → IsPlain s → segment t ≡ (String.[], t) → segment (s ++ t) ≡ (s, t)
unfolding segment is_plain
segment-++ String.[] t p e = rw (nil-append t) e
segment-++ (String.◌∷◌ c s) t p e = rw (cons-append c s t) (ground (arith, segment-++ s t p.1 e))

pub captures-param :
    (prefix s suffix : String)
    → IsPlain s
    → segment suffix ≡ (String.[], suffix)
    → captures (param prefix suffix) (prefix ++ (s ++ suffix)) ≡ some s
unfolding captures
captures-param prefix s suffix p e =
    ground (arith, strip_prefix-++ prefix (s ++ suffix), segment-++ s suffix p e, same_refl suffix)

-- A path that goes on is another one.
pub captures-longer :
    (prefix s rest suffix : String)
    → IsPlain s
    → segment rest ≡ (String.[], rest)
    → same rest suffix ≡ false
    → captures (param prefix suffix) (prefix ++ (s ++ rest)) ≡ none
unfolding captures
captures-longer prefix s rest suffix p e other =
    ground (arith, strip_prefix-++ prefix (s ++ rest), segment-++ s rest p e)

-- At the end of the path.
pub captures-end :
    (prefix s : String) → IsPlain s → captures (param prefix "") (prefix ++ s) ≡ some s
unfolding captures segment
captures-end prefix s p =
    ap (λ (t : String). captures (param prefix "") (prefix ++ t)) (sym (append-nil s))
    ∙ captures-param prefix s "" p refl

-- A fixed path is not one that a segment ends, unless the segment is the rest of it.
pub other_literal :
    (prefix s rest : String) → s ≢ rest → captures (literal (prefix ++ rest)) (prefix ++ s) ≡ none
unfolding captures
other_literal prefix s rest h = elim (Bool-cases (same (prefix ++ s) (prefix ++ rest))) [
  | inl e ↦
      absurd (h (append_cancel_left prefix s rest ((eq_iff (prefix ++ s) (prefix ++ rest)).0 e)))
  | inr e ↦ rw e refl
]

-- Two paths that differ somewhere.
strip_prefix-apart :
    (common p s : String) (c d : Char)
    → (code c == code d) ≡ false
    → strip_prefix (common ++ String.◌∷◌ c p) (common ++ String.◌∷◌ d s) ≡ none
unfolding strip_prefix
strip_prefix-apart String.[] p s c d h =
    rw (nil-append (String.◌∷◌ c p), nil-append (String.◌∷◌ d s)) (ground arith)
strip_prefix-apart (String.◌∷◌ x common) p s c d h =
    rw (cons-append x common (String.◌∷◌ c p), cons-append x common (String.◌∷◌ d s))
      (ground (arith, strip_prefix-apart common p s c d h))

module _ (common p s : String) (c d : Char) (h : (code c == code d) ≡ false) where
  pub param-apart :
      (suffix : String)
      → captures (param (common ++ String.◌∷◌ c p) suffix) (common ++ String.◌∷◌ d s) ≡ none
  unfolding captures
  param-apart suffix = rw (strip_prefix-apart common p s c d h) refl

  pub literal-apart :
      captures (literal (common ++ String.◌∷◌ c p)) (common ++ String.◌∷◌ d s) ≡ none
  literal-apart =
      other_literal common (String.◌∷◌ d s) (String.◌∷◌ c p)
        (λ (e : String.◌∷◌ d s ≡ String.◌∷◌ c p).
          let same_char : d ≡ c = head-eq_of_cons-eq e in
          absurd (ground (arith, ap code same_char)))
