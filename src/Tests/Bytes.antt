-- ===== src/Tests/Bytes.antt =====
-- Texts as lists of numbers, for the tests: the numbers of their characters, and back.
use Prim.Native.Nat.{compare, Ordering}
use Prim.Native.Char.{Char, char, code, IsScalar}
use text.Mathlib.TextEquality.{Char-path}
use speed_test.Base.{
  ℕ, String, ◌≡◌, ◌≢◌, refl, ap, Option, none, some, List, [], ◌∷◌, arith, ◌⊎◌, inl, inr, Result,
  ok, err, Bool-cases, ltb, true, false,
}

low : (n : ℕ) → compare n 55296 ≡ Ordering.lt → IsScalar n
low n h = rw h tt

high_at :
    (n : ℕ) (o : Ordering)
    → compare n 55296 ≡ o
    → compare 57343 n ≡ Ordering.lt
    → compare n 1114112 ≡ Ordering.lt
    → IsScalar n
high_at n Ordering.lt e h k = rw e tt
high_at n Ordering.eq e h k = rw (e, h, k) tt
high_at n Ordering.gt e h k = rw (e, h, k) tt

as_lt : (a b : ℕ) → ltb a b ≡ true → compare a b ≡ Ordering.lt
as_lt a b h = ground arith

choose :
    (n : ℕ)
    → (ltb n 55296 ≡ true) ⊎ (ltb n 55296 ≡ false)
    → (ltb 57343 n ≡ true) ⊎ (ltb 57343 n ≡ false)
    → (ltb n 1114112 ≡ true) ⊎ (ltb n 1114112 ≡ false)
    → Option Char
choose n (inl h) y z = some (char n (low n (as_lt n 55296 h)))
choose n (inr _) (inl h) (inl k) =
    some (char n (high_at n (compare n 55296) refl (as_lt 57343 n h) (as_lt n 1114112 k)))
choose n (inr _) (inl h) (inr k) = none
choose n (inr _) (inr h) z = none

-- A number that is no character.
none_left :
    (n : ℕ) (o p q : Ordering)
    → compare n 55296 ≡ o
    → compare 57343 n ≡ p
    → compare n 1114112 ≡ q
    → o ≢ Ordering.lt
    → (p ≢ Ordering.lt) ⊎ (q ≢ Ordering.lt)
    → IsScalar n
    → ⊥
none_left n Ordering.lt p q a b c h k s = h refl
none_left n Ordering.eq Ordering.eq q a b c h k s = rw (a, b) at s
none_left n Ordering.eq Ordering.gt q a b c h k s = rw (a, b) at s
none_left n Ordering.eq Ordering.lt Ordering.eq a b c h k s = rw (a, b, c) at s
none_left n Ordering.eq Ordering.lt Ordering.gt a b c h k s = rw (a, b, c) at s
none_left n Ordering.eq Ordering.lt Ordering.lt a b c h (inl k) s = k refl
none_left n Ordering.eq Ordering.lt Ordering.lt a b c h (inr k) s = k refl
none_left n Ordering.gt Ordering.eq q a b c h k s = rw (a, b) at s
none_left n Ordering.gt Ordering.gt q a b c h k s = rw (a, b) at s
none_left n Ordering.gt Ordering.lt Ordering.eq a b c h k s = rw (a, b, c) at s
none_left n Ordering.gt Ordering.lt Ordering.gt a b c h k s = rw (a, b, c) at s
none_left n Ordering.gt Ordering.lt Ordering.lt a b c h (inl k) s = k refl
none_left n Ordering.gt Ordering.lt Ordering.lt a b c h (inr k) s = k refl

not_lt : (a b : ℕ) → ltb a b ≡ false → compare a b ≢ Ordering.lt
not_lt a b h e = absurd (ground (arith, e))

choose-code :
    (n : ℕ) (p : IsScalar n) (x : (ltb n 55296 ≡ true) ⊎ (ltb n 55296 ≡ false))
    (y : (ltb 57343 n ≡ true) ⊎ (ltb 57343 n ≡ false))
    (z : (ltb n 1114112 ≡ true) ⊎ (ltb n 1114112 ≡ false))
    → choose n x y z ≡ some (char n p)
unfolding choose
choose-code n p (inl h) y z = ap some (Char-path _ _ refl)
choose-code n p (inr g) (inl h) (inl k) = ap some (Char-path _ _ refl)
choose-code n p (inr g) (inl h) (inr k) = absurd (
    none_left n (compare n 55296) (compare 57343 n) (compare n 1114112) refl refl refl
      (not_lt n 55296 g) (inr (not_lt n 1114112 k)) p)
choose-code n p (inr g) (inr h) z = absurd (
    none_left n (compare n 55296) (compare 57343 n) (compare n 1114112) refl refl refl
      (not_lt n 55296 g) (inl (not_lt 57343 n h)) p)

to_char : ℕ → Option Char
unfolding choose
to_char n =
    choose n (Bool-cases (ltb n 55296)) (Bool-cases (ltb 57343 n)) (Bool-cases (ltb n 1114112))

to_char-code : (c : Char) → to_char (code c) ≡ some c
unfolding to_char
to_char-code (char n p) =
    choose-code n p (Bool-cases (ltb n 55296)) (Bool-cases (ltb 57343 n))
      (Bool-cases (ltb n 1114112))

unfoldable pub as_bytes : String → List ℕ
as_bytes String.[] = []
as_bytes (String.◌∷◌ c s) = code c ∷ as_bytes s

abbrev pub put_first : Option Char → Result String String → Result String String
put_first (some c) (ok s) = ok (String.◌∷◌ c s)
put_first _ _ = err "invalid utf-8 sequence"

pub from_utf8 : List ℕ → Result String String
unfolding to_char
from_utf8 [] = ok String.[]
from_utf8 (n ∷ bytes) = put_first (to_char n) (from_utf8 bytes)

pub from_utf8-as_bytes : (s : String) → from_utf8 (as_bytes s) ≡ ok s
unfolding from_utf8 as_bytes
from_utf8-as_bytes String.[] = refl
from_utf8-as_bytes (String.◌∷◌ c s) = rw (to_char-code c, from_utf8-as_bytes s) refl
