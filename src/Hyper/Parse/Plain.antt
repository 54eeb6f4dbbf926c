-- ===== src/Hyper/Parse/Plain.antt =====
-- Texts of letters, digits and `-._~`, the characters that no URL encoding changes. Printed integers
-- are such texts.
use Prim.Native.Char.{Char, code}
use text.Mathlib.TextLemmas.{nil-append, cons-append}
use speed_test.Base.{
  ℕ, zero, suc, ◌/◌, ◌%◌, ◌<◌, String, ◌++◌, ◌≡◌, refl, Bool, true, ◌&&◌, ◌||◌, arith, ℤ, pos,
  negsuc, ltb, leb, ◌==◌, Bool-cases, inl, inr, digit, show_nat, show_nat_lem, show_int,
}

unfoldable pub is_plain : Char → Bool
is_plain c =
    leb 48 (code c) && leb (code c) 57
    || leb 65 (code c) && leb (code c) 90
    || leb 97 (code c) && leb (code c) 122
    || code c == 45
    || code c == 46
    || code c == 95
    || code c == 126

abbrev pub IsPlain : String → Type 0
IsPlain String.[] = Unit {0}
IsPlain (String.◌∷◌ c s) = (is_plain c ≡ true) × IsPlain s

pub IsPlain-++ : (s t : String) → IsPlain s → IsPlain t → IsPlain (s ++ t)
IsPlain-++ String.[] t p q = rw (nil-append t) q
IsPlain-++ (String.◌∷◌ c s) t p q = rw (cons-append c s t) (p.0, IsPlain-++ s t p.1 q)

digit-IsPlain : (d : ℕ) → d < 10 → IsPlain (digit d)
unfolding digit is_plain
digit-IsPlain zero h = ground arith
digit-IsPlain (suc zero) h = ground arith
digit-IsPlain (suc (suc zero)) h = ground arith
digit-IsPlain (suc (suc (suc zero))) h = ground arith
digit-IsPlain (suc (suc (suc (suc zero)))) h = ground arith
digit-IsPlain (suc (suc (suc (suc (suc zero))))) h = ground arith
digit-IsPlain (suc (suc (suc (suc (suc (suc zero)))))) h = ground arith
digit-IsPlain (suc (suc (suc (suc (suc (suc (suc zero))))))) h = ground arith
digit-IsPlain (suc (suc (suc (suc (suc (suc (suc (suc zero)))))))) h = ground arith
digit-IsPlain (suc (suc (suc (suc (suc (suc (suc (suc (suc zero))))))))) h = ground arith
digit-IsPlain (suc (suc (suc (suc (suc (suc (suc (suc (suc (suc d)))))))))) h = absurd (omega arith)

show_nat-IsPlain : (fuel n : ℕ) → n < fuel → IsPlain (show_nat n)
show_nat-IsPlain zero n h = absurd (omega arith)
show_nat-IsPlain (suc fuel) n h = elim (Bool-cases (ltb n 10)) [
  | inl small ↦ rw (show_nat_lem n, small) (digit-IsPlain n (ground arith))
  | inr large ↦
      rw (show_nat_lem n, large)
        (IsPlain-++ (show_nat (n / 10)) (digit (n % 10))
          (show_nat-IsPlain fuel (n / 10) (ground arith)) (digit-IsPlain (n % 10) (omega arith)))
]

pub show_int-IsPlain : (z : ℤ) → IsPlain (show_int z)
unfolding show_int is_plain
show_int-IsPlain (pos n) = show_nat-IsPlain (suc n) n (omega arith)
show_int-IsPlain (negsuc n) =
    IsPlain-++ "-" (show_nat (suc n)) (refl, tt)
      (show_nat-IsPlain (suc (suc n)) (suc n) (omega arith))
