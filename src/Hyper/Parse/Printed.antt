-- ===== src/Hyper/Parse/Printed.antt =====
-- What `Display` prints of an integer is read back by `parse`.
use text.Mathlib.TextLemmas.{nil-append, cons-append, cons≢nil}
use speed_test.Base.{
  ℕ, zero, suc, ◌+◌, ◌-◌, ◌*◌, ◌/◌, ◌%◌, ◌^◌, ◌≤◌, ◌<◌, String, ◌++◌, ◌≡◌, ◌≢◌, refl, inl, inr,
  arith, ℤ, pos, negsuc, ltb, Bool-cases, Option-cases, Result, ok, err, ◌∙◌, digit, show_nat,
  show_nat_lem, show_int,
}
use speed_test.DbConfig.{to_digit}
use speed_test.Hyper.Parse.{parse_size, negate, parse_signed, parse_i64, parse_i32}

abbrev continue : Result String ℕ → (ℕ → Result String ℕ) → Result String ℕ
continue (ok n) f = f n
continue (err e) f = err e

module _ (limit : ℕ) (beyond : String) where
  parse_size-++ :
      (n : ℕ) (s t : String)
      → parse_size limit beyond n (s ++ t)
        ≡ continue (parse_size limit beyond n s) (λ m. parse_size limit beyond m t)
  unfolding parse_size
  parse_size-++ n String.[] t = rw (nil-append t) refl
  parse_size-++ n (String.◌∷◌ c s) t = rw (cons-append c s t) elim (Option-cases (to_digit c)) [
    | inl e ↦ ground arith
    | inr (d, e) ↦ ground (arith, parse_size-++ (n * 10 + d) s t)
  ]

  parse_size-digit :
      (n d : ℕ)
      → d < 10
      → n * 10 + d ≤ limit
      → parse_size limit beyond n (digit d) ≡ ok (n * 10 + d)
  unfolding parse_size digit to_digit
  parse_size-digit n zero small fits = ground arith
  parse_size-digit n (suc zero) small fits = ground arith
  parse_size-digit n (suc (suc zero)) small fits = ground arith
  parse_size-digit n (suc (suc (suc zero))) small fits = ground arith
  parse_size-digit n (suc (suc (suc (suc zero)))) small fits = ground arith
  parse_size-digit n (suc (suc (suc (suc (suc zero))))) small fits = ground arith
  parse_size-digit n (suc (suc (suc (suc (suc (suc zero)))))) small fits = ground arith
  parse_size-digit n (suc (suc (suc (suc (suc (suc (suc zero))))))) small fits = ground arith
  parse_size-digit n (suc (suc (suc (suc (suc (suc (suc (suc zero)))))))) small fits = ground arith
  parse_size-digit n (suc (suc (suc (suc (suc (suc (suc (suc (suc zero))))))))) small fits =
      ground arith
  parse_size-digit n (suc (suc (suc (suc (suc (suc (suc (suc (suc (suc d)))))))))) small fits =
      absurd (omega arith)

  parse_size-show_nat :
      (fuel n : ℕ) → n < fuel → n ≤ limit → parse_size limit beyond 0 (show_nat n) ≡ ok n
  parse_size-show_nat zero n h fits = absurd (omega arith)
  parse_size-show_nat (suc fuel) n h fits = elim (Bool-cases (ltb n 10)) [
    | inl small ↦
        let read : parse_size limit beyond 0 (digit n) ≡ ok (0 * 10 + n) =
          parse_size-digit 0 n (ground arith) (omega arith) in
        ground (arith, show_nat_lem n)
    | inr large ↦
        rw
          (
            show_nat_lem n,
            large,
            parse_size-++ 0 (show_nat (n / 10)) (digit (n % 10)),
            parse_size-show_nat fuel (n / 10) (ground arith) (omega arith),
          )
          (let whole : n / 10 * 10 + n % 10 ≡ n = omega arith in
            parse_size-digit (n / 10) (n % 10) (omega arith) (omega arith) ∙ rw whole refl)
  ]

show_nat-filled : (n : ℕ) → show_nat n ≢ ""
unfolding show_nat parse_size
show_nat-filled zero h = cons≢nil h
show_nat-filled (suc n) h =
    let read : parse_size (suc n) "" 0 (show_nat (suc n)) ≡ ok (suc n) =
      parse_size-show_nat (suc n) "" (suc (suc n)) (suc n) (omega arith) (omega arith) in
    absurd (cc)

-- A text of digits has no sign.
unsigned :
    (w n : ℕ) (s : String)
    → s ≢ ""
    → parse_size (2 ^ w - 1) "number too large to fit in target type" 0 s ≡ ok n
    → parse_signed w s ≡ ok (pos n)
unfolding parse_signed parse_size to_digit
unsigned w n String.[] h e = absurd (h refl)
unsigned w n (String.◌∷◌ c String.[]) h e = ground arith
unsigned w n (String.◌∷◌ c (String.◌∷◌ d s)) h e = ground arith

minus :
    (w n : ℕ) (s : String)
    → s ≢ ""
    → parse_size (2 ^ w) "number too small to fit in target type" 0 s ≡ ok n
    → parse_signed w ("-" ++ s) ≡ ok (negate n)
unfolding parse_signed
minus w n String.[] h e = absurd (h refl)
minus w n (String.◌∷◌ d s) h e =
    rw (cons-append "-" "" (String.◌∷◌ d s), nil-append (String.◌∷◌ d s)) (ground arith)

-- An `i64`
abbrev pub IsI64 : ℤ → Type 0
IsI64 (pos n) = n < 2 ^ 63
IsI64 (negsuc n) = n < 2 ^ 63

-- An `i32`
abbrev pub IsI32 : ℤ → Type 0
IsI32 (pos n) = n < 2 ^ 31
IsI32 (negsuc n) = n < 2 ^ 31

module _ (w : ℕ) where
  parse_signed-show_nat : (n : ℕ) → n < 2 ^ w → parse_signed w (show_nat n) ≡ ok (pos n)
  parse_signed-show_nat n h = unsigned w n (show_nat n) (show_nat-filled n) (
      parse_size-show_nat (2 ^ w - 1) "number too large to fit in target type" (suc n) n
        (omega arith) (omega arith))

  parse_signed-minus :
      (n : ℕ) → n < 2 ^ w → parse_signed w ("-" ++ show_nat (suc n)) ≡ ok (negsuc n)
  parse_signed-minus n h =
      minus w (suc n) (show_nat (suc n)) (show_nat-filled (suc n)) (
        parse_size-show_nat (2 ^ w) "number too small to fit in target type" (suc (suc n)) (suc n)
          (omega arith) (omega arith))
      ∙ ground arith

-- An integer of 64 bits that is printed is parsed as the same integer, from the least to the
-- greatest.
pub parse_i64-show_int : (z : ℤ) → IsI64 z → parse_i64 (show_int z) ≡ ok z
unfolding show_int
parse_i64-show_int (pos n) h = parse_signed-show_nat 63 n h
parse_i64-show_int (negsuc n) h = parse_signed-minus 63 n h

pub parse_i32-show_int : (z : ℤ) → IsI32 z → parse_i32 (show_int z) ≡ ok z
unfolding show_int
parse_i32-show_int (pos n) h = parse_signed-show_nat 31 n h
parse_i32-show_int (negsuc n) h = parse_signed-minus 31 n h
