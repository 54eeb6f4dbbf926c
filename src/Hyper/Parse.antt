-- ===== src/Hyper/Parse.antt =====
-- Reading texts: `str::parse::<i64>` and `str::parse::<i32>`, with the messages of `ParseIntError`,
-- and `str::contains`.
pub mod Printed
pub mod Plain
use Prim.Native.Char.{code}
use speed_test.Base.{
  ℕ, ◌+◌, ◌-◌, ◌*◌, ◌^◌, String, Option, none, some, Bool, true, false, ◌||◌, ℤ, pos, negsuc, leb,
  ◌==◌, if◌then◌else◌, Result, ok, err,
}
use speed_test.DbConfig.{to_digit}

-- The digits of a number whose size may be at most `limit`; `beyond` is the message past it.
unfoldable pub parse_size : ℕ → String → ℕ → String → Result String ℕ
unfolding to_digit
parse_size limit beyond n String.[] = ok n
parse_size limit beyond n (String.◌∷◌ c s) = elim (to_digit c) [
  | none ↦ err "invalid digit found in string"
  | some d ↦ if leb (n * 10 + d) limit then parse_size limit beyond (n * 10 + d) s else err beyond
]

abbrev pub positive : Result String ℕ → Result String ℤ
positive (ok n) = ok (pos n)
positive (err e) = err e

abbrev pub negate : ℕ → ℤ
negate n = if n == 0 then pos 0 else negsuc (n - 1)

abbrev pub negative : Result String ℕ → Result String ℤ
negative (ok n) = ok (negate n)
negative (err e) = err e

-- A signed integer of `w + 1` bits: a sign alone is no number.
unfoldable pub parse_signed : ℕ → String → Result String ℤ
unfolding parse_size
parse_signed w String.[] = err "cannot parse integer from empty string"
parse_signed w (String.◌∷◌ c String.[]) =
    positive
      (parse_size (2 ^ w - 1) "number too large to fit in target type" 0 (String.◌∷◌ c String.[]))
parse_signed w (String.◌∷◌ c (String.◌∷◌ d s)) =
    if code c == 43
    then positive
        (parse_size (2 ^ w - 1) "number too large to fit in target type" 0 (String.◌∷◌ d s))
    else if code c == 45
    then negative (parse_size (2 ^ w) "number too small to fit in target type" 0 (String.◌∷◌ d s))
    else positive (
        parse_size (2 ^ w - 1) "number too large to fit in target type" 0
          (String.◌∷◌ c (String.◌∷◌ d s)))

abbrev pub parse_i64 : String → Result String ℤ
parse_i64 = parse_signed 63

abbrev pub parse_i32 : String → Result String ℤ
parse_i32 = parse_signed 31

-- What follows a prefix.
unfoldable pub strip_prefix : String → String → Option String
strip_prefix String.[] s = some s
strip_prefix (String.◌∷◌ c p) String.[] = none
strip_prefix (String.◌∷◌ c p) (String.◌∷◌ d s) =
    let rest = strip_prefix p s in if code c == code d then rest else none

abbrev pub begins : String → String → Bool
begins p s = elim (strip_prefix p s) [ none ↦ false | some rest ↦ true ]

-- `s.contains(p)`
unfoldable pub contains : String → String → Bool
unfolding strip_prefix
contains p String.[] = begins p String.[]
contains p (String.◌∷◌ c s) = begins p (String.◌∷◌ c s) || contains p s
