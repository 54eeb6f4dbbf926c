-- ===== src/Tests/Serial.antt =====
-- A way to write values as texts and read them back, for the tests: it stands in for `serde_json`.
use Prim.Native.Char.{Char, code}
use speed_test.Base.{
  ℕ, zero, suc, String, ◌≡◌, refl, Option, none, some, Bool, List, [], ◌∷◌, ℤ, pos, negsuc, arith,
  ◌==◌, if◌then◌else◌, length, Result, ok, err,
}
use speed_test.Models.{Category, Tag}
use speed_test.Serde.{Codec, Json, Chrono}

abbrev pub is_one : Char → Bool
is_one c = code c == 49

pub record Coder (A : Type 0) : Type 0 where
  pub put : A → String → String
  pub take : String → Option (A × String)
  pub take-put : (a : A) (rest : String) → take (put a rest) ≡ some (a, rest)

-- Numbers in unary.
unfoldable pub put_nat : ℕ → String → String
put_nat zero rest = String.◌∷◌ "0" rest
put_nat (suc n) rest = String.◌∷◌ "1" (put_nat n rest)

abbrev pub more : Option (ℕ × String) → Option (ℕ × String)
more none = none
more (some (n, rest)) = some (suc n, rest)

unfoldable pub take_nat : String → Option (ℕ × String)
take_nat String.[] = none
take_nat (String.◌∷◌ c s) = let rest = take_nat s in if is_one c then more rest else some (0, s)

pub take-put_nat : (n : ℕ) (rest : String) → take_nat (put_nat n rest) ≡ some (n, rest)
unfolding put_nat take_nat
take-put_nat zero rest = refl
take-put_nat (suc n) rest = rw (take-put_nat n rest)

-- Each character behind a "1".
unfoldable pub put_text : String → String → String
put_text String.[] rest = String.◌∷◌ "0" rest
put_text (String.◌∷◌ c s) rest = String.◌∷◌ "1" (String.◌∷◌ c (put_text s rest))

abbrev pub push : Char → Option (String × String) → Option (String × String)
push c none = none
push c (some (s, rest)) = some (String.◌∷◌ c s, rest)

unfoldable pub take_text : String → Option (String × String)
take_text String.[] = none
take_text (String.◌∷◌ c String.[]) = if is_one c then none else some (String.[], String.[])
take_text (String.◌∷◌ c (String.◌∷◌ x s)) =
    let rest = take_text s in if is_one c then push x rest else some (String.[], String.◌∷◌ x s)

pub take-put_text : (s rest : String) → take_text (put_text s rest) ≡ some (s, rest)
unfolding put_text take_text
take-put_text String.[] String.[] = refl
take-put_text String.[] (String.◌∷◌ x s) = refl
take-put_text (String.◌∷◌ c s) rest = rw (take-put_text s rest)

abbrev pub nat_coder : Coder ℕ
nat_coder = record { put = put_nat; take = take_nat; take-put = take-put_nat }

abbrev pub text_coder : Coder String
text_coder = record { put = put_text; take = take_text; take-put = take-put_text }

-- A value built from two others, or from one.
module _ {A B C : Type 0} (a : Coder A) (b : Coder B) (join : A → B → C) (left : C → A)
    (right : C → B) (whole : (c : C) → join (left c) (right c) ≡ c) where
  abbrev pub join_take : Option (A × String) → Option (C × String)
  join_take none = none
  join_take (some (x, s)) = elim (b.take s) [ none ↦ none | some (y, t) ↦ some (join x y, t) ]

  pub join_take-put :
      (c : C) (rest : String)
      → join_take (a.take (a.put (left c) (b.put (right c) rest))) ≡ some (c, rest)
  join_take-put c rest =
      ground (arith, a.take-put (left c) (b.put (right c) rest), b.take-put (right c) rest, whole c)

  abbrev pub pair_coder : Coder C
  pair_coder = record {
    put = λ c rest. a.put (left c) (b.put (right c) rest);
    take = λ s. join_take (a.take s);
    take-put = join_take-put;
  }

module _ {A : Type 0} (a : Coder A) where
  unfoldable pub put_option : Option A → String → String
  put_option none rest = put_nat 0 rest
  put_option (some x) rest = put_nat 1 (a.put x rest)

  abbrev pub just : Option (A × String) → Option (Option A × String)
  just none = none
  just (some (x, s)) = some (some x, s)

  unfoldable pub take_option : String → Option (Option A × String)
  take_option s = elim (take_nat s) [
    | none ↦ none
    | some (n, rest) ↦ if n == 0 then some (none, rest) else just (a.take rest)
  ]

  pub take-put_option :
      (o : Option A) (rest : String) → take_option (put_option o rest) ≡ some (o, rest)
  unfolding put_option take_option
  take-put_option none rest = ground (arith, take-put_nat 0 rest)
  take-put_option (some x) rest = ground (arith, take-put_nat 1 (a.put x rest), a.take-put x rest)

  abbrev pub option_coder : Coder (Option A)
  option_coder = record { put = put_option; take = take_option; take-put = take-put_option }

  unfoldable pub put_all : List A → String → String
  put_all [] rest = rest
  put_all (x ∷ xs) rest = a.put x (put_all xs rest)

  abbrev pub cons_to : A → Option (List A × String) → Option (List A × String)
  cons_to x none = none
  cons_to x (some (xs, s)) = some (x ∷ xs, s)

  unfoldable pub take_all : ℕ → String → Option (List A × String)
  take_all zero s = some ([], s)
  take_all (suc n) s = elim (a.take s) [ none ↦ none | some (x, t) ↦ cons_to x (take_all n t) ]

  pub take-put_all :
      (xs : List A) (rest : String) → take_all (length xs) (put_all xs rest) ≡ some (xs, rest)
  unfolding put_all take_all
  take-put_all [] rest = refl
  take-put_all (x ∷ xs) rest = ground (arith, a.take-put x (put_all xs rest), take-put_all xs rest)

  unfoldable pub take_list : String → Option (List A × String)
  take_list s = elim (take_nat s) [ none ↦ none | some (n, rest) ↦ take_all n rest ]

  pub take-put_list :
      (xs : List A) (rest : String)
      → take_list (put_nat (length xs) (put_all xs rest)) ≡ some (xs, rest)
  unfolding take_list
  take-put_list xs rest =
      ground (arith, take-put_nat (length xs) (put_all xs rest), take-put_all xs rest)

  abbrev pub list_coder : Coder (List A)
  list_coder = record {
    put = λ xs rest. put_nat (length xs) (put_all xs rest);
    take = take_list;
    take-put = take-put_list;
  }

-- An integer as a sign and a number.
abbrev pub to_int : ℕ → ℕ → ℤ
to_int zero n = pos n
to_int (suc k) n = negsuc n

abbrev pub sign_of : ℤ → ℕ
sign_of (pos n) = 0
sign_of (negsuc n) = 1

abbrev pub size_of : ℤ → ℕ
size_of (pos n) = n
size_of (negsuc n) = n

pub to_int-parts : (z : ℤ) → to_int (sign_of z) (size_of z) ≡ z
to_int-parts (pos n) = refl
to_int-parts (negsuc n) = refl

abbrev pub int_coder : Coder ℤ
int_coder = pair_coder nat_coder nat_coder to_int sign_of size_of to_int-parts

abbrev pub category_coder : Coder Category
category_coder =
    pair_coder (option_coder int_coder) (option_coder text_coder)
      (λ i n. record { id = i; name = n }) (λ c. c.id) (λ c. c.name) (λ c. refl)

abbrev pub tag_coder : Coder Tag
tag_coder =
    pair_coder (option_coder int_coder) (option_coder text_coder)
      (λ i n. record { id = i; name = n }) (λ c. c.id) (λ c. c.name) (λ c. refl)

module _ {A : Type 0} (a : Coder A) where
  abbrev pub parsed : Option (A × String) → Result String A
  parsed none = err "malformed"
  parsed (some (x, s)) = ok x

  pub parsed-put : (x : A) → parsed (a.take (a.put x String.[])) ≡ ok x
  parsed-put x = ground (arith, a.take-put x String.[])

  abbrev pub codec : Codec A
  codec = record {
    to_string = λ x. ok (a.put x String.[]);
    from_str = λ s. parsed (a.take s);
    text = λ x. a.put x String.[];
    writes = λ x. refl;
    reads = parsed-put;
  }

abbrev pub json : Json
json = record {
  category = codec category_coder;
  urls = codec (list_coder text_coder);
  tags = codec (list_coder tag_coder);
}

-- Instants as numbers.
abbrev pub chrono : Chrono
chrono = record {
  DateTime = ℕ;
  NaiveDateTime = ℕ;
  naive_utc = λ t. t;
  from_naive_utc = λ t. t;
  from-naive_utc = λ t. refl;
}
