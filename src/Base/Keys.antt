-- ===== src/Base/Keys.antt =====
-- Types whose values the program compares: numbers, integers (`i64`, `i32`) and texts.
use Prim.Native.Nat.{ℕ}
use Prim.Native.String.{String}
use mathlib.Core.Path.{◌≡◌, refl}
use mathlib.Core.Logic.{◌↔◌}
use mathlib.Core.Bool.{Bool, true, false}
use native.Mathlib.Omega.{arith}
use text.Mathlib.Text.{◌==◌ as str_eq}
use text.Mathlib.TextEquality.{eq_iff}
use speed_test.Base.Tests.{◌==◌}

-- A test that decides equality.
pub record Key (K : Type 0) : Type 0 where
  pub same : K → K → Bool
  pub same_iff : (a b : K) → (same a b ≡ true) ↔ (a ≡ b)

abbrev pub same : {K : Type 0} ⦃k : Key K⦄ → K → K → Bool
same ⦃k⦄ = k.same

pub same_refl : {K : Type 0} ⦃k : Key K⦄ (a : K) → same a a ≡ true
same_refl ⦃k⦄ a = (k.same_iff a a).1 refl

-- The integers; `negsuc n` is -(n + 1). The program stores, compares and prints them only.
pub data ℤ : Type 0 where
  pos : ℕ → ℤ
  negsuc : ℕ → ℤ

abbrev pub int_eq : ℤ → ℤ → Bool
int_eq (pos a) (pos b) = a == b
int_eq (negsuc a) (negsuc b) = a == b
int_eq _ _ = false

pub int_eq_iff : (a b : ℤ) → (int_eq a b ≡ true) ↔ (a ≡ b)
int_eq_iff (pos a) (pos b) = ground arith
int_eq_iff (negsuc a) (negsuc b) = ground arith
int_eq_iff _ _ = ground arith

instance abbrev pub int_key : Key ℤ
int_key = record { same = int_eq; same_iff = int_eq_iff }

instance abbrev pub string_key : Key String
string_key = record { same = str_eq; same_iff = eq_iff }
