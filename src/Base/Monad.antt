-- ===== src/Base/Monad.antt =====
-- Results, and code that changes a state and may return early. What was written before an early
-- return stays written, so the state comes back beside the early result too.
use mathlib.Core.Path.{◌≡◌, refl}
use mathlib.Core.Logic.{◌⊎◌, inl, inr}
use mathlib.Core.Bool.{Bool, true, false}
use mathlib.Core.Option.{Option, none, some}

pub data Result (E A : Type 0) : Type 0 where
  ok : A → Result E A
  err : E → Result E A

module _ {E A : Type 0} where
  -- `Result::ok`
  abbrev pub ok? : Result E A → Option A
  ok? (ok a) = some a
  ok? (err e) = none

  -- `Result::unwrap_or_default`, at the default `d`
  abbrev pub or_default : Result E A → A → A
  or_default (ok a) d = a
  or_default (err e) d = d

  pub Result-cases : (r : Result E A) → ((a : A) × (r ≡ ok a)) ⊎ ((e : E) × (r ≡ err e))
  Result-cases (ok a) = inl (a, refl)
  Result-cases (err e) = inr (e, refl)

abbrev pub Exec : Type 0 → Type 0 → Type 0 → Type 0
Exec S E A = S → Result E A × S

module _ {S E A : Type 0} where
  abbrev pub pure : A → Exec S E A
  pure a s = (ok a, s)

  abbrev pub return_early : E → Exec S E A
  return_early e s = (err e, s)

  abbrev pub lift : Result E A → Exec S E A
  lift r s = (r, s)

-- `Result::map_err`, on a result and on the result of a call
abbrev pub map_error : {E F A : Type 0} → (E → F) → Result E A → Result F A
map_error f (ok a) = ok a
map_error f (err e) = err (f e)

abbrev pub map_err : {S E F A : Type 0} → (E → F) → Exec S E A → Exec S F A
map_err f m s = let (r, s') = m s in (map_error f r, s')

abbrev pub guard_not : {S E : Type 0} → Bool → E → Exec S E (Unit {0})
guard_not true e s = (err e, s)
guard_not false e s = (ok tt, s)

infixl 5 ◌>>=◌ ◌>>◌
abbrev pub ◌>>=◌ : {S E A B : Type 0} → Exec S E A → (A → Exec S E B) → Exec S E B
◌>>=◌ m f s = let (r, s') = m s in elim r [ ok a ↦ f a s' | err e ↦ (err e, s') ]

abbrev pub ◌>>◌ : {S E A B : Type 0} → Exec S E A → Exec S E B → Exec S E B
m >> k = m >>= λ _. k

-- A body whose early returns and last value are responses of one type.
abbrev pub respond : {S R : Type 0} → Exec S R R → S → R × S
respond m s = let (r, s') = m s in elim r [ ok a ↦ (a, s') | err a ↦ (a, s') ]
