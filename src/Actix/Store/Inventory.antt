-- ===== src/Actix/Store/Inventory.antt =====
-- `get_inventory`: how many pets have each status.
use mathlib.Core.List.{Perm, Permᴰ}
use mathlib.Core.Logic.{∥∥₁_elim}
use native.Mathlib.Nat.{ℕ_set}
use speed_test.Base.{
  ℕ, suc, ◌+◌, ◌≤◌, String, Option, none, some, List, [], ◌∷◌, true, false, ℤ, pos, ◌≡◌, ◌∙◌, ap,
  sym, refl, ◌⊎◌, inl, inr, arith, same, string_key, if◌then◌else◌, ok, err, length, ◌==◌, map,
  Result-cases,
}
use speed_test.Models.{PetStatus, pet_status_to_string, parse_pet_status}
use speed_test.Models.Labels.{parse_pet_status_iff}
use speed_test.Serde.{Json, Chrono}
use speed_test.Sql.Schema.{PetRow, Tables, count_by_status}
use speed_test.Sql.Meaning.{sql, select, equals, groups, fits_int, is_pet_label}
use speed_test.Sql.Postgres.{Postgres}
use speed_test.Rows.{pet_of_row}
use speed_test.Views.Catalog.{catalog, has_status, map-select_status}
use speed_test.Actix.Response.{Body, ok_json, internal_error, query}
use speed_test.Actix.Response.Cases.{query-cases}
use speed_test.Actix.Store.{insert, lookup, fill, get_inventory}

lookup-insert :
    (k j : String) (v : ℤ) (m : List (String × ℤ))
    → lookup j (insert k v m) ≡ (if same k j then some v else lookup j m)
unfolding lookup insert
lookup-insert k j v [] = refl
lookup-insert k j v ((i, w) ∷ m) = ground (
  arith,
  string_key.same_iff k j,
  string_key.same_iff i k,
  string_key.same_iff i j,
  lookup-insert k j v m,
)

-- How often a key occurs among the rows, and the sum of its counts: no order shows in these.
times : String → List (String × ℕ) → ℕ
times k [] = 0
times k ((j, n) ∷ rows) = (if same j k then 1 else 0) + times k rows

total : String → List (String × ℕ) → ℕ
total k [] = 0
total k ((j, n) ∷ rows) = (if same j k then n else 0) + total k rows

module _ (k : String) where
  times-permᴰ : (xs ys : List (String × ℕ)) → Permᴰ xs ys → times k xs ≡ times k ys
  unfolding times
  times-permᴰ _ _ Permᴰ.nil = refl
  times-permᴰ _ _ (Permᴰ.cons {a} {b} {l₁} {l₂} e p) = rw e (omega (arith, times-permᴰ l₁ l₂ p))
  times-permᴰ _ _ (Permᴰ.swap e f) = rw (e, f) (omega arith)
  times-permᴰ _ _ (Permᴰ.trans {l₁} {l₂} {l₃} p q) = times-permᴰ l₁ l₂ p ∙ times-permᴰ l₂ l₃ q

  times-perm : {xs ys : List (String × ℕ)} → Perm xs ys → times k xs ≡ times k ys
  times-perm {xs} {ys} p = ∥∥₁_elim p (ℕ_set (times k xs) (times k ys)) (times-permᴰ xs ys)

  total-permᴰ : (xs ys : List (String × ℕ)) → Permᴰ xs ys → total k xs ≡ total k ys
  unfolding total
  total-permᴰ _ _ Permᴰ.nil = refl
  total-permᴰ _ _ (Permᴰ.cons {a} {b} {l₁} {l₂} e p) = rw e (omega (arith, total-permᴰ l₁ l₂ p))
  total-permᴰ _ _ (Permᴰ.swap e f) = rw (e, f) (omega arith)
  total-permᴰ _ _ (Permᴰ.trans {l₁} {l₂} {l₃} p q) = total-permᴰ l₁ l₂ p ∙ total-permᴰ l₂ l₃ q

  total-perm : {xs ys : List (String × ℕ)} → Perm xs ys → total k xs ≡ total k ys
  total-perm {xs} {ys} p = ∥∥₁_elim p (ℕ_set (total k xs) (total k ys)) (total-permᴰ xs ys)

  times-total : (rows : List (String × ℕ)) → times k rows ≡ 0 → total k rows ≡ 0
  unfolding times total
  times-total [] h = refl
  times-total ((j, n) ∷ rows) h = ground (arith, times-total rows)

  -- The map holds a key's count, if its key comes once.
  lookup-fill :
      (rows : List (String × ℕ)) (m : List (String × ℤ))
      → times k rows ≤ 1
      → lookup k (fill rows m)
        ≡ (if times k rows == 0 then lookup k m else some (pos (total k rows)))
  unfolding times total fill
  lookup-fill [] m h = refl
  lookup-fill ((j, n) ∷ rows) m h =
      ground (
        arith,
        lookup-fill rows (insert j (pos n) m),
        lookup-insert j k (pos n) m,
        times-total rows,
      )

same_comm : (a b : String) → same a b ≡ same b a
same_comm a b = ground (arith, string_key.same_iff a b, string_key.same_iff b a)

length-map : {A B : Type 0} (f : A → B) (xs : List A) → length (map f xs) ≡ length xs
length-map f [] = refl
length-map f (x ∷ xs) = ap suc (length-map f xs)

-- The pets of the store with a status.
abbrev pub counted : {N : Type 0} → Json → Tables N → PetStatus → ℕ
counted json t st = length (select (has_status st) (catalog json t))

-- The number that is shown: a status with no pet is left out.
abbrev pub stock : ℕ → Option ℤ
stock n = if n == 0 then none else some (pos n)

not_a_label : (k m : String) → parse_pet_status k ≡ err m → is_pet_label k ≡ false
unfolding parse_pet_status
not_a_label k m h = ground arith

module _ {N : Type 0} (json : Json) (t : Tables N) where
  in_column : PetStatus → ℕ
  in_column st = length (select (λ (r : PetRow). equals r.status (pet_status_to_string st)) t.pets)

  in_column-eq-counted : (st : PetStatus) → in_column st ≡ counted json t st
  unfolding in_column
  in_column-eq-counted st =
      sym (
        length-map (pet_of_row json)
          (select (λ r. equals r.status (pet_status_to_string st)) t.pets))
      ∙ ap length (map-select_status json st t.pets)

  times-groups :
      (st : PetStatus)
      → times (pet_status_to_string st) (groups t.pets) ≡ (if in_column st == 0 then 0 else 1)
  unfolding groups times in_column pet_status_to_string
  times-groups PetStatus.available = ground arith
  times-groups PetStatus.pending = ground arith
  times-groups PetStatus.sold = ground arith

  total-groups : (st : PetStatus) → total (pet_status_to_string st) (groups t.pets) ≡ in_column st
  unfolding groups total in_column pet_status_to_string
  total-groups PetStatus.available = ground arith
  total-groups PetStatus.pending = ground arith
  total-groups PetStatus.sold = ground arith

  times-groups_unknown : (k : String) → is_pet_label k ≡ false → times k (groups t.pets) ≡ 0
  unfolding groups times
  times-groups_unknown k h =
      ground (arith, same_comm "available" k, same_comm "pending" k, same_comm "sold" k)

  in_column-le : (st : PetStatus) → fits_int (groups t.pets) ≡ true → in_column st ≤ 2147483647
  unfolding groups in_column pet_status_to_string
  in_column-le PetStatus.available h = ground arith
  in_column-le PetStatus.pending h = ground arith
  in_column-le PetStatus.sold h = ground arith

  -- The map that is filled from the groups in any order.
  filled :
      (rows : List (String × ℕ)) (k : String)
      → Perm (groups t.pets) rows
      → lookup k (fill rows [])
        ≡ elim (parse_pet_status k) [ ok st ↦ stock (counted json t st) | err e ↦ none ]
  filled rows k perm =
      let once = times-perm k perm in
      let sum = total-perm k perm in
      elim (Result-cases (parse_pet_status k)) [
        | inl (st, e) ↦
            let label : k ≡ pet_status_to_string st = (parse_pet_status_iff k st).0 e in
            let n = times-groups st in
            let m = total-groups st in
            rw e (
              rw (← in_column-eq-counted st)
                (unfold lookup in ground (arith, lookup-fill k rows [], label, n, m)))
        | inr (x, e) ↦
            let unknown : is_pet_label k ≡ false = not_a_label k x e in
            rw e (
              unfold lookup in
              ground (arith, lookup-fill k rows [], times-groups_unknown k unknown))
      ]

module _ (c : Chrono) (pg : Postgres c.NaiveDateTime) (json : Json) where
  open pg use {tables}

  -- No table changes, and the answer is 500, or a map in which the label of a status has the
  -- number of the pets with that status, if there is one, and nothing else has a number; the
  -- numbers are below 2 ^ 31.
  pub get_inventory-refines :
      (s : pg.State)
      → let (r, s') = get_inventory c pg s in
        (tables s' ≡ tables s)
        × (((m : String) × (r ≡ internal_error m))
            ⊎ ((inv : List (String × ℤ)) × (r ≡ ok_json (Body.inventory inv))
                × ((k : String)
                    → lookup k inv ≡ elim (parse_pet_status k) [
                      | ok st ↦ stock (counted json (tables s) st)
                      | err e ↦ none
                    ])
                × ((st : PetStatus) → counted json (tables s) st ≤ 2147483647)))
  get_inventory-refines s =
      let q = count_by_status in
      let s₁ = (query pg {D = c.DateTime} "DB error getting inventory: " q s).1 in
      elim (query-cases pg {D = c.DateTime} "DB error getting inventory: " q s) [
        | inl (rows, e, b, meant, answer) ↦
            let run : get_inventory c pg s ≡ (ok_json (Body.inventory (fill rows [])), s₁) =
              unfold get_inventory in ground arith in
            let found : b ≡ groups (tables s).pets = unfold sql in ground arith in
            let fits : fits_int (groups (tables s).pets) ≡ true = unfold sql in ground arith in
            rw run (
              unfold sql in ground arith,
              inr (
                fill rows [],
                refl,
                λ k. filled json (tables s) rows k (rw (← found) answer),
                λ st.
                    rw (← in_column-eq-counted json (tables s) st)
                      (in_column-le json (tables s) st fits),
              ),
            )
        | inr (m, e, same_tables) ↦
            let run : get_inventory c pg s ≡ (internal_error m, s₁) =
              unfold get_inventory in ground arith in
            rw run (same_tables, inl (m, refl))
      ]
