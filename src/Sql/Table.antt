-- ===== src/Sql/Table.antt =====
-- A table with a primary key, as the list of its rows: what INSERT … ON CONFLICT DO UPDATE, UPDATE,
-- DELETE and SELECT by that key do, and the laws that the clients use.
use speed_test.Base.{
  ℕ, suc, ◌≡◌, refl, Option, none, some, List, [], ◌∷◌, arith, Key, same, if◌then◌else◌, map_option,
}

module _ {K R : Type 0} ⦃e : Key K⦄ (key : R → K) where
  -- `SELECT … WHERE key = k`
  unfoldable pub find : K → List R → Option R
  find k [] = none
  find k (r ∷ rows) = if same (key r) k then some r else find k rows

  -- `INSERT … ON CONFLICT (key) DO UPDATE` of every other column
  unfoldable pub upsert : R → List R → List R
  upsert new [] = new ∷ []
  upsert new (r ∷ rows) = if same (key r) (key new) then new ∷ rows else r ∷ upsert new rows

  -- `UPDATE … WHERE key = k`
  unfoldable pub update : K → (R → R) → List R → List R
  update k f [] = []
  update k f (r ∷ rows) =
      let rest = update k f rows in if same (key r) k then f r ∷ rest else r ∷ rest

  -- `DELETE … WHERE key = k`
  unfoldable pub delete : K → List R → List R
  delete k [] = []
  delete k (r ∷ rows) = let rest = delete k rows in if same (key r) k then rest else r ∷ rest

  -- The rows that a WHERE on the key selects: `rows_affected` of an UPDATE or a DELETE.
  unfoldable pub count : K → List R → ℕ
  count k [] = 0
  count k (r ∷ rows) = let rest = count k rows in if same (key r) k then suc rest else rest

  -- A row that is found has the key that was looked for.
  pub find-key : (k : K) (r : R) (rows : List R) → find k rows ≡ some r → key r ≡ k
  unfolding find
  find-key k r [] h = cc
  find-key k r (x ∷ rows) h = ground (arith, e.same_iff (key x) k, find-key k r rows)

  pub find-upsert :
      (k : K) (new : R) (rows : List R)
      → find k (upsert new rows) ≡ (if same (key new) k then some new else find k rows)
  unfolding find upsert
  find-upsert k new [] = refl
  find-upsert k new (r ∷ rows) = ground (
    arith,
    e.same_iff (key new) k,
    e.same_iff (key r) k,
    e.same_iff (key r) (key new),
    find-upsert k new rows,
  )

  pub find-delete :
      (j k : K) (rows : List R) → find k (delete j rows) ≡ (if same j k then none else find k rows)
  unfolding find delete
  find-delete j k [] = ground arith
  find-delete j k (r ∷ rows) =
      ground
        (arith, e.same_iff j k, e.same_iff (key r) k, e.same_iff (key r) j, find-delete j k rows)

  -- An UPDATE that keeps the key of each row.
  pub find-update :
      (j k : K) (f : R → R) (rows : List R)
      → ((r : R) → key (f r) ≡ key r)
      → find k (update j f rows) ≡ (if same j k then map_option f (find k rows) else find k rows)
  unfolding find update
  find-update j k f [] keeps = ground arith
  find-update j k f (r ∷ rows) keeps = ground (
    arith,
    keeps r,
    e.same_iff j k,
    e.same_iff (key r) k,
    e.same_iff (key r) j,
    e.same_iff (key (f r)) k,
    find-update j k f rows keeps,
  )

  -- No row is counted exactly when none is found.
  pub count-zero : (k : K) (rows : List R) → count k rows ≡ 0 → find k rows ≡ none
  unfolding find count
  count-zero k [] h = refl
  count-zero k (r ∷ rows) h = ground (arith, count-zero k rows)

  -- An UPDATE that hits no row writes nothing.
  pub update-none : (k : K) (f : R → R) (rows : List R) → count k rows ≡ 0 → update k f rows ≡ rows
  unfolding update count
  update-none k f [] h = refl
  update-none k f (r ∷ rows) h = ground (arith, update-none k f rows)

  -- Nor does such a DELETE.
  pub delete-none : (k : K) (rows : List R) → count k rows ≡ 0 → delete k rows ≡ rows
  unfolding delete count
  delete-none k [] h = refl
  delete-none k (r ∷ rows) h = ground (arith, delete-none k rows)

  pub count-none : (k : K) (rows : List R) → find k rows ≡ none → count k rows ≡ 0
  unfolding find count
  count-none k [] h = refl
  count-none k (r ∷ rows) h = ground (arith, count-none k rows)
