-- ===== src/DbConfig/Pool.antt =====
-- The size of the pool, whatever the environment holds.
use speed_test.Base.{ℕ, ◌+◌, ◌*◌, ◌^◌, ◌≤◌, ◌<◌, String, some, ◌≡◌, arith, Option-cases, inl, inr}
use speed_test.DbConfig.{
  Env, to_digit, parse_digits, parse_u32, trim_start, trim_end, pool_max_connections,
}

parse_digits-bound :
    (n : ℕ) (s : String) (m : ℕ) → n < 2 ^ 32 → parse_digits n s ≡ some m → m < 2 ^ 32
unfolding parse_digits
parse_digits-bound n String.[] m h e = ground arith
parse_digits-bound n (String.◌∷◌ c s) m h e = elim (Option-cases (to_digit c)) [
  | inl f ↦ absurd (ground arith)
  | inr (d, f) ↦ ground (arith, parse_digits-bound (n * 10 + d) s m)
]

parse_u32-bound : (s : String) (m : ℕ) → parse_u32 s ≡ some m → m < 2 ^ 32
unfolding parse_u32
parse_u32-bound String.[] m e = ground arith
parse_u32-bound (String.◌∷◌ c String.[]) m e =
    ground (arith, parse_digits-bound 0 (String.◌∷◌ c "") m)
parse_u32-bound (String.◌∷◌ c (String.◌∷◌ d s)) m e = ground (
  arith,
  parse_digits-bound 0 (String.◌∷◌ d s) m,
  parse_digits-bound 0 (String.◌∷◌ c (String.◌∷◌ d s)) m,
)

-- Whatever the environment holds, the pool has at least one connection and its size is a `u32`.
pub pool_max_connections-bounds :
    (env : Env) → (1 ≤ pool_max_connections env) × (pool_max_connections env < 2 ^ 32)
unfolding pool_max_connections
pool_max_connections-bounds env = elim (Option-cases (env "DB_POOL_MAX")) [
  | inl e ↦ rw e (omega arith, omega arith)
  | inr (v, e) ↦ elim (Option-cases (parse_u32 (trim_end (trim_start v)))) [
    | inl f ↦ rw e (rw f (omega arith, omega arith))
    | inr (n, f) ↦
        let bound = parse_u32-bound (trim_end (trim_start v)) n f in (ground arith, ground arith)
  ]
]
