-- ===== src/DbConfig.antt =====
-- petshop-stacks/rust/actix/src/db_config.rs and its copy in petshop-stacks/rust/hyper/src: the address
-- of the database and the size of the pool, from the environment.
pub mod Pool
pub mod Dsn
use Prim.Native.Char.{Char, code}
use speed_test.Base.{
  ℕ, ◌+◌, ◌-◌, ◌*◌, ◌^◌, String, ◌++◌, Option, none, some, Bool, true, false, ◌&&◌, ltb, leb, ◌==◌,
  if◌then◌else◌, unwrap_or, and_then,
}

-- `env::var(…).ok()`: no value where the variable is unset or no Unicode.
abbrev pub Env : Type 0
Env = String → Option String

-- `env::var(a).or_else(|_| env::var(b)).unwrap_or_else(|_| d)`
abbrev pub setting : Env → String → String → String → String
setting env canonical alias d =
    unwrap_or (elim (env canonical) [ some v ↦ some v | none ↦ env alias ]) d

-- `build_dsn` of the Actix server
unfoldable pub actix_build_dsn : Env → String
actix_build_dsn env = elim (env "DATABASE_URL") [
  | some url ↦ url
  | none ↦
      let host = setting env "POSTGRES_HOST" "PGHOST" "localhost" in
      let port = setting env "POSTGRES_PORT" "PGPORT" "5434" in
      let user = setting env "POSTGRES_USER" "PGUSER" "myuser" in
      let password = setting env "POSTGRES_PASSWORD" "PGPASSWORD" "mypassword" in
      let db = setting env "POSTGRES_DB" "PGDATABASE" "rust-actix" in
      "postgresql://" ++ user ++ ":" ++ password ++ "@" ++ host ++ ":" ++ port ++ "/" ++ db
]

-- `build_dsn` of the Hyper server
unfoldable pub hyper_build_dsn : Env → String
hyper_build_dsn env = elim (env "DATABASE_URL") [
  | some url ↦ url
  | none ↦
      let host = setting env "POSTGRES_HOST" "PGHOST" "localhost" in
      let port = setting env "POSTGRES_PORT" "PGPORT" "5434" in
      let user = setting env "POSTGRES_USER" "PGUSER" "myuser" in
      let password = setting env "POSTGRES_PASSWORD" "PGPASSWORD" "mypassword" in
      let db = setting env "POSTGRES_DB" "PGDATABASE" "rust-server" in
      "postgresql://" ++ user ++ ":" ++ password ++ "@" ++ host ++ ":" ++ port ++ "/" ++ db
]

-- `char::is_whitespace`
unfoldable pub is_whitespace : Char → Bool
is_whitespace c =
    let n = code c in
    if leb 9 n && leb n 13
    then true
    else if n == 32
    then true
    else if n == 133
    then true
    else if n == 160
    then true
    else if n == 5760
    then true
    else if leb 8192 n && leb n 8202
    then true
    else if n == 8232
    then true
    else if n == 8233
    then true
    else if n == 8239
    then true
    else if n == 8287
    then true
    else n == 12288

-- `str::trim`, at each end
unfoldable pub trim_start : String → String
unfolding is_whitespace
trim_start String.[] = ""
trim_start (String.◌∷◌ c s) =
    let rest = trim_start s in if is_whitespace c then rest else String.◌∷◌ c s

unfoldable pub trim_end : String → String
unfolding is_whitespace
trim_end String.[] = ""
trim_end (String.◌∷◌ c s) = elim (trim_end s) [
  | String.[] ↦ if is_whitespace c then "" else String.◌∷◌ c ""
  | String.◌∷◌ d t ↦ String.◌∷◌ c (String.◌∷◌ d t)
]

-- `char::to_digit(10)`
unfoldable pub to_digit : Char → Option ℕ
to_digit c = let n = code c in if leb 48 n && leb n 57 then some (n - 48) else none

-- The digits after a number: `checked_mul` by ten and `checked_add` stay below 2 ^ 32.
unfoldable pub parse_digits : ℕ → String → Option ℕ
unfolding to_digit
parse_digits n String.[] = some n
parse_digits n (String.◌∷◌ c s) = elim (to_digit c) [
  | none ↦ none
  | some d ↦ if ltb (n * 10 + d) (2 ^ 32) then parse_digits (n * 10 + d) s else none
]

-- `parse::<u32>`: digits, perhaps behind a plus sign, and at least one
unfoldable pub parse_u32 : String → Option ℕ
unfolding parse_digits
parse_u32 String.[] = none
parse_u32 (String.◌∷◌ c String.[]) = if code c == 43 then none else parse_digits 0 (String.◌∷◌ c "")
parse_u32 (String.◌∷◌ c (String.◌∷◌ d s)) =
    if code c == 43
    then parse_digits 0 (String.◌∷◌ d s)
    else parse_digits 0 (String.◌∷◌ c (String.◌∷◌ d s))

-- `filter(|&n| n > 0)`
abbrev pub positive : Option ℕ → Option ℕ
positive none = none
positive (some n) = if ltb 0 n then some n else none

unfoldable pub pool_max_connections : Env → ℕ
unfolding parse_u32 trim_start trim_end
pool_max_connections env =
    unwrap_or (positive (and_then (env "DB_POOL_MAX") (λ v. parse_u32 (trim_end (trim_start v)))))
      10
