-- ===== src/Tests/Memory.antt =====
-- A database in memory that keeps every promise of `Postgres`: it runs the meaning of a statement,
-- and refuses what has none.
use mathlib.Core.List.Perm
use speed_test.Base.{
  Bool, false, ℕ, suc, ◌≤◌, ◌<◌, String, ◌≡◌, refl, Option, none, some, Result, ok, err, arith,
  same, string_key, if◌then◌else◌, map, or_default, true, false, [], ◌/◌, ◌*◌, ap,
}
use speed_test.Models.{Tag}
use speed_test.Sql.Schema.{Tables, Statement, Answer, pets_by_status, pets_by_tags, count_by_status}
use speed_test.Sql.Meaning.{Dialect, sql, SameAnswer}
use speed_test.Sql.Postgres.{Postgres}
use speed_test.Tests.Serial.{json}

pub record Db : Type 0 where
  pub content : Tables ℕ
  pub counter : String → ℕ

-- The tests write JSON in a way of their own, and never as the empty text.
abbrev pub is_written : String → Bool
is_written String.[] = false
is_written (String.◌∷◌ c s) = true

abbrev pub dialect : Dialect ℕ
dialect = record {
  is_json = is_written;
  tag_names = λ s. map (λ (t : Tag). t.name) (or_default (json.tags.from_str s) []);
  timestamp = λ t. t / 1000 * 1000;
}

abbrev pub outcome :
    (q : Statement ℕ) → Db → Option (Answer q × Tables ℕ) → Result String (Answer q) × Db
outcome q s none = (err "refused", s)
outcome q s (some (a, t)) = (ok a, record s { content = t })

unfoldable pub execute : (q : Statement ℕ) → Db → Result String (Answer q) × Db
unfolding sql
execute q s = outcome q s (sql dialect q s.content)

SameAnswer-refl : (q : Statement ℕ) (a : Answer q) → SameAnswer q a a
SameAnswer-refl (pets_by_status label) a = Perm.refl a
SameAnswer-refl (pets_by_tags names) a = Perm.refl a
SameAnswer-refl count_by_status a = Perm.refl a
SameAnswer-refl _ a = refl

outcome-ok :
    (q : Statement ℕ) (s : Db) (o : Option (Answer q × Tables ℕ)) (a : Answer q)
    → (outcome q s o).0 ≡ ok a
    → o ≡ some (a, (outcome q s o).1.content)
outcome-ok q s none a h = cc
outcome-ok q s (some (b, t)) a h = cc

outcome-err :
    (q : Statement ℕ) (s : Db) (o : Option (Answer q × Tables ℕ)) (e : String)
    → (outcome q s o).0 ≡ err e
    → (outcome q s o).1.content ≡ s.content
outcome-err q s none e h = refl
outcome-err q s (some (b, t)) e h = cc

counter-outcome :
    (q : Statement ℕ) (s : Db) (o : Option (Answer q × Tables ℕ))
    → (outcome q s o).1.counter ≡ s.counter
counter-outcome q s none = refl
counter-outcome q s (some (b, t)) = refl

pub execute-ok :
    (q : Statement ℕ) (s : Db) (a : Answer q)
    → (execute q s).0 ≡ ok a
    → (b : Answer q) × (sql dialect q s.content ≡ some (b, (execute q s).1.content))
      × SameAnswer q b a
execute-ok q s a h =
    (a, unfold execute in outcome-ok q s (sql dialect q s.content) a h, SameAnswer-refl q a)

pub execute-err :
    (q : Statement ℕ) (s : Db) (e : String)
    → (execute q s).0 ≡ err e
    → (execute q s).1.content ≡ s.content
unfolding execute
execute-err q s e h = outcome-err q s (sql dialect q s.content) e h

pub issued-execute :
    (q : Statement ℕ) (s : Db) (name : String) → s.counter name ≤ (execute q s).1.counter name
unfolding execute
issued-execute q s name =
    omega (arith, ap (λ (f : String → ℕ). f name) (counter-outcome q s (sql dialect q s.content)))

unfoldable pub nextval : String → Db → Result String ℕ × Db
nextval name s =
    let n = suc (s.counter name) in
    (ok n, record s { counter = λ other. if same other name then n else s.counter other })

pub tables-nextval : (name : String) (s : Db) → (nextval name s).1.content ≡ s.content
unfolding nextval
tables-nextval name s = refl

pub issued-nextval :
    (name : String) (s : Db) (n : ℕ)
    → (nextval name s).0 ≡ ok n
    → (s.counter name < n) × ((nextval name s).1.counter name ≡ n)
unfolding nextval
issued-nextval name s n h = ground (arith, string_key.same_iff name name)

pub nextval_grows :
    (name other : String) (s : Db) → s.counter other ≤ (nextval name s).1.counter other
unfolding nextval
nextval_grows name other s = ground (arith, string_key.same_iff other name)

abbrev pub memory : Postgres ℕ
memory = record {
  State = Db;
  tables = λ s. s.content;
  dialect = dialect;
  execute = execute;
  nextval = nextval;
  issued = λ s. s.counter;
  execute-ok = execute-ok;
  execute-err = execute-err;
  issued-execute = issued-execute;
  tables-nextval = tables-nextval;
  issued-nextval = issued-nextval;
  nextval_grows = nextval_grows;
}

-- The database as it is created.
abbrev pub fresh : Db
fresh = record {
  content = record { pets = []; photos = []; orders = []; users = [] };
  counter = λ name. 0;
}
