-- ===== src/Sql/Meaning.antt =====
-- What the SQL texts say, each as a function on the tables: the answer and the new tables, or `none`
-- where PostgreSQL must refuse (an unknown enum label, a text that is no JSON, NULL in a key).
use speed_test.Base.{
  ℕ, String, Option, none, some, Bool, true, false, ◌&&◌, List, [], ◌∷◌, same, int_key, string_key,
  leb, ◌==◌, if◌then◌else◌, length, map_option, ◌≡◌, unwrap_or,
}
use mathlib.Core.List.{Perm}
use speed_test.Sql.Table.{find, upsert, update, delete, count}
use speed_test.Sql.Schema.{
  PetRow, OrderRow, UserRow, Tables, Statement, Answer, insert_pet, pets_by_status, pets_by_tags,
  update_pet, delete_pet, pet_by_id, update_pet_form, pet_exists, insert_photo, count_by_status,
  insert_order, delete_order, order_by_id, insert_user, password_of, delete_user, user_by_username,
  update_user,
}

-- What the server does with JSON and time values.
pub record Dialect (NaiveDateTime : Type 0) : Type 0 where
  -- the cast `::json` accepts the text
  pub is_json : String → Bool
  -- `t->>'name'` for each `t` of `json_array_elements`
  pub tag_names : String → List (Option String)
  -- a TIMESTAMP column keeps microseconds
  pub timestamp : NaiveDateTime → NaiveDateTime

-- The labels of `pet_status` and `order_status`.
abbrev pub is_pet_label : String → Bool
is_pet_label s =
    if same s "available" then true else if same s "pending" then true else same s "sold"

abbrev pub is_order_label : String → Bool
is_order_label s =
    if same s "placed" then true else if same s "approved" then true else same s "delivered"

-- A test that NULL passes.
abbrev pub if_some : {A : Type 0} → (A → Bool) → Option A → Bool
if_some p none = true
if_some p (some a) = p a

-- `column = value`, which is not true of NULL
abbrev pub equals : Option String → String → Bool
equals none s = false
equals (some r) s = same r s

-- `WHERE p`
unfoldable pub select : {R : Type 0} → (R → Bool) → List R → List R
select p [] = []
select p (r ∷ rows) = let rest = select p rows in if p r then r ∷ rest else rest

-- `value = ANY(list)`
unfoldable pub any_of : Option String → List String → Bool
any_of v [] = false
any_of v (s ∷ list) = let rest = any_of v list in if equals v s then true else rest

-- `EXISTS (SELECT 1 … WHERE t->>'name' = ANY(list))`
unfoldable pub exists_name : List (Option String) → List String → Bool
unfolding any_of
exists_name [] list = false
exists_name (v ∷ names) list =
    let rest = exists_name names list in if any_of v list then true else rest

abbrev pub tagged : {N : Type 0} → Dialect N → List String → PetRow → Bool
tagged d names r = elim r.tags [ none ↦ false | some text ↦ exists_name (d.tag_names text) names ]

-- `COALESCE(value, column)`
abbrev pub coalesce : Option String → Option String → Option String
coalesce none column = column
coalesce (some v) column = some v

-- `SET name = COALESCE($2, name), status = COALESCE($3::pet_status, status)`
abbrev pub set_form : Option String → Option String → PetRow → PetRow
set_form name status r = record r {
  name = unwrap_or name r.name;
  status = coalesce status r.status;
}

-- One group of `GROUP BY status`; a group has a row.
abbrev pub group : List PetRow → String → List (String × ℕ) → List (String × ℕ)
group pets label groups =
    let n = length (select (λ (r : PetRow). equals r.status label) pets) in
    if n == 0 then groups else (label, n) ∷ groups

unfoldable pub groups : List PetRow → List (String × ℕ)
groups pets = group pets "available" (group pets "pending" (group pets "sold" []))

-- `CAST(COUNT(*) AS int)` is out of range from 2 ^ 31 on.
abbrev pub fits_int : List (String × ℕ) → Bool
fits_int [] = true
fits_int ((label, n) ∷ rest) = leb n 2147483647 && fits_int rest

module _ {N : Type 0} (d : Dialect N) where
  abbrev pub accepts_pet : PetRow → Bool
  accepts_pet r =
      d.is_json r.photo_urls && if_some d.is_json r.tags && if_some is_pet_label r.status

  -- The row that an INSERT into "order" leaves.
  abbrev pub stored_order : OrderRow N → OrderRow N
  stored_order r = record r { ship_date = map_option d.timestamp r.ship_date }

  unfoldable pub sql : (q : Statement N) → Tables N → Option (Answer q × Tables N)
  sql (insert_pet r) t =
      if accepts_pet r then some (1, record t { pets = upsert PetRow.id r t.pets }) else none
  sql (pets_by_status label) t =
      if is_pet_label label then some (select (λ r. equals r.status label) t.pets, t) else none
  sql (pets_by_tags names) t = some (select (tagged d names) t.pets, t)
  sql (update_pet r) t =
      if accepts_pet r
      then some (
        count PetRow.id r.id t.pets,
        record t { pets = update PetRow.id r.id (λ old. record r { id = old.id }) t.pets },
      )
      else none
  sql (delete_pet id) t =
      some (count PetRow.id id t.pets, record t { pets = delete PetRow.id id t.pets })
  sql (pet_by_id id) t = some (find PetRow.id id t.pets, t)
  sql (update_pet_form id name status) t =
      if if_some is_pet_label status
      then some (
        count PetRow.id id t.pets,
        record t { pets = update PetRow.id id (set_form name status) t.pets },
      )
      else none
  sql (pet_exists id) t = some (elim (find PetRow.id id t.pets) [ none ↦ false | some r ↦ true ], t)
  sql (insert_photo r) t = some (1, record t { photos = r ∷ t.photos })
  sql count_by_status t = let rows = groups t.pets in if fits_int rows then some (rows, t) else none
  sql (insert_order r) t =
      if if_some is_order_label r.status
      then some (1, record t { orders = upsert OrderRow.id (stored_order r) t.orders })
      else none
  sql (delete_order id) t =
      some (count OrderRow.id id t.orders, record t { orders = delete OrderRow.id id t.orders })
  sql (order_by_id id) t = some (find OrderRow.id id t.orders, t)
  sql (insert_user none columns) t = none
  sql (insert_user (some username) columns) t = some (
    1,
    record t {
      users = upsert UserRow.username (record { username = username; columns = columns }) t.users;
    },
  )
  sql (password_of username) t =
      some (map_option (λ r. r.columns.password) (find UserRow.username username t.users), t)
  sql (delete_user username) t = some (
    count UserRow.username username t.users,
    record t { users = delete UserRow.username username t.users },
  )
  sql (user_by_username username) t = some (find UserRow.username username t.users, t)
  sql (update_user username columns) t = some (
    count UserRow.username username t.users,
    record t {
      users = update UserRow.username username (λ r. record r { columns = columns }) t.users;
    },
  )

-- A SELECT of many rows has no order; every other answer is one value.
abbrev pub SameAnswer : {N : Type 0} (q : Statement N) → Answer q → Answer q → Type 0
SameAnswer (pets_by_status label) b a = Perm b a
SameAnswer (pets_by_tags names) b a = Perm b a
SameAnswer count_by_status b a = Perm b a
SameAnswer _ b a = b ≡ a
