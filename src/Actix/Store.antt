-- ===== src/Actix/Store.antt =====
-- petshop-stacks/rust/actix/src/handlers/store.rs, handler by handler.
pub mod Orders
pub mod Inventory
use speed_test.Base.{
  ℕ, String, Option, none, some, List, [], ◌∷◌, ℤ, pos, same, string_key, pure, guard_not, ◌>>=◌,
  ◌>>◌, respond, if◌then◌else◌, ◌==◌,
}
use speed_test.Models.{Order}
use speed_test.Serde.{Chrono}
use speed_test.Rows.{order_values, order_of_row}
use speed_test.Sql.Schema.{insert_order, order_by_id, count_by_status}
use speed_test.Sql.Schema
use speed_test.Sql.Postgres.{Postgres}
use speed_test.Actix.Response.{Body, HttpResponse, ok_json, finish, not_found, assign_id, query}

-- `HashMap<String, i32>`, whose order means nothing: `insert` replaces the value of a key.
unfoldable pub insert : String → ℤ → List (String × ℤ) → List (String × ℤ)
insert k v [] = (k, v) ∷ []
insert k v ((j, w) ∷ m) = if same j k then (k, v) ∷ m else (j, w) ∷ insert k v m

-- `HashMap::get`
unfoldable pub lookup : String → List (String × ℤ) → Option ℤ
lookup k [] = none
lookup k ((j, w) ∷ m) = if same j k then some w else lookup k m

-- The loop of `get_inventory` over the rows.
unfoldable pub fill : List (String × ℕ) → List (String × ℤ) → List (String × ℤ)
unfolding insert
fill [] inventory = inventory
fill ((status, cnt) ∷ rows) inventory = fill rows (insert status (pos cnt) inventory)

module _ (c : Chrono) (pg : Postgres c.NaiveDateTime) where
  abbrev Handler : Type 0
  Handler = pg.State → HttpResponse c.DateTime × pg.State

  unfoldable pub get_inventory : Handler
  unfolding fill
  get_inventory = respond do
    rows ← query pg "DB error getting inventory: " count_by_status
    pure (ok_json (Body.inventory (fill rows [])))

  unfoldable pub place_order : Order c.DateTime → Handler
  unfolding assign_id
  place_order order = respond do
    id ← assign_id pg order.id "order_id_seq"
    query pg "DB error placing order: " (insert_order (order_values c id order))
    pure (ok_json (Body.order (record order { id = some id })))

  unfoldable pub delete_order : ℤ → Handler
  delete_order order_id = respond do
    n ← query pg "DB error deleting order: " (Schema.delete_order order_id)
    guard_not (n == 0) (not_found "Order not found")
    pure finish

  unfoldable pub get_order_by_id : ℤ → Handler
  get_order_by_id order_id = respond do
    row ← query pg "DB error fetching order: " (order_by_id order_id)
    pure (elim row [
      | none ↦ not_found "Order not found"
      | some r ↦ ok_json (Body.order (order_of_row c r))
    ])
