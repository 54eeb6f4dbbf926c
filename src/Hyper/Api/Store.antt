-- ===== src/Hyper/Api/Store.antt =====
-- The store operations of petshop-stacks/rust/hyper/examples/server/server.rs.
use speed_test.Base.{
  ℕ, String, Option, none, some, List, [], ◌∷◌, ℤ, pos, Result, ok, err, pure, lift, guard_not,
  ◌>>=◌, ◌>>◌, respond, ◌==◌,
}
use speed_test.Models.{Order}
use speed_test.Serde.{Chrono}
use speed_test.Rows.{order_values, order_of_row}
use speed_test.Sql.Schema.{insert_order, order_by_id, count_by_status}
use speed_test.Sql.Schema
use speed_test.Sql.Postgres.{Postgres}
use speed_test.Actix.Store.{insert}
use speed_test.Hyper.Responses.{
  GetInventoryResponse, PlaceOrderResponse, DeleteOrderResponse, GetOrderByIdResponse,
}
use speed_test.Hyper.Api.{assign_id, query}

-- The loop of `get_inventory` over the rows.
unfoldable pub fill : List (String × ℕ) → List (String × ℤ) → List (String × ℤ)
fill [] inventory = inventory
fill ((status, cnt) ∷ rows) inventory = fill rows (insert status (pos cnt) inventory)

module _ (c : Chrono) (pg : Postgres c.NaiveDateTime) where
  abbrev Handler : Type 0 → Type 0
  Handler R = pg.State → Result String R × pg.State

  unfoldable pub get_inventory : Handler GetInventoryResponse
  get_inventory = respond do
    rows ← query pg "DB error getting inventory: " count_by_status
    pure (ok (GetInventoryResponse.successful_operation (fill rows [])))

  unfoldable pub place_order : Option (Order c.DateTime) → Handler (PlaceOrderResponse c.DateTime)
  unfolding assign_id
  place_order order = respond do
    order ← lift (elim order [ none ↦ err (ok PlaceOrderResponse.invalid_input) | some o ↦ ok o ])
    id ← assign_id pg order.id "order_id_seq"
    query pg "DB error placing order: " (insert_order (order_values c id order))
    pure (ok (PlaceOrderResponse.successful_operation (record order { id = some id })))

  unfoldable pub delete_order : ℤ → Handler DeleteOrderResponse
  delete_order order_id = respond do
    n ← query pg "DB error deleting order: " (Schema.delete_order order_id)
    guard_not (n == 0) (ok DeleteOrderResponse.order_not_found)
    pure (ok DeleteOrderResponse.successful_operation)

  unfoldable pub get_order_by_id : ℤ → Handler (GetOrderByIdResponse c.DateTime)
  get_order_by_id order_id = respond do
    row ← query pg "DB error fetching order: " (order_by_id order_id)
    pure (elim row [
      | none ↦ ok GetOrderByIdResponse.order_not_found
      | some r ↦ ok (GetOrderByIdResponse.successful_operation (order_of_row c r))
    ])
