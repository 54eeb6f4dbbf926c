-- ===== src/Hyper/Agreement/Store.antt =====
-- The store operations of the two servers.
use speed_test.Base.{ℕ, String, Option, none, some, List, [], ◌∷◌, ℤ, pos, arith, refl, ◌≡◌}
use speed_test.Models.{Order}
use speed_test.Serde.{Chrono}
use speed_test.Sql.Postgres.{Postgres}
use speed_test.Actix.Response.{Body, HttpResponse, ok_json, finish, not_found}
use speed_test.Actix.Response
use speed_test.Actix.Store as A
use speed_test.Hyper.Api
use speed_test.Hyper.Api.Store as H
use speed_test.Hyper.Responses.{
  GetInventoryResponse, PlaceOrderResponse, DeleteOrderResponse, GetOrderByIdResponse,
}
use speed_test.Hyper.Agreement.{Same}

module _ {D : Type 0} where
  abbrev pub say_inventory : GetInventoryResponse → Option (HttpResponse D)
  say_inventory (GetInventoryResponse.successful_operation inv) =
      some (ok_json (Body.inventory inv))
  say_inventory _ = none

  abbrev pub say_place : PlaceOrderResponse D → Option (HttpResponse D)
  say_place (PlaceOrderResponse.successful_operation order) = some (ok_json (Body.order order))
  say_place _ = none

  abbrev pub say_delete : DeleteOrderResponse → Option (HttpResponse D)
  say_delete DeleteOrderResponse.successful_operation = some finish
  say_delete DeleteOrderResponse.order_not_found = some (not_found "Order not found")
  say_delete _ = none

  abbrev pub say_by_id : GetOrderByIdResponse D → Option (HttpResponse D)
  say_by_id (GetOrderByIdResponse.successful_operation order) = some (ok_json (Body.order order))
  say_by_id GetOrderByIdResponse.order_not_found = some (not_found "Order not found")
  say_by_id _ = none

fill-fill : (rows : List (String × ℕ)) (m : List (String × ℤ)) → H.fill rows m ≡ A.fill rows m
unfolding H.fill A.fill
fill-fill [] m = refl
fill-fill ((status, cnt) ∷ rows) m = fill-fill rows (A.insert status (pos cnt) m)

module _ (c : Chrono) (pg : Postgres c.NaiveDateTime) where
  pub get_inventory-Same :
      (s : pg.State) → Same say_inventory (H.get_inventory c pg s) (A.get_inventory c pg s)
  unfolding H.get_inventory A.get_inventory
  get_inventory-Same s = grind (arith, fill-fill)

  pub place_order-Same :
      (order : Order c.DateTime) (s : pg.State)
      → Same say_place (H.place_order c pg (some order) s) (A.place_order c pg order s)
  unfolding H.place_order A.place_order Api.assign_id Response.assign_id
  place_order-Same order s = ground arith

  pub delete_order-Same :
      (order_id : ℤ) (s : pg.State)
      → Same say_delete (H.delete_order c pg order_id s) (A.delete_order c pg order_id s)
  unfolding H.delete_order A.delete_order
  delete_order-Same order_id s = ground arith

  pub get_order_by_id-Same :
      (order_id : ℤ) (s : pg.State)
      → Same say_by_id (H.get_order_by_id c pg order_id s) (A.get_order_by_id c pg order_id s)
  unfolding H.get_order_by_id A.get_order_by_id
  get_order_by_id-Same order_id s = ground arith
