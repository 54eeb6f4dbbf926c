-- ===== src/Tests/StoreExamples.antt =====
-- The theorems on orders and on the inventory at concrete inputs, on the database in memory.
use speed_test.Base.{String, none, some, List, ℤ, pos, ◌≡◌, ◌≢◌, ◌≤◌, refl, ◌⊎◌, ok, err}
use speed_test.Models.{PetStatus, parse_pet_status}
use speed_test.Views.{order_view}
use speed_test.Views.Orders.{OrderStored, OrderGone, kept}
use speed_test.Actix.Response.{Body, ok_json, finish, not_found, internal_error}
use speed_test.Actix.Response.Cases.{Assigned}
use speed_test.Actix.Store.{lookup, get_inventory, place_order, delete_order, get_order_by_id}
use speed_test.Actix.Store.Orders.{
  shown, place_order-refines, delete_order-refines, get_order_by_id-refines,
  get_order_by_id-place_order,
}
use speed_test.Actix.Store.Inventory.{counted, stock, get_inventory-refines}
use speed_test.Tests.Serial.{json, chrono}
use speed_test.Tests.Memory.{memory, fresh, execute}
use speed_test.Tests.Inputs.{filled, an_order, ordered}

get_inventory-refines_example :
    let (r, s') = get_inventory chrono memory filled in
    (memory.tables s' ≡ memory.tables filled)
    × (((m : String) × (r ≡ internal_error m))
        ⊎ ((inv : List (String × ℤ)) × (r ≡ ok_json (Body.inventory inv))
            × ((k : String)
                → lookup k inv ≡ elim (parse_pet_status k) [
                  | ok st ↦ stock (counted json (memory.tables filled) st)
                  | err e ↦ none
                ])
            × ((st : PetStatus) → counted json (memory.tables filled) st ≤ 2147483647)))
get_inventory-refines_example = get_inventory-refines chrono memory json filled

place_order-refines_example :
    let (r, s') = place_order chrono memory an_order fresh in
    ((m : String) × (r ≡ internal_error m) × (memory.tables s' ≡ memory.tables fresh))
    ⊎ ((id : ℤ) × Assigned memory fresh "order_id_seq" an_order.id id
        × (r ≡ ok_json (Body.order (record an_order { id = some id })))
        × OrderStored chrono memory.dialect id
            (kept chrono memory.dialect id an_order)
            (memory.tables fresh)
            (memory.tables s'))
place_order-refines_example = place_order-refines chrono memory an_order fresh

get_order_by_id-place_order_example :
    let r =
      (get_order_by_id chrono memory (pos 5) (place_order chrono memory an_order filled).1).0 in
    (an_order ≡ record an_order { id = some (pos 5) })
    × (((m : String) × (r ≡ internal_error m))
        ⊎ (r ≡ ok_json (Body.order (kept chrono memory.dialect (pos 5) an_order))))
unfolding place_order execute speed_test.Rows.order_values
get_order_by_id-place_order_example =
    get_order_by_id-place_order chrono memory an_order filled an_order (pos 5) refl refl

delete_order-refines_example :
    let (r, s') = delete_order chrono memory (pos 5) ordered in
    ((m : String) × (r ≡ internal_error m) × (memory.tables s' ≡ memory.tables ordered))
    ⊎ ((order_view chrono (memory.tables ordered) (pos 5) ≡ none)
        × (r ≡ not_found "Order not found")
        × (memory.tables s' ≡ memory.tables ordered))
    ⊎ ((order_view chrono (memory.tables ordered) (pos 5) ≢ none)
        × (r ≡ finish)
        × OrderGone chrono memory.dialect (pos 5) (memory.tables ordered) (memory.tables s'))
delete_order-refines_example = delete_order-refines chrono memory (pos 5) ordered

get_order_by_id-refines_example :
    let (r, s') = get_order_by_id chrono memory (pos 5) ordered in
    (memory.tables s' ≡ memory.tables ordered)
    × (((m : String) × (r ≡ internal_error m))
        ⊎ (r ≡ shown chrono memory (order_view chrono (memory.tables ordered) (pos 5))))
get_order_by_id-refines_example = get_order_by_id-refines chrono memory (pos 5) ordered
