-- ===== src/Views/Orders.antt =====
-- What the statements on table "order" do to the store as clients see it.
use speed_test.Base.{ℕ, none, some, ℤ, ◌≡◌, ◌≢◌, arith, same, int_key, if◌then◌else◌, map_option}
use speed_test.Models.{Order}
use speed_test.Serde.{Chrono}
use speed_test.Sql.Table.{find-upsert, find-delete, count-zero, count-none, delete-none}
use speed_test.Sql.Schema.{OrderRow, Tables, insert_order, delete_order}
use speed_test.Sql.Meaning.{Dialect, sql, stored_order}
use speed_test.Rows.{order_values}
use speed_test.Rows.RoundTrip.{order_of_row-stored_order, id-order_values}
use speed_test.Views.{order_view}

module _ (c : Chrono) (d : Dialect c.NaiveDateTime) where
  -- The order as the column keeps it: its date to the precision of a TIMESTAMP.
  abbrev pub kept : ℤ → Order c.DateTime → Order c.DateTime
  kept id order = record order {
    id = some id;
    ship_date = map_option (λ t. c.from_naive_utc (d.timestamp (c.naive_utc t))) order.ship_date;
  }

  -- The store holds `order` under `id`, and is otherwise as it was.
  abbrev pub OrderStored :
      ℤ → Order c.DateTime → Tables c.NaiveDateTime → Tables c.NaiveDateTime → Type 0
  OrderStored id order t t' =
      (k : ℤ) → order_view c t' k ≡ (if same id k then some order else order_view c t k)

  -- The store holds no order under `id`, and is otherwise as it was.
  abbrev pub OrderGone : ℤ → Tables c.NaiveDateTime → Tables c.NaiveDateTime → Type 0
  OrderGone id t t' = (k : ℤ) → order_view c t' k ≡ (if same id k then none else order_view c t k)

  pub insert_order-OrderStored :
      (id : ℤ) (order : Order c.DateTime) (t t' : Tables c.NaiveDateTime) (n : ℕ)
      → sql d (insert_order (order_values c id order)) t ≡ some (n, t')
      → OrderStored id (kept id order) t t'
  unfolding sql
  insert_order-OrderStored id order t t' n h k = ground (
    arith,
    order_of_row-stored_order c d id order,
    id-order_values c id order,
    find-upsert OrderRow.id k (stored_order d (order_values c id order)) t.orders,
  )

  pub delete_order-none :
      (id : ℤ) (t t' : Tables c.NaiveDateTime)
      → sql d (delete_order id) t ≡ some (0, t')
      → (order_view c t id ≡ none) × (t' ≡ t)
  unfolding sql
  delete_order-none id t t' h = (
    ground (arith, count-zero OrderRow.id id t.orders),
    ground (arith, delete-none OrderRow.id id t.orders),
  )

  pub delete_order-OrderGone :
      (id : ℤ) (t t' : Tables c.NaiveDateTime) (n : ℕ)
      → sql d (delete_order id) t ≡ some (n, t')
      → n ≢ 0
      → (order_view c t id ≢ none) × OrderGone id t t'
  unfolding sql
  delete_order-OrderGone id t t' n h some_row = (
    ground (arith, count-none OrderRow.id id t.orders),
    λ k. ground (arith, find-delete OrderRow.id id k t.orders),
  )
