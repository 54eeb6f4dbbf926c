-- ===== src/Actix/Store/Orders.antt =====
-- The order handlers, on the store as clients see it.
use speed_test.Base.{
  String, Option, none, some, ℤ, ◌≡◌, ◌≢◌, ◌∙◌, refl, ◌⊎◌, inl, inr, arith, int_key, Bool-cases,
  ◌==◌,
}
use speed_test.Models.{Order}
use speed_test.Serde.{Chrono}
use speed_test.Sql.Schema.{insert_order, order_by_id}
use speed_test.Sql.Schema
use speed_test.Sql.Meaning.{sql}
use speed_test.Sql.Postgres.{Postgres}
use speed_test.Rows.{order_values}
use speed_test.Views.{order_view}
use speed_test.Views.Orders.{
  OrderStored, OrderGone, kept, insert_order-OrderStored, delete_order-none, delete_order-OrderGone,
}
use speed_test.Actix.Response.{
  Body, HttpResponse, ok_json, finish, not_found, internal_error, assign_id, query,
}
use speed_test.Actix.Response.Cases.{Assigned, assign_id-cases, query-cases}
use speed_test.Actix.Store.{place_order, delete_order, get_order_by_id}

module _ (c : Chrono) (pg : Postgres c.NaiveDateTime) where
  open pg use {State, tables, dialect}

  -- The answer is 500 and no table changes, or 200 with the order under its id, which is then the
  -- stored order of that id, its date as precise as the column keeps it, while every other order
  -- is as before. The id is the one that the client chose, or one that the sequence had not handed
  -- out.
  pub place_order-refines :
      (order : Order c.DateTime) (s : State)
      → let (r, s') = place_order c pg order s in
        ((m : String) × (r ≡ internal_error m) × (tables s' ≡ tables s))
        ⊎ ((id : ℤ) × Assigned pg s "order_id_seq" order.id id
            × (r ≡ ok_json (Body.order (record order { id = some id })))
            × OrderStored c dialect id (kept c dialect id order) (tables s) (tables s'))
  place_order-refines order s =
      elim (assign_id-cases pg {D = c.DateTime} order.id "order_id_seq" s) [
        | inl (id, e, assigned, unmoved) ↦
            let s₁ = (assign_id pg {D = c.DateTime} order.id "order_id_seq" s).1 in
            let q = insert_order (order_values c id order) in
            let s₂ = (query pg {D = c.DateTime} "DB error placing order: " q s₁).1 in
            elim (query-cases pg {D = c.DateTime} "DB error placing order: " q s₁) [
              | inl (a, f, b, meant, answer) ↦
                  let run : place_order c pg order s
                      ≡ (ok_json (Body.order (record order { id = some id })), s₂) =
                    unfold place_order in ground arith in
                  rw run (
                    inr (
                      id,
                      assigned,
                      refl,
                      λ k. rw (← unmoved) (
                          insert_order-OrderStored c dialect id order (tables s₁) (tables s₂) b
                            meant k),
                    ))
              | inr (m, f, same_tables) ↦
                  let run : place_order c pg order s ≡ (internal_error m, s₂) =
                    unfold place_order in ground arith in
                  rw run (inl (m, refl, same_tables ∙ unmoved))
            ]
        | inr (m, e, unmoved) ↦
            let run : place_order c pg order s
                ≡ (internal_error m, (assign_id pg {D = c.DateTime} order.id "order_id_seq" s).1) =
              unfold place_order in ground arith in
            rw run (inl (m, refl, unmoved))
      ]

  -- The answer is 500 and no table changes, or 404 where no order has the id and no table changes,
  -- or 200 where one has, and then no order has the id while every other order is as before.
  pub delete_order-refines :
      (id : ℤ) (s : State)
      → let (r, s') = delete_order c pg id s in
        ((m : String) × (r ≡ internal_error m) × (tables s' ≡ tables s))
        ⊎ ((order_view c (tables s) id ≡ none)
            × (r ≡ not_found "Order not found")
            × (tables s' ≡ tables s))
        ⊎ ((order_view c (tables s) id ≢ none)
            × (r ≡ finish)
            × OrderGone c dialect id (tables s) (tables s'))
  delete_order-refines id s =
      let q = Schema.delete_order id in
      let s₁ = (query pg {D = c.DateTime} "DB error deleting order: " q s).1 in
      elim (query-cases pg {D = c.DateTime} "DB error deleting order: " q s) [
        | inl (n, e, b, meant, answer) ↦ elim (Bool-cases (n == 0)) [
          | inl zero_rows ↦
              let run : delete_order c pg id s ≡ (not_found "Order not found", s₁) =
                unfold delete_order in ground arith in
              let facts = delete_order-none c dialect id (tables s) (tables s₁) (ground arith) in
              rw run (inr (inl (facts.0, refl, facts.1)))
          | inr some_rows ↦
              let run : delete_order c pg id s ≡ (finish, s₁) =
                unfold delete_order in ground arith in
              let facts =
                delete_order-OrderGone c dialect id (tables s) (tables s₁) b meant (ground arith) in
              rw run (inr (inr (facts.0, refl, facts.1)))
        ]
        | inr (m, e, same_tables) ↦
            let run : delete_order c pg id s ≡ (internal_error m, s₁) =
              unfold delete_order in ground arith in
            rw run (inl (m, refl, same_tables))
      ]

  -- The answer for what the store holds.
  abbrev pub shown : Option (Order c.DateTime) → HttpResponse c.DateTime
  shown none = not_found "Order not found"
  shown (some order) = ok_json (Body.order order)

  -- No table changes, and the answer is 500, or the order that the store has under the id, or 404
  -- where it has none.
  pub get_order_by_id-refines :
      (id : ℤ) (s : State)
      → let (r, s') = get_order_by_id c pg id s in
        (tables s' ≡ tables s)
        × (((m : String) × (r ≡ internal_error m)) ⊎ (r ≡ shown (order_view c (tables s) id)))
  get_order_by_id-refines id s =
      let q = order_by_id id in
      let s₁ = (query pg {D = c.DateTime} "DB error fetching order: " q s).1 in
      elim (query-cases pg {D = c.DateTime} "DB error fetching order: " q s) [
        | inl (row, e, b, meant, answer) ↦
            let run : get_order_by_id c pg id s ≡ (shown (order_view c (tables s) id), s₁) =
              unfold get_order_by_id sql in ground arith in
            rw run (unfold sql in ground arith, inr refl)
        | inr (m, e, same_tables) ↦
            let run : get_order_by_id c pg id s ≡ (internal_error m, s₁) =
              unfold get_order_by_id in ground arith in
            rw run (same_tables, inl (m, refl))
      ]

  -- Where place_order answered with an order that has an id, that order is the one sent, under
  -- that id, and get_order_by_id answers with the same order, its date as precise as the column
  -- keeps it, or with 500.
  pub get_order_by_id-place_order :
      (order : Order c.DateTime) (s : State) (placed : Order c.DateTime) (id : ℤ)
      → (place_order c pg order s).0 ≡ ok_json (Body.order placed)
      → placed.id ≡ some id
      → let r = (get_order_by_id c pg id (place_order c pg order s).1).0 in
        (placed ≡ record order { id = some id })
        × (((m : String) × (r ≡ internal_error m))
            ⊎ (r ≡ ok_json (Body.order (kept c dialect id order))))
  get_order_by_id-place_order order s placed id ordered known =
      let read = get_order_by_id-refines id (place_order c pg order s).1 in
      elim (place_order-refines order s) [
        | inl (m, e, _) ↦ absurd (ground arith)
        | inr (id', assigned, e, stored) ↦ ground (arith, stored id, read, int_key.same_iff id' id)
      ]
