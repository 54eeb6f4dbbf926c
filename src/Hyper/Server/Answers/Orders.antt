-- ===== src/Hyper/Server/Answers/Orders.antt =====
-- The handlers of Server/Store answer.
use speed_test.Base.{
  ◌≡◌, refl, some, true, lift, respond, ◌>>=◌, inl, inr, Result-cases, Option-cases,
}
use speed_test.Hyper.Http.{Request, Wire}
use speed_test.Hyper.Interface.{Api}
use speed_test.Hyper.Paths.{PathId, matched}
use speed_test.Hyper.Server.Access.{Context, call_api, authenticate}
use speed_test.Hyper.Server.Params.{path_i64, read_body, optional_body}
use speed_test.Hyper.Server.Write.{
  write_get_inventory, write_place_order, write_delete_order, write_get_order_by_id,
}
use speed_test.Hyper.Server.Statuses.{
  IsAnswer, write_get_inventory-IsAnswer, write_place_order-IsAnswer, write_delete_order-IsAnswer,
  write_get_order_by_id-IsAnswer,
}
use speed_test.Hyper.Server.Store.{
  handle_get_inventory, handle_place_order, handle_delete_order, handle_get_order_by_id,
}
use speed_test.Hyper.Server.Answers.{
  is_ok, IsTotal, ends_authenticate, ends_read_body, ends_path_i64, finish_answers,
}

module _ {DateTime S : Type 0} (w : Wire DateTime) (api : Api DateTime S) (t : IsTotal api)
    (context : Context) (request : Request)
    (span : is_ok (w.header_value context.span_id) ≡ true) where
  pub get_inventory_answers : (s : S) → IsAnswer (handle_get_inventory w api context request s).0
  unfolding handle_get_inventory
  get_inventory_answers s = elim (Result-cases (authenticate w context)) [
    | inr (answer, e0) ↦ rw (handle_get_inventory, e0) (rw e0 at (ends_authenticate w context))
    | inl (u, e0) ↦ elim (Option-cases (api.get_inventory s).0) [
      | inl e ↦ absurd (let r = t.get_inventory s in cc)
      | inr (result, e) ↦
          rw (handle_get_inventory, e0, respond, ◌>>=◌, lift, call_api, e)
            (finish_answers w context some (write_get_inventory w) result (λ v. refl) span
              (write_get_inventory-IsAnswer w))
    ]
  ]

  pub place_order_answers : (s : S) → IsAnswer (handle_place_order w api context request s).0
  unfolding handle_place_order
  place_order_answers s = elim (Result-cases (read_body w request)) [
    | inr (answer, e0) ↦ rw (handle_place_order, e0) (rw e0 at (ends_read_body w request))
    | inl (bytes, e0) ↦
        elim (Option-cases (api.place_order (optional_body w w.order_body request bytes) s).0) [
          | inl e ↦
              absurd (let r = t.place_order (optional_body w w.order_body request bytes) s in cc)
          | inr (result, e) ↦
              rw (handle_place_order, e0, respond, ◌>>=◌, lift, call_api, e)
                (finish_answers w context some (write_place_order w) result (λ v. refl) span
                  (write_place_order-IsAnswer w))
        ]
  ]

  pub delete_order_answers :
      matched request.uri.path PathId.store_order_orderid ≡ true
      → (s : S) → IsAnswer (handle_delete_order w api context request s).0
  unfolding handle_delete_order
  delete_order_answers path s =
      elim (Result-cases (path_i64 w PathId.store_order_orderid "orderId" request.uri.path)) [
        | inr (answer, e0) ↦
            rw (handle_delete_order, e0)
              (rw e0 at
                (ends_path_i64 w PathId.store_order_orderid "orderId" request.uri.path path))
        | inl (id, e0) ↦ elim (Option-cases (api.delete_order id s).0) [
          | inl e ↦ absurd (let r = t.delete_order id s in cc)
          | inr (result, e) ↦
              rw (handle_delete_order, e0, respond, ◌>>=◌, lift, call_api, e)
                (finish_answers w context some (write_delete_order w) result (λ v. refl) span
                  (write_delete_order-IsAnswer w))
        ]
      ]

  pub get_order_by_id_answers :
      matched request.uri.path PathId.store_order_orderid ≡ true
      → (s : S) → IsAnswer (handle_get_order_by_id w api context request s).0
  unfolding handle_get_order_by_id
  get_order_by_id_answers path s =
      elim (Result-cases (path_i64 w PathId.store_order_orderid "orderId" request.uri.path)) [
        | inr (answer, e0) ↦
            rw (handle_get_order_by_id, e0)
              (rw e0 at
                (ends_path_i64 w PathId.store_order_orderid "orderId" request.uri.path path))
        | inl (id, e0) ↦ elim (Option-cases (api.get_order_by_id id s).0) [
          | inl e ↦ absurd (let r = t.get_order_by_id id s in cc)
          | inr (result, e) ↦
              rw (handle_get_order_by_id, e0, respond, ◌>>=◌, lift, call_api, e)
                (finish_answers w context some (write_get_order_by_id w) result (λ v. refl) span
                  (write_get_order_by_id-IsAnswer w))
        ]
      ]
