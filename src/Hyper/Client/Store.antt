-- ===== src/Hyper/Client/Store.antt =====
-- The store operations of petshop-stacks/rust/hyper/src/client/mod.rs.
use speed_test.Base.{String, ◌++◌, Option, none, some, [], ℤ, pure, ◌>>=◌, respond, show_int}
use speed_test.Models.{Order}
use speed_test.Hyper.Http.{Method, Request, Body, Wire}
use speed_test.Hyper.Interface.{Call}
use speed_test.Hyper.Responses.{
  GetInventoryResponse, PlaceOrderResponse, DeleteOrderResponse, GetOrderByIdResponse,
}
use speed_test.Hyper.Client.Message.{
  Context, Service, Step, try, send, set_header, new_request, span_header, key_header,
}
use speed_test.Hyper.Client.Pet.{xml_body}
use speed_test.Hyper.Client.Read.{
  read_get_inventory, read_place_order, read_delete_order, read_get_order_by_id,
}

-- The body of an optional parameter, as XML.
unfoldable pub optional_xml :
    {DateTime S R A : Type 0} → Wire DateTime → Body A → Option A → Request → Step S R Request
unfolding xml_body
optional_xml w body none request = pure request
optional_xml w body (some a) request = xml_body w body a request

module _ {DateTime S : Type 0} (w : Wire DateTime) (base_path : String) (service : Service S)
    (context : Context) where
  unfoldable pub get_inventory : Call S GetInventoryResponse
  unfolding new_request span_header key_header read_get_inventory
  get_inventory = respond do
    request ← try (new_request w base_path Method.get "/api/v3/store/inventory" [])
    request ← try (span_header w context request)
    request ← try (key_header w context request)
    response ← send service request
    pure (some (read_get_inventory w response))

  unfoldable pub place_order : Option (Order DateTime) → Call S (PlaceOrderResponse DateTime)
  unfolding new_request optional_xml set_header span_header read_place_order
  place_order order = respond do
    request ← try (new_request w base_path Method.post "/api/v3/store/order" [])
    request ← optional_xml w w.order_body order request
    let request = set_header "content-type" "application/json" request
    request ← try (span_header w context request)
    response ← send service request
    pure (some (read_place_order w response))

  unfoldable pub delete_order : ℤ → Call S DeleteOrderResponse
  unfolding new_request span_header read_delete_order
  delete_order order_id = respond do
    request ← try (
        new_request w base_path Method.delete
          ("/api/v3/store/order/" ++ w.percent_encode (show_int order_id)) [])
    request ← try (span_header w context request)
    response ← send service request
    pure (some (read_delete_order w response))

  unfoldable pub get_order_by_id : ℤ → Call S (GetOrderByIdResponse DateTime)
  unfolding new_request span_header read_get_order_by_id
  get_order_by_id order_id = respond do
    request ← try (
        new_request w base_path Method.get
          ("/api/v3/store/order/" ++ w.percent_encode (show_int order_id)) [])
    request ← try (span_header w context request)
    response ← send service request
    pure (some (read_get_order_by_id w response))
