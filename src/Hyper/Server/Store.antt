-- ===== src/Hyper/Server/Store.antt =====
-- The handlers of the store operations of petshop-stacks/rust/hyper/src/server/mod.rs.
use speed_test.Base.{lift, pure, ◌>>=◌, ◌>>◌, respond}
use speed_test.Hyper.Http.{Request, Wire}
use speed_test.Hyper.Paths.{PathId}
use speed_test.Hyper.Interface.{Api}
use speed_test.Hyper.Server.Access.{Context, Handler, call_api, authenticate, finish, finish_with}
use speed_test.Hyper.Server.Params.{path_i64, read_body, optional_body}
use speed_test.Hyper.Server.Write.{
  write_get_inventory, write_place_order, write_delete_order, write_get_order_by_id,
}

module _ {DateTime S : Type 0} (w : Wire DateTime) (api : Api DateTime S) (context : Context)
    (request : Request) where
  unfoldable pub handle_get_inventory : Handler S
  unfolding authenticate finish_with write_get_inventory
  handle_get_inventory = respond do
    lift (authenticate w context)
    result ← call_api api.get_inventory
    pure (finish w context (write_get_inventory w) result)

  unfoldable pub handle_place_order : Handler S
  unfolding read_body optional_body finish_with write_place_order
  handle_place_order = respond do
    bytes ← lift (read_body w request)
    result ← call_api (api.place_order (optional_body w w.order_body request bytes))
    pure (finish w context (write_place_order w) result)

  unfoldable pub handle_delete_order : Handler S
  unfolding path_i64 finish_with write_delete_order
  handle_delete_order = respond do
    order_id ← lift (path_i64 w PathId.store_order_orderid "orderId" request.uri.path)
    result ← call_api (api.delete_order order_id)
    pure (finish w context (write_delete_order w) result)

  unfoldable pub handle_get_order_by_id : Handler S
  unfolding path_i64 finish_with write_get_order_by_id
  handle_get_order_by_id = respond do
    order_id ← lift (path_i64 w PathId.store_order_orderid "orderId" request.uri.path)
    result ← call_api (api.get_order_by_id order_id)
    pure (finish w context (write_get_order_by_id w) result)
