-- ===== src/Hyper/Server/Service.antt =====
-- `Service::call` of petshop-stacks/rust/hyper/src/server/mod.rs: the handler of a request's
-- operation, or an answer without a body.
use speed_test.Base.{ℕ, some, [], ok}
use speed_test.Hyper.Http.{Request, Response, Wire}
use speed_test.Hyper.Paths.{Operation, Route, handle, method_not_allowed, not_found, dispatch}
use speed_test.Hyper.Interface.{Api}
use speed_test.Hyper.Server.Access.{Context, Handler}
use speed_test.Hyper.Server.Pet.{
  handle_add_pet, handle_find_pets_by_status, handle_find_pets_by_tags, handle_update_pet,
  handle_delete_pet, handle_get_pet_by_id, handle_update_pet_with_form, handle_upload_file,
}
use speed_test.Hyper.Server.Store.{
  handle_get_inventory, handle_place_order, handle_delete_order, handle_get_order_by_id,
}
use speed_test.Hyper.Server.User.{
  handle_create_user, handle_create_users_with_list_input, handle_login_user, handle_logout_user,
  handle_delete_user, handle_get_user_by_name, handle_update_user,
}

abbrev pub bare : ℕ → Response
bare status = record { status = status; headers = []; body = ok [] }

module _ {DateTime S : Type 0} (w : Wire DateTime) (api : Api DateTime S) where
  unfoldable pub run : Operation → Context → Request → Handler S
  run Operation.add_pet = handle_add_pet w api
  run Operation.find_pets_by_status = handle_find_pets_by_status w api
  run Operation.find_pets_by_tags = handle_find_pets_by_tags w api
  run Operation.update_pet = handle_update_pet w api
  run Operation.delete_pet = handle_delete_pet w api
  run Operation.get_pet_by_id = handle_get_pet_by_id w api
  run Operation.update_pet_with_form = handle_update_pet_with_form w api
  run Operation.upload_file = handle_upload_file w api
  run Operation.get_inventory = handle_get_inventory w api
  run Operation.place_order = handle_place_order w api
  run Operation.delete_order = handle_delete_order w api
  run Operation.get_order_by_id = handle_get_order_by_id w api
  run Operation.create_user = handle_create_user w api
  run Operation.create_users_with_list_input = handle_create_users_with_list_input w api
  run Operation.login_user = handle_login_user w api
  run Operation.logout_user = handle_logout_user w api
  run Operation.delete_user = handle_delete_user w api
  run Operation.get_user_by_name = handle_get_user_by_name w api
  run Operation.update_user = handle_update_user w api

  abbrev pub answer : Route → Context → Request → Handler S
  answer (handle operation) context request s = run operation context request s
  answer method_not_allowed context request s = (some (bare 405), s)
  answer not_found context request s = (some (bare 404), s)

  unfoldable pub call : Context → Request → Handler S
  unfolding run dispatch
  call context request = answer (dispatch request.method request.uri.path) context request
