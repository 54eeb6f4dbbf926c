-- ===== src/Hyper/Server/Answers/Every.antt =====
-- `Service::call` answers every request.
use speed_test.Base.{String, ◌≡◌, refl, true, ℕ, List, ok}
use speed_test.Hyper.Http.{Request, Wire}
use speed_test.Hyper.Interface.{Api}
use speed_test.Hyper.Paths.{
  Operation, Route, handle, method_not_allowed, not_found, dispatch, is_some,
}
use speed_test.Hyper.Paths.Matched.{Reads, dispatch-Reads}
use speed_test.Hyper.Server.Access.{Context}
use speed_test.Hyper.Server.Statuses.{IsAnswer}
use speed_test.Hyper.Server.Service.{run, answer, call}
use speed_test.Hyper.Server.User.{users_param, warn}
use speed_test.Hyper.Server.Answers.{started, is_ok, IsTotal}
use speed_test.Hyper.Server.Answers.Pets.{
  add_pet_answers, find_pets_by_status_answers, find_pets_by_tags_answers, update_pet_answers,
  delete_pet_answers, get_pet_by_id_answers, update_pet_with_form_answers, upload_file_answers,
}
use speed_test.Hyper.Server.Answers.Orders.{
  get_inventory_answers, place_order_answers, delete_order_answers, get_order_by_id_answers,
}
use speed_test.Hyper.Server.Answers.Users.{
  create_user_answers, create_users_with_list_input_answers, login_user_answers,
  logout_user_answers, delete_user_answers, get_user_by_name_answers, update_user_answers,
}

module _ {DateTime S : Type 0} (w : Wire DateTime) (api : Api DateTime S) (t : IsTotal api)
    (context : Context) (request : Request) (span : is_ok (w.header_value context.span_id) ≡ true)
    (warnings : (bytes : List ℕ) (v : String)
      → request.body ≡ ok bytes
      → is_some (warn w (users_param w bytes).1 (started v)) ≡ true) where
  run_answers :
      (operation : Operation)
      → Reads request.uri.path operation
      → (s : S) → IsAnswer (run w api operation context request s).0
  unfolding run
  run_answers Operation.add_pet path s = add_pet_answers w api t context request span s
  run_answers Operation.find_pets_by_status path s =
      find_pets_by_status_answers w api t context request span s
  run_answers Operation.find_pets_by_tags path s =
      find_pets_by_tags_answers w api t context request span s
  run_answers Operation.update_pet path s = update_pet_answers w api t context request span s
  run_answers Operation.delete_pet path s = delete_pet_answers w api t context request span path s
  run_answers Operation.get_pet_by_id path s =
      get_pet_by_id_answers w api t context request span path s
  run_answers Operation.update_pet_with_form path s =
      update_pet_with_form_answers w api t context request span path s
  run_answers Operation.upload_file path s = upload_file_answers w api t context request span path s
  run_answers Operation.get_inventory path s = get_inventory_answers w api t context request span s
  run_answers Operation.place_order path s = place_order_answers w api t context request span s
  run_answers Operation.delete_order path s =
      delete_order_answers w api t context request span path s
  run_answers Operation.get_order_by_id path s =
      get_order_by_id_answers w api t context request span path s
  run_answers Operation.create_user path s = create_user_answers w api t context request span s
  run_answers Operation.create_users_with_list_input path s =
      create_users_with_list_input_answers w api t context request span warnings s
  run_answers Operation.login_user path s = login_user_answers w api t context request span s
  run_answers Operation.logout_user path s = logout_user_answers w api t context request span s
  run_answers Operation.delete_user path s = delete_user_answers w api t context request span path s
  run_answers Operation.get_user_by_name path s =
      get_user_by_name_answers w api t context request span path s
  run_answers Operation.update_user path s = update_user_answers w api t context request span path s

  answer_answers :
      (route : Route)
      → ((operation : Operation) → route ≡ handle operation → Reads request.uri.path operation)
      → (s : S) → IsAnswer (answer w api route context request s).0
  answer_answers (handle operation) reads s = run_answers operation (reads operation refl) s
  answer_answers method_not_allowed reads s = refl
  answer_answers not_found reads s = refl

  pub call_answers : (s : S) → IsAnswer (call w api context request s).0
  unfolding call
  call_answers s =
      answer_answers (dispatch request.method request.uri.path)
        (dispatch-Reads request.method request.uri.path) s
