-- ===== src/Hyper/Paths/Names.antt =====
-- `ApiRequestParser` and `Service::call` have a list of arms each; they agree.
use speed_test.Base.{
  String, ◌≡◌, refl, Option, none, some, Bool, List, [], ◌∷◌, map, map_option, arith, ◌∙◌, true,
  false,
}
use speed_test.Hyper.Http.{Method}
use speed_test.Hyper.Paths.{
  PathId, Operation, Route, handle, method_not_allowed, not_found, first_arm, route_of, arms,
  dispatch, parse_operation_id, path_ids, any_matched,
}

-- The operation's name in the API's description.
abbrev pub operation_name : Operation → String
operation_name Operation.add_pet = "AddPet"
operation_name Operation.find_pets_by_status = "FindPetsByStatus"
operation_name Operation.find_pets_by_tags = "FindPetsByTags"
operation_name Operation.update_pet = "UpdatePet"
operation_name Operation.delete_pet = "DeletePet"
operation_name Operation.get_pet_by_id = "GetPetById"
operation_name Operation.update_pet_with_form = "UpdatePetWithForm"
operation_name Operation.upload_file = "UploadFile"
operation_name Operation.get_inventory = "GetInventory"
operation_name Operation.place_order = "PlaceOrder"
operation_name Operation.delete_order = "DeleteOrder"
operation_name Operation.get_order_by_id = "GetOrderById"
operation_name Operation.create_user = "CreateUser"
operation_name Operation.create_users_with_list_input = "CreateUsersWithListInput"
operation_name Operation.login_user = "LoginUser"
operation_name Operation.logout_user = "LogoutUser"
operation_name Operation.delete_user = "DeleteUser"
operation_name Operation.get_user_by_name = "GetUserByName"
operation_name Operation.update_user = "UpdateUser"

abbrev rename : {A B : Type 0} → (A → B) → Method × PathId × A → Method × PathId × B
rename f (method, id, a) = (method, id, f a)

first_arm-map :
    {A B : Type 0} (f : A → B) (method : Method) (path : String) (l : List (Method × PathId × A))
    → first_arm method path (map (rename f) l) ≡ map_option f (first_arm method path l)
unfolding first_arm
first_arm-map f method path [] = refl
first_arm-map f method path ((m, id, a) ∷ l) = ground (arith, first_arm-map f method path l)

-- The name of the operation that handles a request.
abbrev pub route_name : Route → Option String
route_name (handle operation) = some (operation_name operation)
route_name method_not_allowed = none
route_name not_found = none

named : (o : Option Operation) (b : Bool) → map_option operation_name o ≡ route_name (route_of o b)
named none true = refl
named none false = refl
named (some operation) b = refl

-- For every method and path, parse_operation_id gives the name of the operation that handles the
-- request, and nothing where no operation does.
pub parse_operation_id-dispatch :
    (method : Method) (path : String)
    → parse_operation_id method path ≡ route_name (dispatch method path)
unfolding parse_operation_id dispatch
parse_operation_id-dispatch method path =
    first_arm-map operation_name method path arms
    ∙ named (first_arm method path arms) (any_matched path path_ids)
