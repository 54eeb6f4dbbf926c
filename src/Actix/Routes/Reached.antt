-- ===== src/Actix/Routes/Reached.antt =====
-- Each handler is reached by the addresses that are made for it.
use speed_test.Base.{
  String, some, Bool, true, false, List, [], ◌∷◌, ◌≡◌, refl, arith, same, string_key, if◌then◌else◌,
}
use speed_test.Actix.Routes.{Method, Handler, fits, first_fit, route}

-- What is asked for: an operation with the texts of its parameters.
pub data Endpoint : Type 0 where
  find_pets_by_status find_pets_by_tags add_pet update_pet get_inventory place_order
        create_users_with_list_input login_user logout_user create_user :
      Endpoint
  upload_file get_pet_by_id update_pet_with_form delete_pet get_order_by_id delete_order
        get_user_by_name update_user delete_user :
      String → Endpoint

abbrev pub handler : Endpoint → Handler
handler Endpoint.find_pets_by_status = Handler.find_pets_by_status
handler Endpoint.find_pets_by_tags = Handler.find_pets_by_tags
handler Endpoint.add_pet = Handler.add_pet
handler Endpoint.update_pet = Handler.update_pet
handler Endpoint.get_inventory = Handler.get_inventory
handler Endpoint.place_order = Handler.place_order
handler Endpoint.create_users_with_list_input = Handler.create_users_with_list_input
handler Endpoint.login_user = Handler.login_user
handler Endpoint.logout_user = Handler.logout_user
handler Endpoint.create_user = Handler.create_user
handler (Endpoint.upload_file p) = Handler.upload_file
handler (Endpoint.get_pet_by_id p) = Handler.get_pet_by_id
handler (Endpoint.update_pet_with_form p) = Handler.update_pet_with_form
handler (Endpoint.delete_pet p) = Handler.delete_pet
handler (Endpoint.get_order_by_id p) = Handler.get_order_by_id
handler (Endpoint.delete_order p) = Handler.delete_order
handler (Endpoint.get_user_by_name p) = Handler.get_user_by_name
handler (Endpoint.update_user p) = Handler.update_user
handler (Endpoint.delete_user p) = Handler.delete_user

-- The method and the path, as the specification has them.
abbrev pub address : Endpoint → Method × List String
address Endpoint.find_pets_by_status = (Method.get, "pet" ∷ "findByStatus" ∷ [])
address Endpoint.find_pets_by_tags = (Method.get, "pet" ∷ "findByTags" ∷ [])
address Endpoint.add_pet = (Method.post, "pet" ∷ [])
address Endpoint.update_pet = (Method.put, "pet" ∷ [])
address Endpoint.get_inventory = (Method.get, "store" ∷ "inventory" ∷ [])
address Endpoint.place_order = (Method.post, "store" ∷ "order" ∷ [])
address Endpoint.create_users_with_list_input = (Method.post, "user" ∷ "createWithList" ∷ [])
address Endpoint.login_user = (Method.get, "user" ∷ "login" ∷ [])
address Endpoint.logout_user = (Method.get, "user" ∷ "logout" ∷ [])
address Endpoint.create_user = (Method.post, "user" ∷ [])
address (Endpoint.upload_file p) = (Method.post, "pet" ∷ p ∷ "uploadImage" ∷ [])
address (Endpoint.get_pet_by_id p) = (Method.get, "pet" ∷ p ∷ [])
address (Endpoint.update_pet_with_form p) = (Method.post, "pet" ∷ p ∷ [])
address (Endpoint.delete_pet p) = (Method.delete, "pet" ∷ p ∷ [])
address (Endpoint.get_order_by_id p) = (Method.get, "store" ∷ "order" ∷ p ∷ [])
address (Endpoint.delete_order p) = (Method.delete, "store" ∷ "order" ∷ p ∷ [])
address (Endpoint.get_user_by_name p) = (Method.get, "user" ∷ p ∷ [])
address (Endpoint.update_user p) = (Method.put, "user" ∷ p ∷ [])
address (Endpoint.delete_user p) = (Method.delete, "user" ∷ p ∷ [])

-- No parameter is empty, and none that is fetched is the word of another operation.
abbrev pub is_plain : Endpoint → Bool
is_plain (Endpoint.upload_file p) = if same p "" then false else true
is_plain (Endpoint.get_pet_by_id p) =
    if same p ""
    then false
    else if same p "findByStatus"
    then false
    else if same p "findByTags"
    then false
    else true
is_plain (Endpoint.update_pet_with_form p) = if same p "" then false else true
is_plain (Endpoint.delete_pet p) = if same p "" then false else true
is_plain (Endpoint.get_order_by_id p) = if same p "" then false else true
is_plain (Endpoint.delete_order p) = if same p "" then false else true
is_plain (Endpoint.get_user_by_name p) =
    if same p ""
    then false
    else if same p "login"
    then false
    else if same p "logout"
    then false
    else true
is_plain (Endpoint.update_user p) = if same p "" then false else true
is_plain (Endpoint.delete_user p) = if same p "" then false else true
is_plain _ = true

-- The method and path of an operation reach its handler, where no parameter is empty, no fetched
-- pet has the id "findByStatus" or "findByTags", and no fetched user is called "login" or
-- "logout".
pub route-address :
    (e : Endpoint)
    → is_plain e ≡ true
    → let (method, path) = address e in route method path ≡ some (handler e)
unfolding route first_fit fits
route-address Endpoint.find_pets_by_status h = refl
route-address Endpoint.find_pets_by_tags h = refl
route-address Endpoint.add_pet h = refl
route-address Endpoint.update_pet h = refl
route-address Endpoint.get_inventory h = refl
route-address Endpoint.place_order h = refl
route-address Endpoint.create_users_with_list_input h = refl
route-address Endpoint.login_user h = refl
route-address Endpoint.logout_user h = refl
route-address Endpoint.create_user h = refl
route-address (Endpoint.upload_file p) h = ground arith
route-address (Endpoint.get_pet_by_id p) h = ground arith
route-address (Endpoint.update_pet_with_form p) h = ground arith
route-address (Endpoint.delete_pet p) h = ground arith
route-address (Endpoint.get_order_by_id p) h = ground arith
route-address (Endpoint.delete_order p) h = ground arith
route-address (Endpoint.get_user_by_name p) h = ground arith
route-address (Endpoint.update_user p) h = ground arith
route-address (Endpoint.delete_user p) h = ground arith
