-- ===== src/Hyper/Paths.antt =====
-- The paths and operations of petshop-stacks/rust/hyper/src/server/mod.rs: `mod paths`, the arms of
-- `Service::call`, and `ApiRequestParser`.
pub mod Names
pub mod Matched
pub mod Addresses
pub mod Ids
use Prim.Native.Char.{Char, code}
use speed_test.Base.{
  String, Option, none, some, Bool, true, false, ◌&&◌, ◌||◌, List, [], ◌∷◌, same, string_key,
  if◌then◌else◌, and_then, ◌==◌,
}
use speed_test.Hyper.Http.{Method}
use speed_test.Hyper.Parse.{strip_prefix}

-- The regular expressions used are `^text$`, and `^prefix([^/?#]*)suffix$`.
pub data Pattern : Type 0 where
  literal : String → Pattern
  param : String → String → Pattern

-- The characters that end a segment: `#`, `/` and `?`.
abbrev pub is_delimiter : Char → Bool
is_delimiter c = code c == 35 || code c == 47 || code c == 63

-- The longest match of `[^/?#]*`, and the rest.
unfoldable pub segment : String → String × String
segment String.[] = (String.[], String.[])
segment (String.◌∷◌ c s) =
    let (inside, rest) = segment s in
    if is_delimiter c then (String.[], String.◌∷◌ c s) else (String.◌∷◌ c inside, rest)

-- `Regex::captures`: the captured segment of a path that matches, empty where there is no group
unfoldable pub captures : Pattern → String → Option String
unfolding strip_prefix segment
captures (literal text) path = if same path text then some "" else none
captures (param prefix suffix) path =
    and_then (strip_prefix prefix path)
      (λ tail. let (inside, rest) = segment tail in if same rest suffix then some inside else none)

-- `ID_PET` and so on
pub data PathId : Type 0 where
  pet pet_findbystatus pet_findbytags pet_petid pet_petid_uploadimage store_inventory store_order
        store_order_orderid user user_createwithlist user_login user_logout user_username :
      PathId

abbrev pub regex : PathId → Pattern
regex PathId.pet = literal "/api/v3/pet"
regex PathId.pet_findbystatus = literal "/api/v3/pet/findByStatus"
regex PathId.pet_findbytags = literal "/api/v3/pet/findByTags"
regex PathId.pet_petid = param "/api/v3/pet/" ""
regex PathId.pet_petid_uploadimage = param "/api/v3/pet/" "/uploadImage"
regex PathId.store_inventory = literal "/api/v3/store/inventory"
regex PathId.store_order = literal "/api/v3/store/order"
regex PathId.store_order_orderid = param "/api/v3/store/order/" ""
regex PathId.user = literal "/api/v3/user"
regex PathId.user_createwithlist = literal "/api/v3/user/createWithList"
regex PathId.user_login = literal "/api/v3/user/login"
regex PathId.user_logout = literal "/api/v3/user/logout"
regex PathId.user_username = param "/api/v3/user/" ""

abbrev pub is_some : {A : Type 0} → Option A → Bool
is_some none = false
is_some (some a) = true

-- `GLOBAL_REGEX_SET.matches(path).matched(id)`
unfoldable pub matched : String → PathId → Bool
unfolding captures
matched path id = is_some (captures (regex id) path)

pub data Operation : Type 0 where
  add_pet find_pets_by_status find_pets_by_tags update_pet delete_pet get_pet_by_id
        update_pet_with_form upload_file get_inventory place_order delete_order get_order_by_id
        create_user create_users_with_list_input login_user logout_user delete_user get_user_by_name
        update_user :
      Operation

pub data Route : Type 0 where
  handle : Operation → Route
  method_not_allowed not_found : Route

abbrev pub same_method : Method → Method → Bool
same_method Method.get Method.get = true
same_method Method.post Method.post = true
same_method Method.put Method.put = true
same_method Method.delete Method.delete = true
same_method _ _ = false

-- The first arm of a `match` with the method, and a guard on the path.
unfoldable pub first_arm : {A : Type 0} → Method → String → List (Method × PathId × A) → Option A
unfolding matched
first_arm method path [] = none
first_arm method path ((m, id, a) ∷ arms) =
    let later = first_arm method path arms in
    if same_method method m && matched path id then some a else later

-- The arms of `Service::call` that call a handler.
abbrev pub arms : List (Method × PathId × Operation)
arms =
    (Method.post, PathId.pet, Operation.add_pet)
    ∷ (Method.get, PathId.pet_findbystatus, Operation.find_pets_by_status)
    ∷ (Method.get, PathId.pet_findbytags, Operation.find_pets_by_tags)
    ∷ (Method.put, PathId.pet, Operation.update_pet)
    ∷ (Method.delete, PathId.pet_petid, Operation.delete_pet)
    ∷ (Method.get, PathId.pet_petid, Operation.get_pet_by_id)
    ∷ (Method.post, PathId.pet_petid, Operation.update_pet_with_form)
    ∷ (Method.post, PathId.pet_petid_uploadimage, Operation.upload_file)
    ∷ (Method.get, PathId.store_inventory, Operation.get_inventory)
    ∷ (Method.post, PathId.store_order, Operation.place_order)
    ∷ (Method.delete, PathId.store_order_orderid, Operation.delete_order)
    ∷ (Method.get, PathId.store_order_orderid, Operation.get_order_by_id)
    ∷ (Method.post, PathId.user, Operation.create_user)
    ∷ (Method.post, PathId.user_createwithlist, Operation.create_users_with_list_input)
    ∷ (Method.get, PathId.user_login, Operation.login_user)
    ∷ (Method.get, PathId.user_logout, Operation.logout_user)
    ∷ (Method.delete, PathId.user_username, Operation.delete_user)
    ∷ (Method.get, PathId.user_username, Operation.get_user_by_name)
    ∷ (Method.put, PathId.user_username, Operation.update_user)
    ∷ []

-- The paths of the arms `_ if path.matched(…) => method_not_allowed()`.
abbrev pub path_ids : List PathId
path_ids =
    PathId.pet ∷ PathId.pet_findbystatus ∷ PathId.pet_findbytags ∷ PathId.pet_petid
    ∷ PathId.pet_petid_uploadimage ∷ PathId.store_inventory ∷ PathId.store_order
    ∷ PathId.store_order_orderid ∷ PathId.user ∷ PathId.user_createwithlist ∷ PathId.user_login
    ∷ PathId.user_logout ∷ PathId.user_username ∷ []

unfoldable pub any_matched : String → List PathId → Bool
unfolding matched
any_matched path [] = false
any_matched path (id ∷ ids) = matched path id || any_matched path ids

-- `match method { … }` of `Service::call`
abbrev pub route_of : Option Operation → Bool → Route
route_of (some operation) allowed = handle operation
route_of none true = method_not_allowed
route_of none false = not_found

unfoldable pub dispatch : Method → String → Route
unfolding first_arm any_matched
dispatch method path = route_of (first_arm method path arms) (any_matched path path_ids)

-- `parse_operation_id` of `ApiRequestParser`, with arms of its own.
abbrev pub operation_arms : List (Method × PathId × String)
operation_arms =
    (Method.post, PathId.pet, "AddPet")
    ∷ (Method.get, PathId.pet_findbystatus, "FindPetsByStatus")
    ∷ (Method.get, PathId.pet_findbytags, "FindPetsByTags")
    ∷ (Method.put, PathId.pet, "UpdatePet")
    ∷ (Method.delete, PathId.pet_petid, "DeletePet")
    ∷ (Method.get, PathId.pet_petid, "GetPetById")
    ∷ (Method.post, PathId.pet_petid, "UpdatePetWithForm")
    ∷ (Method.post, PathId.pet_petid_uploadimage, "UploadFile")
    ∷ (Method.get, PathId.store_inventory, "GetInventory")
    ∷ (Method.post, PathId.store_order, "PlaceOrder")
    ∷ (Method.delete, PathId.store_order_orderid, "DeleteOrder")
    ∷ (Method.get, PathId.store_order_orderid, "GetOrderById")
    ∷ (Method.post, PathId.user, "CreateUser")
    ∷ (Method.post, PathId.user_createwithlist, "CreateUsersWithListInput")
    ∷ (Method.get, PathId.user_login, "LoginUser")
    ∷ (Method.get, PathId.user_logout, "LogoutUser")
    ∷ (Method.delete, PathId.user_username, "DeleteUser")
    ∷ (Method.get, PathId.user_username, "GetUserByName")
    ∷ (Method.put, PathId.user_username, "UpdateUser")
    ∷ []

unfoldable pub parse_operation_id : Method → String → Option String
unfolding first_arm
parse_operation_id method path = first_arm method path operation_arms
