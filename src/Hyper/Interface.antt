-- ===== src/Hyper/Interface.antt =====
-- The generated interface of petshop-stacks/rust/hyper/src/lib.rs, `trait Api`: what the router
-- calls, over the state `S` of an implementation. An operation fails with `ApiError`, which holds a
-- message, or panics, which is `none`.
use speed_test.Base.{ℕ, String, Option, List, ℤ, Result}
use speed_test.Models.{Pet, Order, User}
use speed_test.Hyper.Responses.{
  FindPetsByStatusStatusParameter, AddPetResponse, FindPetsByStatusResponse, FindPetsByTagsResponse,
  UpdatePetResponse, DeletePetResponse, GetPetByIdResponse, UpdatePetWithFormResponse,
  UploadFileResponse, GetInventoryResponse, PlaceOrderResponse, DeleteOrderResponse,
  GetOrderByIdResponse, CreateUserResponse, CreateUsersWithListInputResponse, LoginUserResponse,
  LogoutUserResponse, DeleteUserResponse, GetUserByNameResponse, UpdateUserResponse,
}

abbrev pub Call : Type 0 → Type 0 → Type 0
Call S R = S → Option (Result String R) × S

pub record Api (DateTime S : Type 0) : Type 0 where
  pub add_pet : Pet → Call S AddPetResponse
  pub find_pets_by_status : Option FindPetsByStatusStatusParameter → Call S FindPetsByStatusResponse
  pub find_pets_by_tags : Option (List String) → Call S FindPetsByTagsResponse
  pub update_pet : Pet → Call S UpdatePetResponse
  pub delete_pet : ℤ → Option String → Call S DeletePetResponse
  pub get_pet_by_id : ℤ → Call S GetPetByIdResponse
  pub update_pet_with_form : ℤ → Option String → Option String → Call S UpdatePetWithFormResponse
  pub upload_file : ℤ → Option String → Option (List ℕ) → Call S UploadFileResponse
  pub get_inventory : Call S GetInventoryResponse
  pub place_order : Option (Order DateTime) → Call S (PlaceOrderResponse DateTime)
  pub delete_order : ℤ → Call S DeleteOrderResponse
  pub get_order_by_id : ℤ → Call S (GetOrderByIdResponse DateTime)
  pub create_user : Option User → Call S CreateUserResponse
  pub create_users_with_list_input : Option (List User) → Call S CreateUsersWithListInputResponse
  pub login_user : Option String → Option String → Call S (LoginUserResponse DateTime)
  pub logout_user : Call S LogoutUserResponse
  pub delete_user : String → Call S DeleteUserResponse
  pub get_user_by_name : String → Call S GetUserByNameResponse
  pub update_user : String → Option User → Call S UpdateUserResponse
