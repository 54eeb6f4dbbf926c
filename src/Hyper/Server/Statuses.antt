-- ===== src/Hyper/Server/Statuses.antt =====
-- Every response that a handler can write has a status of the API's description, and writing does
-- not panic.
use speed_test.Base.{ℕ, ◌≡◌, refl, Option, none, some, Bool, true, false, ◌||◌, arith, ◌==◌}
use speed_test.Serde.{Codec}
use speed_test.Hyper.Http.{Response, Wire}
use speed_test.Hyper.Header.{write_i32, write_date}
use speed_test.Hyper.Responses.{
  AddPetResponse, FindPetsByStatusResponse, FindPetsByTagsResponse, UpdatePetResponse,
  DeletePetResponse, GetPetByIdResponse, UpdatePetWithFormResponse, UploadFileResponse,
  GetInventoryResponse, PlaceOrderResponse, DeleteOrderResponse, GetOrderByIdResponse,
  CreateUserResponse, CreateUsersWithListInputResponse, LoginUserResponse, LogoutUserResponse,
  DeleteUserResponse, GetUserByNameResponse, UpdateUserResponse,
}
use speed_test.Hyper.Server.Write.{
  json, write_add_pet, write_find_pets_by_status, write_find_pets_by_tags, write_update_pet,
  write_delete_pet, write_get_pet_by_id, write_update_pet_with_form, write_upload_file,
  write_get_inventory, write_place_order, write_delete_order, write_get_order_by_id,
  write_create_user, write_create_users_with_list_input, write_login_user, write_logout_user,
  write_delete_user, write_get_user_by_name, write_update_user,
}

abbrev pub is_status : ℕ → Bool
is_status n = n == 200 || n == 400 || n == 403 || n == 404 || n == 405 || n == 422 || n == 500

-- There is a response, of such a status.
abbrev pub IsAnswer : Option Response → Type 0
IsAnswer none = Path Bool false true
IsAnswer (some response) = is_status response.status ≡ true

module _ {DateTime : Type 0} (w : Wire DateTime) where
  json-IsAnswer :
      {A : Type 0} (codec : Codec A) (status : ℕ) (a : A) (r : Response)
      → is_status status ≡ true
      → IsAnswer (json w codec status a r)
  unfolding json
  json-IsAnswer codec status a r h = rw (json, codec.writes a) h

  pub write_add_pet-IsAnswer :
      (r : Response) (rsp : AddPetResponse) → IsAnswer (write_add_pet w r rsp)
  unfolding write_add_pet
  write_add_pet-IsAnswer r (AddPetResponse.successful_operation body) =
      json-IsAnswer w.pet 200 body r refl
  write_add_pet-IsAnswer r AddPetResponse.invalid_input = refl
  write_add_pet-IsAnswer r AddPetResponse.validation_exception = refl
  write_add_pet-IsAnswer r (AddPetResponse.unexpected_error body) =
      json-IsAnswer w.error 500 body r refl

  pub write_find_pets_by_status-IsAnswer :
      (r : Response) (rsp : FindPetsByStatusResponse) → IsAnswer (write_find_pets_by_status w r rsp)
  unfolding write_find_pets_by_status
  write_find_pets_by_status-IsAnswer r (FindPetsByStatusResponse.successful_operation body) =
      json-IsAnswer w.pets 200 body r refl
  write_find_pets_by_status-IsAnswer r FindPetsByStatusResponse.invalid_status_value = refl
  write_find_pets_by_status-IsAnswer r (FindPetsByStatusResponse.unexpected_error body) =
      json-IsAnswer w.error 500 body r refl

  pub write_find_pets_by_tags-IsAnswer :
      (r : Response) (rsp : FindPetsByTagsResponse) → IsAnswer (write_find_pets_by_tags w r rsp)
  unfolding write_find_pets_by_tags
  write_find_pets_by_tags-IsAnswer r (FindPetsByTagsResponse.successful_operation body) =
      json-IsAnswer w.pets 200 body r refl
  write_find_pets_by_tags-IsAnswer r FindPetsByTagsResponse.invalid_tag_value = refl
  write_find_pets_by_tags-IsAnswer r (FindPetsByTagsResponse.unexpected_error body) =
      json-IsAnswer w.error 500 body r refl

  pub write_update_pet-IsAnswer :
      (r : Response) (rsp : UpdatePetResponse) → IsAnswer (write_update_pet w r rsp)
  unfolding write_update_pet
  write_update_pet-IsAnswer r (UpdatePetResponse.successful_operation body) =
      json-IsAnswer w.pet 200 body r refl
  write_update_pet-IsAnswer r UpdatePetResponse.invalid_id_supplied = refl
  write_update_pet-IsAnswer r UpdatePetResponse.pet_not_found = refl
  write_update_pet-IsAnswer r UpdatePetResponse.validation_exception = refl
  write_update_pet-IsAnswer r (UpdatePetResponse.unexpected_error body) =
      json-IsAnswer w.error 500 body r refl

  pub write_delete_pet-IsAnswer :
      (r : Response) (rsp : DeletePetResponse) → IsAnswer (write_delete_pet w r rsp)
  unfolding write_delete_pet
  write_delete_pet-IsAnswer r DeletePetResponse.successful_operation = refl
  write_delete_pet-IsAnswer r DeletePetResponse.invalid_pet_value = refl
  write_delete_pet-IsAnswer r (DeletePetResponse.unexpected_error body) =
      json-IsAnswer w.error 500 body r refl

  pub write_get_pet_by_id-IsAnswer :
      (r : Response) (rsp : GetPetByIdResponse) → IsAnswer (write_get_pet_by_id w r rsp)
  unfolding write_get_pet_by_id
  write_get_pet_by_id-IsAnswer r (GetPetByIdResponse.successful_operation body) =
      json-IsAnswer w.pet 200 body r refl
  write_get_pet_by_id-IsAnswer r GetPetByIdResponse.invalid_id_supplied = refl
  write_get_pet_by_id-IsAnswer r GetPetByIdResponse.pet_not_found = refl
  write_get_pet_by_id-IsAnswer r (GetPetByIdResponse.unexpected_error body) =
      json-IsAnswer w.error 500 body r refl

  pub write_update_pet_with_form-IsAnswer :
      (r : Response) (rsp : UpdatePetWithFormResponse)
      → IsAnswer (write_update_pet_with_form w r rsp)
  unfolding write_update_pet_with_form
  write_update_pet_with_form-IsAnswer r UpdatePetWithFormResponse.successfully_updated = refl
  write_update_pet_with_form-IsAnswer r UpdatePetWithFormResponse.invalid_input = refl
  write_update_pet_with_form-IsAnswer r (UpdatePetWithFormResponse.unexpected_error body) =
      json-IsAnswer w.error 500 body r refl

  pub write_upload_file-IsAnswer :
      (r : Response) (rsp : UploadFileResponse) → IsAnswer (write_upload_file w r rsp)
  unfolding write_upload_file
  write_upload_file-IsAnswer r (UploadFileResponse.successful_operation body) =
      json-IsAnswer w.api_response 200 body r refl
  write_upload_file-IsAnswer r (UploadFileResponse.unexpected_error body) =
      json-IsAnswer w.error 500 body r refl

  pub write_get_inventory-IsAnswer :
      (r : Response) (rsp : GetInventoryResponse) → IsAnswer (write_get_inventory w r rsp)
  unfolding write_get_inventory
  write_get_inventory-IsAnswer r (GetInventoryResponse.successful_operation body) =
      json-IsAnswer w.inventory 200 body r refl
  write_get_inventory-IsAnswer r (GetInventoryResponse.unexpected_error body) =
      json-IsAnswer w.error 500 body r refl

  pub write_place_order-IsAnswer :
      (r : Response) (rsp : PlaceOrderResponse DateTime) → IsAnswer (write_place_order w r rsp)
  unfolding write_place_order
  write_place_order-IsAnswer r (PlaceOrderResponse.successful_operation body) =
      json-IsAnswer w.order 200 body r refl
  write_place_order-IsAnswer r PlaceOrderResponse.invalid_input = refl
  write_place_order-IsAnswer r PlaceOrderResponse.validation_exception = refl
  write_place_order-IsAnswer r (PlaceOrderResponse.unexpected_error body) =
      json-IsAnswer w.error 500 body r refl

  pub write_delete_order-IsAnswer :
      (r : Response) (rsp : DeleteOrderResponse) → IsAnswer (write_delete_order w r rsp)
  unfolding write_delete_order
  write_delete_order-IsAnswer r DeleteOrderResponse.successful_operation = refl
  write_delete_order-IsAnswer r DeleteOrderResponse.invalid_id_supplied = refl
  write_delete_order-IsAnswer r DeleteOrderResponse.order_not_found = refl
  write_delete_order-IsAnswer r (DeleteOrderResponse.unexpected_error body) =
      json-IsAnswer w.error 500 body r refl

  pub write_get_order_by_id-IsAnswer :
      (r : Response) (rsp : GetOrderByIdResponse DateTime)
      → IsAnswer (write_get_order_by_id w r rsp)
  unfolding write_get_order_by_id
  write_get_order_by_id-IsAnswer r (GetOrderByIdResponse.successful_operation body) =
      json-IsAnswer w.order 200 body r refl
  write_get_order_by_id-IsAnswer r GetOrderByIdResponse.invalid_id_supplied = refl
  write_get_order_by_id-IsAnswer r GetOrderByIdResponse.order_not_found = refl
  write_get_order_by_id-IsAnswer r (GetOrderByIdResponse.unexpected_error body) =
      json-IsAnswer w.error 500 body r refl

  pub write_create_user-IsAnswer :
      (r : Response) (rsp : CreateUserResponse) → IsAnswer (write_create_user w r rsp)
  unfolding write_create_user
  write_create_user-IsAnswer r (CreateUserResponse.successful_operation body) =
      json-IsAnswer w.user 200 body r refl
  write_create_user-IsAnswer r (CreateUserResponse.unexpected_error body) =
      json-IsAnswer w.error 500 body r refl

  pub write_logout_user-IsAnswer :
      (r : Response) (rsp : LogoutUserResponse) → IsAnswer (write_logout_user w r rsp)
  unfolding write_logout_user
  write_logout_user-IsAnswer r LogoutUserResponse.successful_operation = refl
  write_logout_user-IsAnswer r LogoutUserResponse.successful_operation_2 = refl

  pub write_get_user_by_name-IsAnswer :
      (r : Response) (rsp : GetUserByNameResponse) → IsAnswer (write_get_user_by_name w r rsp)
  unfolding write_get_user_by_name
  write_get_user_by_name-IsAnswer r (GetUserByNameResponse.successful_operation body) =
      json-IsAnswer w.user 200 body r refl
  write_get_user_by_name-IsAnswer r GetUserByNameResponse.invalid_username_supplied = refl
  write_get_user_by_name-IsAnswer r GetUserByNameResponse.user_not_found = refl
  write_get_user_by_name-IsAnswer r (GetUserByNameResponse.unexpected_error body) =
      json-IsAnswer w.error 500 body r refl

  pub write_update_user-IsAnswer :
      (r : Response) (rsp : UpdateUserResponse) → IsAnswer (write_update_user w r rsp)
  unfolding write_update_user
  write_update_user-IsAnswer r UpdateUserResponse.successful_operation = refl
  write_update_user-IsAnswer r (UpdateUserResponse.unexpected_error body) =
      json-IsAnswer w.error 500 body r refl

  pub write_login_user-IsAnswer :
      (r : Response) (rsp : LoginUserResponse DateTime) → IsAnswer (write_login_user w r rsp)
  unfolding write_login_user write_i32 write_date
  write_login_user-IsAnswer r (LoginUserResponse.successful_operation body limit expires) =
      ground arith
  write_login_user-IsAnswer r LoginUserResponse.invalid_username = refl
  write_login_user-IsAnswer r (LoginUserResponse.unexpected_error body) =
      json-IsAnswer w.error 500 body r refl

  pub write_create_users_with_list_input-IsAnswer :
      (r : Response) (rsp : CreateUsersWithListInputResponse)
      → IsAnswer (write_create_users_with_list_input w r rsp)
  unfolding write_create_users_with_list_input
  write_create_users_with_list_input-IsAnswer r
        (CreateUsersWithListInputResponse.successful_operation body) =
      json-IsAnswer w.user 200 body r refl
  write_create_users_with_list_input-IsAnswer r
        (CreateUsersWithListInputResponse.unexpected_error body) =
      json-IsAnswer w.error 500 body r refl

  pub write_delete_user-IsAnswer :
      (r : Response) (rsp : DeleteUserResponse) → IsAnswer (write_delete_user w r rsp)
  unfolding write_delete_user
  write_delete_user-IsAnswer r DeleteUserResponse.successful_operation = refl
  write_delete_user-IsAnswer r DeleteUserResponse.invalid_username_supplied = refl
  write_delete_user-IsAnswer r DeleteUserResponse.user_not_found = refl
  write_delete_user-IsAnswer r (DeleteUserResponse.unexpected_error body) =
      json-IsAnswer w.error 500 body r refl
