-- ===== src/Hyper/Client/RoundTrip.antt =====
-- What the server writes, the client reads.
use speed_test.Base.{◌≡◌, refl, some, false, ok, map_option}
use speed_test.Hyper.Http.{Response, Wire}
use speed_test.Hyper.Responses.{
  AddPetResponse, FindPetsByStatusResponse, FindPetsByTagsResponse, UpdatePetResponse,
  DeletePetResponse, GetPetByIdResponse, UpdatePetWithFormResponse, UploadFileResponse,
  GetInventoryResponse, PlaceOrderResponse, DeleteOrderResponse, GetOrderByIdResponse,
  CreateUserResponse, CreateUsersWithListInputResponse, LoginUserResponse, LogoutUserResponse,
  DeleteUserResponse, GetUserByNameResponse, UpdateUserResponse,
}
use speed_test.Hyper.Server.Write.{
  write_add_pet, write_find_pets_by_status, write_find_pets_by_tags, write_update_pet,
  write_delete_pet, write_get_pet_by_id, write_update_pet_with_form, write_upload_file,
  write_get_inventory, write_place_order, write_delete_order, write_get_order_by_id,
  write_create_user, write_create_users_with_list_input, write_login_user, write_logout_user,
  write_delete_user, write_get_user_by_name, write_update_user,
}
use speed_test.Hyper.Client.Read.{
  read_add_pet, read_find_pets_by_status, read_find_pets_by_tags, read_update_pet, read_delete_pet,
  read_get_pet_by_id, read_update_pet_with_form, read_upload_file, read_get_inventory,
  read_place_order, read_delete_order, read_get_order_by_id, read_create_user,
  read_create_users_with_list_input, read_login_user, read_logout_user, read_delete_user,
  read_get_user_by_name, read_update_user,
}
use speed_test.Hyper.Client.Reply.{
  Reply, add_pet, find_pets_by_status, find_pets_by_tags, update_pet, delete_pet, get_pet_by_id,
  update_pet_with_form, upload_file, get_inventory, place_order, delete_order, get_order_by_id,
  create_user, create_users_with_list_input, login_user, logout_user, delete_user, get_user_by_name,
  update_user, is_unexpected, is_token, write, read, serialized, read_written,
}

module _ {DateTime : Type 0} (w : Wire DateTime) where
  pub read-write :
      (r : Response) (reply : Reply DateTime)
      → is_unexpected reply ≡ false
      → is_token reply ≡ false
      → map_option (read w reply) (write w r reply) ≡ some (ok reply)
  unfolding write_add_pet write_find_pets_by_status write_find_pets_by_tags write_update_pet
      write_delete_pet write_get_pet_by_id write_update_pet_with_form write_upload_file
      write_get_inventory write_place_order write_delete_order write_get_order_by_id
      write_create_user write_create_users_with_list_input write_login_user write_logout_user
      write_delete_user write_get_user_by_name write_update_user read_add_pet
      read_find_pets_by_status read_find_pets_by_tags read_update_pet read_delete_pet
      read_get_pet_by_id read_update_pet_with_form read_upload_file read_get_inventory
      read_place_order read_delete_order read_get_order_by_id read_create_user
      read_create_users_with_list_input read_login_user read_logout_user read_delete_user
      read_get_user_by_name read_update_user
  read-write r (add_pet (AddPetResponse.successful_operation body)) h q =
      rw
        (
          serialized w w.pet 200 body r,
          read_written w w.pet 200 body r AddPetResponse.successful_operation,
        )
        refl
  read-write r (add_pet AddPetResponse.invalid_input) h q = refl
  read-write r (add_pet AddPetResponse.validation_exception) h q = refl
  read-write r (add_pet (AddPetResponse.unexpected_error e)) h q = absurd (cc)
  read-write r (find_pets_by_status (FindPetsByStatusResponse.successful_operation body)) h q =
      rw
        (
          serialized w w.pets 200 body r,
          read_written w w.pets 200 body r FindPetsByStatusResponse.successful_operation,
        )
        refl
  read-write r (find_pets_by_status FindPetsByStatusResponse.invalid_status_value) h q = refl
  read-write r (find_pets_by_status (FindPetsByStatusResponse.unexpected_error e)) h q = absurd (cc)
  read-write r (find_pets_by_tags (FindPetsByTagsResponse.successful_operation body)) h q =
      rw
        (
          serialized w w.pets 200 body r,
          read_written w w.pets 200 body r FindPetsByTagsResponse.successful_operation,
        )
        refl
  read-write r (find_pets_by_tags FindPetsByTagsResponse.invalid_tag_value) h q = refl
  read-write r (find_pets_by_tags (FindPetsByTagsResponse.unexpected_error e)) h q = absurd (cc)
  read-write r (update_pet (UpdatePetResponse.successful_operation body)) h q =
      rw
        (
          serialized w w.pet 200 body r,
          read_written w w.pet 200 body r UpdatePetResponse.successful_operation,
        )
        refl
  read-write r (update_pet UpdatePetResponse.invalid_id_supplied) h q = refl
  read-write r (update_pet UpdatePetResponse.pet_not_found) h q = refl
  read-write r (update_pet UpdatePetResponse.validation_exception) h q = refl
  read-write r (update_pet (UpdatePetResponse.unexpected_error e)) h q = absurd (cc)
  read-write r (delete_pet DeletePetResponse.successful_operation) h q = refl
  read-write r (delete_pet DeletePetResponse.invalid_pet_value) h q = refl
  read-write r (delete_pet (DeletePetResponse.unexpected_error e)) h q = absurd (cc)
  read-write r (get_pet_by_id (GetPetByIdResponse.successful_operation body)) h q =
      rw
        (
          serialized w w.pet 200 body r,
          read_written w w.pet 200 body r GetPetByIdResponse.successful_operation,
        )
        refl
  read-write r (get_pet_by_id GetPetByIdResponse.invalid_id_supplied) h q = refl
  read-write r (get_pet_by_id GetPetByIdResponse.pet_not_found) h q = refl
  read-write r (get_pet_by_id (GetPetByIdResponse.unexpected_error e)) h q = absurd (cc)
  read-write r (update_pet_with_form UpdatePetWithFormResponse.successfully_updated) h q = refl
  read-write r (update_pet_with_form UpdatePetWithFormResponse.invalid_input) h q = refl
  read-write r (update_pet_with_form (UpdatePetWithFormResponse.unexpected_error e)) h q =
      absurd (cc)
  read-write r (upload_file (UploadFileResponse.successful_operation body)) h q =
      rw
        (
          serialized w w.api_response 200 body r,
          read_written w w.api_response 200 body r UploadFileResponse.successful_operation,
        )
        refl
  read-write r (upload_file (UploadFileResponse.unexpected_error e)) h q = absurd (cc)
  read-write r (get_inventory (GetInventoryResponse.successful_operation body)) h q =
      rw
        (
          serialized w w.inventory 200 body r,
          read_written w w.inventory 200 body r GetInventoryResponse.successful_operation,
        )
        refl
  read-write r (get_inventory (GetInventoryResponse.unexpected_error e)) h q = absurd (cc)
  read-write r (place_order (PlaceOrderResponse.successful_operation body)) h q =
      rw
        (
          serialized w w.order 200 body r,
          read_written w w.order 200 body r PlaceOrderResponse.successful_operation,
        )
        refl
  read-write r (place_order PlaceOrderResponse.invalid_input) h q = refl
  read-write r (place_order PlaceOrderResponse.validation_exception) h q = refl
  read-write r (place_order (PlaceOrderResponse.unexpected_error e)) h q = absurd (cc)
  read-write r (delete_order DeleteOrderResponse.successful_operation) h q = refl
  read-write r (delete_order DeleteOrderResponse.invalid_id_supplied) h q = refl
  read-write r (delete_order DeleteOrderResponse.order_not_found) h q = refl
  read-write r (delete_order (DeleteOrderResponse.unexpected_error e)) h q = absurd (cc)
  read-write r (get_order_by_id (GetOrderByIdResponse.successful_operation body)) h q =
      rw
        (
          serialized w w.order 200 body r,
          read_written w w.order 200 body r GetOrderByIdResponse.successful_operation,
        )
        refl
  read-write r (get_order_by_id GetOrderByIdResponse.invalid_id_supplied) h q = refl
  read-write r (get_order_by_id GetOrderByIdResponse.order_not_found) h q = refl
  read-write r (get_order_by_id (GetOrderByIdResponse.unexpected_error e)) h q = absurd (cc)
  read-write r (create_user (CreateUserResponse.successful_operation body)) h q =
      rw
        (
          serialized w w.user 200 body r,
          read_written w w.user 200 body r CreateUserResponse.successful_operation,
        )
        refl
  read-write r (create_user (CreateUserResponse.unexpected_error e)) h q = absurd (cc)
  read-write r
        (create_users_with_list_input (CreateUsersWithListInputResponse.successful_operation body))
        h q =
      rw
        (
          serialized w w.user 200 body r,
          read_written w w.user 200 body r CreateUsersWithListInputResponse.successful_operation,
        )
        refl
  read-write r (create_users_with_list_input (CreateUsersWithListInputResponse.unexpected_error e))
        h q =
      absurd (cc)
  read-write r (login_user LoginUserResponse.invalid_username) h q = refl
  read-write r (login_user (LoginUserResponse.successful_operation body limit expires)) h q =
      absurd (cc)
  read-write r (login_user (LoginUserResponse.unexpected_error e)) h q = absurd (cc)
  read-write r (logout_user LogoutUserResponse.successful_operation) h q = refl
  read-write r (logout_user LogoutUserResponse.successful_operation_2) h q = absurd (cc)
  read-write r (delete_user DeleteUserResponse.successful_operation) h q = refl
  read-write r (delete_user DeleteUserResponse.invalid_username_supplied) h q = refl
  read-write r (delete_user DeleteUserResponse.user_not_found) h q = refl
  read-write r (delete_user (DeleteUserResponse.unexpected_error e)) h q = absurd (cc)
  read-write r (get_user_by_name (GetUserByNameResponse.successful_operation body)) h q =
      rw
        (
          serialized w w.user 200 body r,
          read_written w w.user 200 body r GetUserByNameResponse.successful_operation,
        )
        refl
  read-write r (get_user_by_name GetUserByNameResponse.invalid_username_supplied) h q = refl
  read-write r (get_user_by_name GetUserByNameResponse.user_not_found) h q = refl
  read-write r (get_user_by_name (GetUserByNameResponse.unexpected_error e)) h q = absurd (cc)
  read-write r (update_user UpdateUserResponse.successful_operation) h q = refl
  read-write r (update_user (UpdateUserResponse.unexpected_error e)) h q = absurd (cc)
