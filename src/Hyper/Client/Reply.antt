-- ===== src/Hyper/Client/Reply.antt =====
-- The responses of all operations, as the server of petshop-stacks/rust/hyper/src/server/mod.rs writes
-- them and the client of src/client/mod.rs reads them.
use speed_test.Base.{ℕ, String, ◌≡◌, refl, Option, some, Bool, true, false, Result, ok, err}
use speed_test.Serde.{Codec}
use speed_test.Hyper.Http.{Response, Wire, insert_header}
use speed_test.Hyper.Responses.{
  AddPetResponse, FindPetsByStatusResponse, FindPetsByTagsResponse, UpdatePetResponse,
  DeletePetResponse, GetPetByIdResponse, UpdatePetWithFormResponse, UploadFileResponse,
  GetInventoryResponse, PlaceOrderResponse, DeleteOrderResponse, GetOrderByIdResponse,
  CreateUserResponse, CreateUsersWithListInputResponse, LoginUserResponse, LogoutUserResponse,
  DeleteUserResponse, GetUserByNameResponse, UpdateUserResponse,
}
use speed_test.Hyper.Server.Write.{
  json, write_add_pet, write_find_pets_by_status, write_find_pets_by_tags, write_update_pet,
  write_delete_pet, write_get_pet_by_id, write_update_pet_with_form, write_upload_file,
  write_get_inventory, write_place_order, write_delete_order, write_get_order_by_id,
  write_create_user, write_create_users_with_list_input, write_login_user, write_logout_user,
  write_delete_user, write_get_user_by_name, write_update_user,
}
use speed_test.Hyper.Client.Message.{read_text, read_as}
use speed_test.Hyper.Client.Read.{
  read_add_pet, read_find_pets_by_status, read_find_pets_by_tags, read_update_pet, read_delete_pet,
  read_get_pet_by_id, read_update_pet_with_form, read_upload_file, read_get_inventory,
  read_place_order, read_delete_order, read_get_order_by_id, read_create_user,
  read_create_users_with_list_input, read_login_user, read_logout_user, read_delete_user,
  read_get_user_by_name, read_update_user,
}

-- The response of an operation.
pub data Reply (DateTime : Type 0) : Type 0 where
  add_pet : AddPetResponse → Reply DateTime
  find_pets_by_status : FindPetsByStatusResponse → Reply DateTime
  find_pets_by_tags : FindPetsByTagsResponse → Reply DateTime
  update_pet : UpdatePetResponse → Reply DateTime
  delete_pet : DeletePetResponse → Reply DateTime
  get_pet_by_id : GetPetByIdResponse → Reply DateTime
  update_pet_with_form : UpdatePetWithFormResponse → Reply DateTime
  upload_file : UploadFileResponse → Reply DateTime
  get_inventory : GetInventoryResponse → Reply DateTime
  place_order : PlaceOrderResponse DateTime → Reply DateTime
  delete_order : DeleteOrderResponse → Reply DateTime
  get_order_by_id : GetOrderByIdResponse DateTime → Reply DateTime
  create_user : CreateUserResponse → Reply DateTime
  create_users_with_list_input : CreateUsersWithListInputResponse → Reply DateTime
  login_user : LoginUserResponse DateTime → Reply DateTime
  logout_user : LogoutUserResponse → Reply DateTime
  delete_user : DeleteUserResponse → Reply DateTime
  get_user_by_name : GetUserByNameResponse → Reply DateTime
  update_user : UpdateUserResponse → Reply DateTime

-- The error of an operation that the API's description does not foresee.
abbrev pub is_unexpected : {DateTime : Type 0} → Reply DateTime → Bool
is_unexpected (add_pet (AddPetResponse.unexpected_error e)) = true
is_unexpected (find_pets_by_status (FindPetsByStatusResponse.unexpected_error e)) = true
is_unexpected (find_pets_by_tags (FindPetsByTagsResponse.unexpected_error e)) = true
is_unexpected (update_pet (UpdatePetResponse.unexpected_error e)) = true
is_unexpected (delete_pet (DeletePetResponse.unexpected_error e)) = true
is_unexpected (get_pet_by_id (GetPetByIdResponse.unexpected_error e)) = true
is_unexpected (update_pet_with_form (UpdatePetWithFormResponse.unexpected_error e)) = true
is_unexpected (upload_file (UploadFileResponse.unexpected_error e)) = true
is_unexpected (get_inventory (GetInventoryResponse.unexpected_error e)) = true
is_unexpected (place_order (PlaceOrderResponse.unexpected_error e)) = true
is_unexpected (delete_order (DeleteOrderResponse.unexpected_error e)) = true
is_unexpected (get_order_by_id (GetOrderByIdResponse.unexpected_error e)) = true
is_unexpected (create_user (CreateUserResponse.unexpected_error e)) = true
is_unexpected (create_users_with_list_input (CreateUsersWithListInputResponse.unexpected_error e)) =
    true
is_unexpected (login_user (LoginUserResponse.unexpected_error e)) = true
is_unexpected (logout_user LogoutUserResponse.successful_operation_2) = true
is_unexpected (delete_user (DeleteUserResponse.unexpected_error e)) = true
is_unexpected (get_user_by_name (GetUserByNameResponse.unexpected_error e)) = true
is_unexpected (update_user (UpdateUserResponse.unexpected_error e)) = true
is_unexpected _ = false

-- A login that succeeded.
abbrev pub is_token : {DateTime : Type 0} → Reply DateTime → Bool
is_token (login_user (LoginUserResponse.successful_operation body limit expires)) = true
is_token _ = false

module _ {DateTime : Type 0} (w : Wire DateTime) where
  abbrev pub write : Response → Reply DateTime → Option Response
  write r (add_pet rsp) = write_add_pet w r rsp
  write r (find_pets_by_status rsp) = write_find_pets_by_status w r rsp
  write r (find_pets_by_tags rsp) = write_find_pets_by_tags w r rsp
  write r (update_pet rsp) = write_update_pet w r rsp
  write r (delete_pet rsp) = write_delete_pet w r rsp
  write r (get_pet_by_id rsp) = write_get_pet_by_id w r rsp
  write r (update_pet_with_form rsp) = write_update_pet_with_form w r rsp
  write r (upload_file rsp) = write_upload_file w r rsp
  write r (get_inventory rsp) = write_get_inventory w r rsp
  write r (place_order rsp) = write_place_order w r rsp
  write r (delete_order rsp) = write_delete_order w r rsp
  write r (get_order_by_id rsp) = write_get_order_by_id w r rsp
  write r (create_user rsp) = write_create_user w r rsp
  write r (create_users_with_list_input rsp) = write_create_users_with_list_input w r rsp
  write r (login_user rsp) = write_login_user w r rsp
  write r (logout_user rsp) = write_logout_user w r rsp
  write r (delete_user rsp) = write_delete_user w r rsp
  write r (get_user_by_name rsp) = write_get_user_by_name w r rsp
  write r (update_user rsp) = write_update_user w r rsp

  abbrev pub as_reply :
      {R : Type 0} → (R → Reply DateTime) → Result String R → Result String (Reply DateTime)
  as_reply make (ok rsp) = ok (make rsp)
  as_reply make (err e) = err e

  -- What the client makes of a response to the operation of `reply`.
  abbrev pub read : Reply DateTime → Response → Result String (Reply DateTime)
  read (add_pet rsp) r = as_reply add_pet (read_add_pet w r)
  read (find_pets_by_status rsp) r = as_reply find_pets_by_status (read_find_pets_by_status w r)
  read (find_pets_by_tags rsp) r = as_reply find_pets_by_tags (read_find_pets_by_tags w r)
  read (update_pet rsp) r = as_reply update_pet (read_update_pet w r)
  read (delete_pet rsp) r = as_reply delete_pet (read_delete_pet w r)
  read (get_pet_by_id rsp) r = as_reply get_pet_by_id (read_get_pet_by_id w r)
  read (update_pet_with_form rsp) r = as_reply update_pet_with_form (read_update_pet_with_form w r)
  read (upload_file rsp) r = as_reply upload_file (read_upload_file w r)
  read (get_inventory rsp) r = as_reply get_inventory (read_get_inventory w r)
  read (place_order rsp) r = as_reply place_order (read_place_order w r)
  read (delete_order rsp) r = as_reply delete_order (read_delete_order w r)
  read (get_order_by_id rsp) r = as_reply get_order_by_id (read_get_order_by_id w r)
  read (create_user rsp) r = as_reply create_user (read_create_user w r)
  read (create_users_with_list_input rsp) r =
      as_reply create_users_with_list_input (read_create_users_with_list_input w r)
  read (login_user rsp) r = as_reply login_user (read_login_user w r)
  read (logout_user rsp) r = as_reply logout_user (read_logout_user w r)
  read (delete_user rsp) r = as_reply delete_user (read_delete_user w r)
  read (get_user_by_name rsp) r = as_reply get_user_by_name (read_get_user_by_name w r)
  read (update_user rsp) r = as_reply update_user (read_update_user w r)

  module _ {A : Type 0} (codec : Codec A) (status : ℕ) (a : A) (r : Response) where
    abbrev pub written : Response
    written = record {
      status = status;
      headers = insert_header "content-type" "application/json" r.headers;
      body = ok (w.as_bytes (codec.text a));
    }

    pub serialized : json w codec status a r ≡ some written
    unfolding json
    serialized = rw (json, codec.writes a) refl

    pub read_written :
        {R : Type 0} (make : A → R) → read_as w codec.from_str make written ≡ ok (make a)
    unfolding read_as read_text
    read_written make = rw (w.from_utf8-as_bytes (codec.text a), codec.reads a) refl
