-- ===== src/Hyper/Server/Write.antt =====
-- The responses that the handlers of petshop-stacks/rust/hyper/src/server/mod.rs write: `match rsp`.
-- `none` is a panic, of `expect("impossible to fail to serialize")`.
use speed_test.Base.{ℕ, String, ◌++◌, Option, none, some, Result, ok, err}
use speed_test.Serde.{Codec}
use speed_test.Hyper.Http.{Response, Wire, insert_header}
use speed_test.Hyper.Header.{write_i32, write_date}
use speed_test.Hyper.Responses.{
  AddPetResponse, FindPetsByStatusResponse, FindPetsByTagsResponse, UpdatePetResponse,
  DeletePetResponse, GetPetByIdResponse, UpdatePetWithFormResponse, UploadFileResponse,
  GetInventoryResponse, PlaceOrderResponse, DeleteOrderResponse, GetOrderByIdResponse,
  CreateUserResponse, CreateUsersWithListInputResponse, LoginUserResponse, LogoutUserResponse,
  DeleteUserResponse, GetUserByNameResponse, UpdateUserResponse,
}
use speed_test.Hyper.Server.Access.{plain}

-- `*response.status_mut() = …`
abbrev pub empty : ℕ → Response → Option Response
empty status response = some (record response { status = status })

module _ {DateTime : Type 0} (w : Wire DateTime) where
  unfoldable pub json : {A : Type 0} → Codec A → ℕ → A → Response → Option Response
  unfolding insert_header
  json codec status a response = elim (codec.to_string a) [
    | err e ↦ none
    | ok text ↦ some (record {
      status = status;
      headers = insert_header "content-type" "application/json" response.headers;
      body = ok (w.as_bytes text);
    })
  ]

  unfoldable pub write_add_pet : Response → AddPetResponse → Option Response
  unfolding json
  write_add_pet r (AddPetResponse.successful_operation body) = json w.pet 200 body r
  write_add_pet r AddPetResponse.invalid_input = empty 400 r
  write_add_pet r AddPetResponse.validation_exception = empty 422 r
  write_add_pet r (AddPetResponse.unexpected_error body) = json w.error 500 body r

  unfoldable pub write_find_pets_by_status : Response → FindPetsByStatusResponse → Option Response
  unfolding json
  write_find_pets_by_status r (FindPetsByStatusResponse.successful_operation body) =
      json w.pets 200 body r
  write_find_pets_by_status r FindPetsByStatusResponse.invalid_status_value = empty 400 r
  write_find_pets_by_status r (FindPetsByStatusResponse.unexpected_error body) =
      json w.error 500 body r

  unfoldable pub write_find_pets_by_tags : Response → FindPetsByTagsResponse → Option Response
  unfolding json
  write_find_pets_by_tags r (FindPetsByTagsResponse.successful_operation body) =
      json w.pets 200 body r
  write_find_pets_by_tags r FindPetsByTagsResponse.invalid_tag_value = empty 400 r
  write_find_pets_by_tags r (FindPetsByTagsResponse.unexpected_error body) = json w.error 500 body r

  unfoldable pub write_update_pet : Response → UpdatePetResponse → Option Response
  unfolding json
  write_update_pet r (UpdatePetResponse.successful_operation body) = json w.pet 200 body r
  write_update_pet r UpdatePetResponse.invalid_id_supplied = empty 400 r
  write_update_pet r UpdatePetResponse.pet_not_found = empty 404 r
  write_update_pet r UpdatePetResponse.validation_exception = empty 422 r
  write_update_pet r (UpdatePetResponse.unexpected_error body) = json w.error 500 body r

  unfoldable pub write_delete_pet : Response → DeletePetResponse → Option Response
  unfolding json
  write_delete_pet r DeletePetResponse.successful_operation = empty 200 r
  write_delete_pet r DeletePetResponse.invalid_pet_value = empty 400 r
  write_delete_pet r (DeletePetResponse.unexpected_error body) = json w.error 500 body r

  unfoldable pub write_get_pet_by_id : Response → GetPetByIdResponse → Option Response
  unfolding json
  write_get_pet_by_id r (GetPetByIdResponse.successful_operation body) = json w.pet 200 body r
  write_get_pet_by_id r GetPetByIdResponse.invalid_id_supplied = empty 400 r
  write_get_pet_by_id r GetPetByIdResponse.pet_not_found = empty 404 r
  write_get_pet_by_id r (GetPetByIdResponse.unexpected_error body) = json w.error 500 body r

  unfoldable pub write_update_pet_with_form : Response → UpdatePetWithFormResponse → Option Response
  unfolding json
  write_update_pet_with_form r UpdatePetWithFormResponse.successfully_updated = empty 200 r
  write_update_pet_with_form r UpdatePetWithFormResponse.invalid_input = empty 400 r
  write_update_pet_with_form r (UpdatePetWithFormResponse.unexpected_error body) =
      json w.error 500 body r

  unfoldable pub write_upload_file : Response → UploadFileResponse → Option Response
  unfolding json
  write_upload_file r (UploadFileResponse.successful_operation body) =
      json w.api_response 200 body r
  write_upload_file r (UploadFileResponse.unexpected_error body) = json w.error 500 body r

  unfoldable pub write_get_inventory : Response → GetInventoryResponse → Option Response
  unfolding json
  write_get_inventory r (GetInventoryResponse.successful_operation body) =
      json w.inventory 200 body r
  write_get_inventory r (GetInventoryResponse.unexpected_error body) = json w.error 500 body r

  unfoldable pub write_place_order : Response → PlaceOrderResponse DateTime → Option Response
  unfolding json
  write_place_order r (PlaceOrderResponse.successful_operation body) = json w.order 200 body r
  write_place_order r PlaceOrderResponse.invalid_input = empty 400 r
  write_place_order r PlaceOrderResponse.validation_exception = empty 422 r
  write_place_order r (PlaceOrderResponse.unexpected_error body) = json w.error 500 body r

  unfoldable pub write_delete_order : Response → DeleteOrderResponse → Option Response
  unfolding json
  write_delete_order r DeleteOrderResponse.successful_operation = empty 200 r
  write_delete_order r DeleteOrderResponse.invalid_id_supplied = empty 400 r
  write_delete_order r DeleteOrderResponse.order_not_found = empty 404 r
  write_delete_order r (DeleteOrderResponse.unexpected_error body) = json w.error 500 body r

  unfoldable pub write_get_order_by_id : Response → GetOrderByIdResponse DateTime → Option Response
  unfolding json
  write_get_order_by_id r (GetOrderByIdResponse.successful_operation body) = json w.order 200 body r
  write_get_order_by_id r GetOrderByIdResponse.invalid_id_supplied = empty 400 r
  write_get_order_by_id r GetOrderByIdResponse.order_not_found = empty 404 r
  write_get_order_by_id r (GetOrderByIdResponse.unexpected_error body) = json w.error 500 body r

  unfoldable pub write_create_user : Response → CreateUserResponse → Option Response
  unfolding json
  write_create_user r (CreateUserResponse.successful_operation body) = json w.user 200 body r
  write_create_user r (CreateUserResponse.unexpected_error body) = json w.error 500 body r

  unfoldable pub write_create_users_with_list_input :
      Response → CreateUsersWithListInputResponse → Option Response
  unfolding json
  write_create_users_with_list_input r
        (CreateUsersWithListInputResponse.successful_operation body) =
      json w.user 200 body r
  write_create_users_with_list_input r (CreateUsersWithListInputResponse.unexpected_error body) =
      json w.error 500 body r

  -- An optional header; where its value cannot be one, the response is replaced.
  abbrev pub add_header :
      String → String → Option (Result String String) → Response → Result Response Response
  add_header name field none r = ok r
  add_header name field (some (ok v)) r = ok (record r { headers = insert_header name v r.headers })
  add_header name field (some (err e)) r =
      err
        (plain w 500 ("An internal server error occurred handling " ++ field ++ " header - " ++ e))

  abbrev pub login_body : String → Result Response Response → Option Response
  login_body body (err response) = some response
  login_body body (ok r) = some (record r {
    headers = insert_header "content-type" "application/json" r.headers;
    body = ok (w.as_bytes body);
  })

  unfoldable pub write_login_user : Response → LoginUserResponse DateTime → Option Response
  unfolding json insert_header write_i32 write_date
  write_login_user r (LoginUserResponse.successful_operation body x_rate_limit x_expires_after) =
      let limited =
        add_header "x-rate-limit" "x_rate_limit"
          (elim x_rate_limit [ none ↦ none | some z ↦ some (write_i32 w z) ])
          (record r { status = 200 }) in
      login_body body (elim limited [
        | err response ↦ err response
        | ok l ↦
            add_header "x-expires-after" "x_expires_after"
              (elim x_expires_after [ none ↦ none | some t ↦ some (write_date w t) ]) l
      ])
  write_login_user r LoginUserResponse.invalid_username = empty 400 r
  write_login_user r (LoginUserResponse.unexpected_error body) = json w.error 500 body r

  unfoldable pub write_logout_user : Response → LogoutUserResponse → Option Response
  write_logout_user r LogoutUserResponse.successful_operation = empty 200 r
  write_logout_user r LogoutUserResponse.successful_operation_2 = empty 500 r

  unfoldable pub write_delete_user : Response → DeleteUserResponse → Option Response
  unfolding json
  write_delete_user r DeleteUserResponse.successful_operation = empty 200 r
  write_delete_user r DeleteUserResponse.invalid_username_supplied = empty 400 r
  write_delete_user r DeleteUserResponse.user_not_found = empty 404 r
  write_delete_user r (DeleteUserResponse.unexpected_error body) = json w.error 500 body r

  unfoldable pub write_get_user_by_name : Response → GetUserByNameResponse → Option Response
  unfolding json
  write_get_user_by_name r (GetUserByNameResponse.successful_operation body) =
      json w.user 200 body r
  write_get_user_by_name r GetUserByNameResponse.invalid_username_supplied = empty 400 r
  write_get_user_by_name r GetUserByNameResponse.user_not_found = empty 404 r
  write_get_user_by_name r (GetUserByNameResponse.unexpected_error body) = json w.error 500 body r

  unfoldable pub write_update_user : Response → UpdateUserResponse → Option Response
  unfolding json
  write_update_user r UpdateUserResponse.successful_operation = empty 200 r
  write_update_user r (UpdateUserResponse.unexpected_error body) = json w.error 500 body r
