-- ===== src/Hyper/Client/Read.antt =====
-- How the operations of petshop-stacks/rust/hyper/src/client/mod.rs read the response of the server:
-- `match response.status().as_u16()`.
use speed_test.Base.{String, ◌++◌, Option, none, some, Result, ok, err, ◌==◌, if◌then◌else◌}
use speed_test.Serde.{Codec}
use speed_test.Hyper.Http.{Response, Wire, get_header}
use speed_test.Hyper.Header.{read_i32, read_date}
use speed_test.Hyper.Responses.{
  AddPetResponse, FindPetsByStatusResponse, FindPetsByTagsResponse, UpdatePetResponse,
  DeletePetResponse, GetPetByIdResponse, UpdatePetWithFormResponse, UploadFileResponse,
  GetInventoryResponse, PlaceOrderResponse, DeleteOrderResponse, GetOrderByIdResponse,
  CreateUserResponse, CreateUsersWithListInputResponse, LoginUserResponse, LogoutUserResponse,
  DeleteUserResponse, GetUserByNameResponse, UpdateUserResponse,
}
use speed_test.Hyper.Client.Message.{read_as, unexpected}

module _ {DateTime : Type 0} (w : Wire DateTime) where
  abbrev pub json : {A R : Type 0} → Codec A → (A → R) → Response → Result String R
  json codec make response = read_as w codec.from_str make response

  -- An optional header of a response, read by `read`.
  abbrev pub header :
      {A : Type 0}
      → String
      → String
      → (String → Result String A)
      → Response
      → Result String (Option A)
  header name shown read response = elim (get_header name response.headers) [
    | none ↦ ok none
    | some v ↦ elim (read v) [
      | ok a ↦ ok (some a)
      | err e ↦ err ("Invalid response header " ++ shown ++ " for response 200 - " ++ e)
    ]
  ]

  unfoldable pub read_login : Response → Result String (LoginUserResponse DateTime)
  unfolding get_header read_i32 read_date read_as
  read_login r = elim (header "x-rate-limit" "X-Rate-Limit" (read_i32 w) r) [
    | err e ↦ err e
    | ok limit ↦ elim (header "x-expires-after" "X-Expires-After" (read_date w) r) [
      | err e ↦ err e
      | ok expires ↦
          read_as w w.xml_text (λ body. LoginUserResponse.successful_operation body limit expires) r
    ]
  ]

  unfoldable pub read_add_pet : Response → Result String AddPetResponse
  unfolding unexpected read_as
  read_add_pet r =
      if r.status == 200
      then json w.pet AddPetResponse.successful_operation r
      else if r.status == 400
      then ok AddPetResponse.invalid_input
      else if r.status == 422
      then ok AddPetResponse.validation_exception
      else if r.status == 0
      then json w.error AddPetResponse.unexpected_error r
      else unexpected w r

  unfoldable pub read_find_pets_by_status : Response → Result String FindPetsByStatusResponse
  unfolding unexpected read_as
  read_find_pets_by_status r =
      if r.status == 200
      then json w.pets FindPetsByStatusResponse.successful_operation r
      else if r.status == 400
      then ok FindPetsByStatusResponse.invalid_status_value
      else if r.status == 0
      then json w.error FindPetsByStatusResponse.unexpected_error r
      else unexpected w r

  unfoldable pub read_find_pets_by_tags : Response → Result String FindPetsByTagsResponse
  unfolding unexpected read_as
  read_find_pets_by_tags r =
      if r.status == 200
      then json w.pets FindPetsByTagsResponse.successful_operation r
      else if r.status == 400
      then ok FindPetsByTagsResponse.invalid_tag_value
      else if r.status == 0
      then json w.error FindPetsByTagsResponse.unexpected_error r
      else unexpected w r

  unfoldable pub read_update_pet : Response → Result String UpdatePetResponse
  unfolding unexpected read_as
  read_update_pet r =
      if r.status == 200
      then json w.pet UpdatePetResponse.successful_operation r
      else if r.status == 400
      then ok UpdatePetResponse.invalid_id_supplied
      else if r.status == 404
      then ok UpdatePetResponse.pet_not_found
      else if r.status == 422
      then ok UpdatePetResponse.validation_exception
      else if r.status == 0
      then json w.error UpdatePetResponse.unexpected_error r
      else unexpected w r

  unfoldable pub read_delete_pet : Response → Result String DeletePetResponse
  unfolding unexpected read_as
  read_delete_pet r =
      if r.status == 200
      then ok DeletePetResponse.successful_operation
      else if r.status == 400
      then ok DeletePetResponse.invalid_pet_value
      else if r.status == 0
      then json w.error DeletePetResponse.unexpected_error r
      else unexpected w r

  unfoldable pub read_get_pet_by_id : Response → Result String GetPetByIdResponse
  unfolding unexpected read_as
  read_get_pet_by_id r =
      if r.status == 200
      then json w.pet GetPetByIdResponse.successful_operation r
      else if r.status == 400
      then ok GetPetByIdResponse.invalid_id_supplied
      else if r.status == 404
      then ok GetPetByIdResponse.pet_not_found
      else if r.status == 0
      then json w.error GetPetByIdResponse.unexpected_error r
      else unexpected w r

  unfoldable pub read_update_pet_with_form : Response → Result String UpdatePetWithFormResponse
  unfolding unexpected read_as
  read_update_pet_with_form r =
      if r.status == 200
      then ok UpdatePetWithFormResponse.successfully_updated
      else if r.status == 400
      then ok UpdatePetWithFormResponse.invalid_input
      else if r.status == 0
      then json w.error UpdatePetWithFormResponse.unexpected_error r
      else unexpected w r

  unfoldable pub read_upload_file : Response → Result String UploadFileResponse
  unfolding unexpected read_as
  read_upload_file r =
      if r.status == 200
      then json w.api_response UploadFileResponse.successful_operation r
      else if r.status == 0
      then json w.error UploadFileResponse.unexpected_error r
      else unexpected w r

  unfoldable pub read_get_inventory : Response → Result String GetInventoryResponse
  unfolding unexpected read_as
  read_get_inventory r =
      if r.status == 200
      then json w.inventory GetInventoryResponse.successful_operation r
      else if r.status == 0
      then json w.error GetInventoryResponse.unexpected_error r
      else unexpected w r

  unfoldable pub read_place_order : Response → Result String (PlaceOrderResponse DateTime)
  unfolding unexpected read_as
  read_place_order r =
      if r.status == 200
      then json w.order PlaceOrderResponse.successful_operation r
      else if r.status == 400
      then ok PlaceOrderResponse.invalid_input
      else if r.status == 422
      then ok PlaceOrderResponse.validation_exception
      else if r.status == 0
      then json w.error PlaceOrderResponse.unexpected_error r
      else unexpected w r

  unfoldable pub read_delete_order : Response → Result String DeleteOrderResponse
  unfolding unexpected read_as
  read_delete_order r =
      if r.status == 200
      then ok DeleteOrderResponse.successful_operation
      else if r.status == 400
      then ok DeleteOrderResponse.invalid_id_supplied
      else if r.status == 404
      then ok DeleteOrderResponse.order_not_found
      else if r.status == 0
      then json w.error DeleteOrderResponse.unexpected_error r
      else unexpected w r

  unfoldable pub read_get_order_by_id : Response → Result String (GetOrderByIdResponse DateTime)
  unfolding unexpected read_as
  read_get_order_by_id r =
      if r.status == 200
      then json w.order GetOrderByIdResponse.successful_operation r
      else if r.status == 400
      then ok GetOrderByIdResponse.invalid_id_supplied
      else if r.status == 404
      then ok GetOrderByIdResponse.order_not_found
      else if r.status == 0
      then json w.error GetOrderByIdResponse.unexpected_error r
      else unexpected w r

  unfoldable pub read_create_user : Response → Result String CreateUserResponse
  unfolding unexpected read_as
  read_create_user r =
      if r.status == 200
      then json w.user CreateUserResponse.successful_operation r
      else if r.status == 0
      then json w.error CreateUserResponse.unexpected_error r
      else unexpected w r

  unfoldable pub read_create_users_with_list_input :
      Response → Result String CreateUsersWithListInputResponse
  unfolding unexpected read_as
  read_create_users_with_list_input r =
      if r.status == 200
      then json w.user CreateUsersWithListInputResponse.successful_operation r
      else if r.status == 0
      then json w.error CreateUsersWithListInputResponse.unexpected_error r
      else unexpected w r

  unfoldable pub read_login_user : Response → Result String (LoginUserResponse DateTime)
  unfolding unexpected read_as read_login
  read_login_user r =
      if r.status == 200
      then read_login r
      else if r.status == 400
      then ok LoginUserResponse.invalid_username
      else if r.status == 0
      then json w.error LoginUserResponse.unexpected_error r
      else unexpected w r

  unfoldable pub read_logout_user : Response → Result String LogoutUserResponse
  unfolding unexpected
  read_logout_user r =
      if r.status == 200
      then ok LogoutUserResponse.successful_operation
      else if r.status == 0
      then ok LogoutUserResponse.successful_operation_2
      else unexpected w r

  unfoldable pub read_delete_user : Response → Result String DeleteUserResponse
  unfolding unexpected read_as
  read_delete_user r =
      if r.status == 200
      then ok DeleteUserResponse.successful_operation
      else if r.status == 400
      then ok DeleteUserResponse.invalid_username_supplied
      else if r.status == 404
      then ok DeleteUserResponse.user_not_found
      else if r.status == 0
      then json w.error DeleteUserResponse.unexpected_error r
      else unexpected w r

  unfoldable pub read_get_user_by_name : Response → Result String GetUserByNameResponse
  unfolding unexpected read_as
  read_get_user_by_name r =
      if r.status == 200
      then json w.user GetUserByNameResponse.successful_operation r
      else if r.status == 400
      then ok GetUserByNameResponse.invalid_username_supplied
      else if r.status == 404
      then ok GetUserByNameResponse.user_not_found
      else if r.status == 0
      then json w.error GetUserByNameResponse.unexpected_error r
      else unexpected w r

  unfoldable pub read_update_user : Response → Result String UpdateUserResponse
  unfolding unexpected read_as
  read_update_user r =
      if r.status == 200
      then ok UpdateUserResponse.successful_operation
      else if r.status == 0
      then json w.error UpdateUserResponse.unexpected_error r
      else unexpected w r
