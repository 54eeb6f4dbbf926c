-- ===== src/Hyper/Responses.antt =====
-- The responses of the generated server's interface: the enums of
-- petshop-stacks/rust/hyper/src/lib.rs, and `Error` of src/models.rs.
use speed_test.Base.{String, Option, List, ℤ}
use speed_test.Models.{Pet, Order, User, ApiResponse}

pub record Error : Type 0 where
  pub code : String
  pub message : String

-- `FindPetsByStatusStatusParameter` of src/models.rs, and its `Display`
pub data FindPetsByStatusStatusParameter : Type 0 where
  available pending sold : FindPetsByStatusStatusParameter

unfoldable pub status_parameter_to_string : FindPetsByStatusStatusParameter → String
status_parameter_to_string FindPetsByStatusStatusParameter.available = "available"
status_parameter_to_string FindPetsByStatusStatusParameter.pending = "pending"
status_parameter_to_string FindPetsByStatusStatusParameter.sold = "sold"

pub data AddPetResponse : Type 0 where
  successful_operation : Pet → AddPetResponse
  invalid_input : AddPetResponse
  validation_exception : AddPetResponse
  unexpected_error : Error → AddPetResponse

pub data FindPetsByStatusResponse : Type 0 where
  successful_operation : List Pet → FindPetsByStatusResponse
  invalid_status_value : FindPetsByStatusResponse
  unexpected_error : Error → FindPetsByStatusResponse

pub data FindPetsByTagsResponse : Type 0 where
  successful_operation : List Pet → FindPetsByTagsResponse
  invalid_tag_value : FindPetsByTagsResponse
  unexpected_error : Error → FindPetsByTagsResponse

pub data UpdatePetResponse : Type 0 where
  successful_operation : Pet → UpdatePetResponse
  invalid_id_supplied : UpdatePetResponse
  pet_not_found : UpdatePetResponse
  validation_exception : UpdatePetResponse
  unexpected_error : Error → UpdatePetResponse

pub data DeletePetResponse : Type 0 where
  successful_operation : DeletePetResponse
  invalid_pet_value : DeletePetResponse
  unexpected_error : Error → DeletePetResponse

pub data GetPetByIdResponse : Type 0 where
  successful_operation : Pet → GetPetByIdResponse
  invalid_id_supplied : GetPetByIdResponse
  pet_not_found : GetPetByIdResponse
  unexpected_error : Error → GetPetByIdResponse

pub data UpdatePetWithFormResponse : Type 0 where
  successfully_updated : UpdatePetWithFormResponse
  invalid_input : UpdatePetWithFormResponse
  unexpected_error : Error → UpdatePetWithFormResponse

pub data UploadFileResponse : Type 0 where
  successful_operation : ApiResponse → UploadFileResponse
  unexpected_error : Error → UploadFileResponse

pub data GetInventoryResponse : Type 0 where
  successful_operation : List (String × ℤ) → GetInventoryResponse
  unexpected_error : Error → GetInventoryResponse

pub data PlaceOrderResponse (DateTime : Type 0) : Type 0 where
  successful_operation : Order DateTime → PlaceOrderResponse DateTime
  invalid_input : PlaceOrderResponse DateTime
  validation_exception : PlaceOrderResponse DateTime
  unexpected_error : Error → PlaceOrderResponse DateTime

pub data DeleteOrderResponse : Type 0 where
  successful_operation : DeleteOrderResponse
  invalid_id_supplied : DeleteOrderResponse
  order_not_found : DeleteOrderResponse
  unexpected_error : Error → DeleteOrderResponse

pub data GetOrderByIdResponse (DateTime : Type 0) : Type 0 where
  successful_operation : Order DateTime → GetOrderByIdResponse DateTime
  invalid_id_supplied : GetOrderByIdResponse DateTime
  order_not_found : GetOrderByIdResponse DateTime
  unexpected_error : Error → GetOrderByIdResponse DateTime

pub data CreateUserResponse : Type 0 where
  successful_operation : User → CreateUserResponse
  unexpected_error : Error → CreateUserResponse

pub data CreateUsersWithListInputResponse : Type 0 where
  successful_operation : User → CreateUsersWithListInputResponse
  unexpected_error : Error → CreateUsersWithListInputResponse

pub data LoginUserResponse (DateTime : Type 0) : Type 0 where
  successful_operation : String → Option ℤ → Option DateTime → LoginUserResponse DateTime
  invalid_username : LoginUserResponse DateTime
  unexpected_error : Error → LoginUserResponse DateTime

pub data LogoutUserResponse : Type 0 where
  successful_operation : LogoutUserResponse
  successful_operation_2 : LogoutUserResponse

pub data DeleteUserResponse : Type 0 where
  successful_operation : DeleteUserResponse
  invalid_username_supplied : DeleteUserResponse
  user_not_found : DeleteUserResponse
  unexpected_error : Error → DeleteUserResponse

pub data GetUserByNameResponse : Type 0 where
  successful_operation : User → GetUserByNameResponse
  invalid_username_supplied : GetUserByNameResponse
  user_not_found : GetUserByNameResponse
  unexpected_error : Error → GetUserByNameResponse

pub data UpdateUserResponse : Type 0 where
  successful_operation : UpdateUserResponse
  unexpected_error : Error → UpdateUserResponse
