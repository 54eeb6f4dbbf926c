-- ===== src/Hyper/Agreement/Statuses/Sent.antt =====
-- The status of a response that the router writes, and that of the response in the words of the
-- Actix server.
use speed_test.Base.{
  ℕ, String, Option, none, some, true, ◌||◌, [], ◌≡◌, Result, ok, err, map_option, arith, ◌==◌,
  if◌then◌else◌, string_key,
}
use speed_test.Actix.Response.{HttpResponse, response, panicked}
use speed_test.Hyper.Http.{Response, Wire}
use speed_test.Hyper.Header.{write_date, write_i32}
use speed_test.Hyper.Responses.{
  AddPetResponse, FindPetsByStatusResponse, FindPetsByTagsResponse, UpdatePetResponse,
  DeletePetResponse, GetPetByIdResponse, UpdatePetWithFormResponse, UploadFileResponse,
  GetInventoryResponse, PlaceOrderResponse, DeleteOrderResponse, GetOrderByIdResponse,
  CreateUserResponse, CreateUsersWithListInputResponse, LoginUserResponse, DeleteUserResponse,
  GetUserByNameResponse, UpdateUserResponse,
}
use speed_test.Hyper.Server.Write.{
  write_add_pet, write_find_pets_by_status, write_find_pets_by_tags, write_update_pet,
  write_delete_pet, write_get_pet_by_id, write_update_pet_with_form, write_upload_file,
  write_get_inventory, write_place_order, write_delete_order, write_get_order_by_id,
  write_create_user, write_create_users_with_list_input, write_login_user, write_delete_user,
  write_get_user_by_name, write_update_user,
}
use speed_test.Hyper.Server.Answers.{is_ok}
use speed_test.Hyper.Client.Reply.{serialized}
use speed_test.Hyper.Agreement.{in_actix}
use speed_test.Hyper.Agreement.Pet as PetWords
use speed_test.Hyper.Agreement.Store as StoreWords
use speed_test.Hyper.Agreement.User as UserWords
use speed_test.Hyper.Agreement.Runs.{Request}

abbrev pub status_of : {D : Type 0} → HttpResponse D → Option ℕ
status_of (response status body) = some status
status_of panicked = none

-- A status of the Actix server, and that of the Hyper server in its place.
abbrev pub kept : ℕ → ℕ
kept n = n

abbrev pub lost : ℕ → ℕ
lost n = if n == 404 || n == 400 then 500 else n

abbrev pub refused : ℕ → ℕ
refused n = if n == 401 then 400 else n

abbrev pub in_place : {D : Type 0} → Request D → ℕ → ℕ
in_place (Request.upload_file id metadata body) n = lost n
in_place (Request.create_user user) n = lost n
in_place (Request.create_users_with_list_input users) n = lost n
in_place (Request.login_user expires username password) n = refused n
in_place (Request.update_user username user) n = lost n
in_place _ n = n

module _ {D : Type 0} (w : Wire D) where
  abbrev begun : Response
  begun = record { status = 200; headers = []; body = ok [] }

  -- The status of the response that a handler writes.
  abbrev pub sent : {R : Type 0} → (Response → R → Option Response) → Result String R → Option ℕ
  sent write (ok r) = map_option (λ (x : Response). x.status) (write begun r)
  sent write (err e) = some 500

  pub add_pet_sent :
      (r : Result String AddPetResponse) (a : HttpResponse D)
      → in_actix PetWords.say_add r ≡ some a
      → sent (write_add_pet w) r ≡ map_option kept (status_of a)
  unfolding write_add_pet
  add_pet_sent (err e) a h = ground arith
  add_pet_sent (ok (AddPetResponse.successful_operation body)) a h =
      rw (serialized w w.pet 200 body begun) (ground arith)
  add_pet_sent (ok AddPetResponse.invalid_input) a h = ground arith
  add_pet_sent (ok AddPetResponse.validation_exception) a h = ground arith
  add_pet_sent (ok (AddPetResponse.unexpected_error body)) a h =
      rw (serialized w w.error 500 body begun) (ground arith)

  pub find_pets_by_status_sent :
      (r : Result String FindPetsByStatusResponse) (a : HttpResponse D)
      → in_actix PetWords.say_by_status r ≡ some a
      → sent (write_find_pets_by_status w) r ≡ map_option kept (status_of a)
  unfolding write_find_pets_by_status
  find_pets_by_status_sent (err e) a h = ground arith
  find_pets_by_status_sent (ok (FindPetsByStatusResponse.successful_operation body)) a h =
      rw (serialized w w.pets 200 body begun) (ground arith)
  find_pets_by_status_sent (ok FindPetsByStatusResponse.invalid_status_value) a h = ground arith
  find_pets_by_status_sent (ok (FindPetsByStatusResponse.unexpected_error body)) a h =
      rw (serialized w w.error 500 body begun) (ground arith)

  pub find_pets_by_tags_sent :
      (r : Result String FindPetsByTagsResponse) (a : HttpResponse D)
      → in_actix PetWords.say_by_tags r ≡ some a
      → sent (write_find_pets_by_tags w) r ≡ map_option kept (status_of a)
  unfolding write_find_pets_by_tags
  find_pets_by_tags_sent (err e) a h = ground arith
  find_pets_by_tags_sent (ok (FindPetsByTagsResponse.successful_operation body)) a h =
      rw (serialized w w.pets 200 body begun) (ground arith)
  find_pets_by_tags_sent (ok FindPetsByTagsResponse.invalid_tag_value) a h = ground arith
  find_pets_by_tags_sent (ok (FindPetsByTagsResponse.unexpected_error body)) a h =
      rw (serialized w w.error 500 body begun) (ground arith)

  pub update_pet_sent :
      (r : Result String UpdatePetResponse) (a : HttpResponse D)
      → in_actix PetWords.say_update r ≡ some a
      → sent (write_update_pet w) r ≡ map_option kept (status_of a)
  unfolding write_update_pet
  update_pet_sent (err e) a h = ground arith
  update_pet_sent (ok (UpdatePetResponse.successful_operation body)) a h =
      rw (serialized w w.pet 200 body begun) (ground arith)
  update_pet_sent (ok UpdatePetResponse.invalid_id_supplied) a h = ground arith
  update_pet_sent (ok UpdatePetResponse.pet_not_found) a h = ground arith
  update_pet_sent (ok UpdatePetResponse.validation_exception) a h = ground arith
  update_pet_sent (ok (UpdatePetResponse.unexpected_error body)) a h =
      rw (serialized w w.error 500 body begun) (ground arith)

  pub delete_pet_sent :
      (r : Result String DeletePetResponse) (a : HttpResponse D)
      → in_actix PetWords.say_delete r ≡ some a
      → sent (write_delete_pet w) r ≡ map_option kept (status_of a)
  unfolding write_delete_pet
  delete_pet_sent (err e) a h = ground arith
  delete_pet_sent (ok DeletePetResponse.successful_operation) a h = ground arith
  delete_pet_sent (ok DeletePetResponse.invalid_pet_value) a h = ground arith
  delete_pet_sent (ok (DeletePetResponse.unexpected_error body)) a h =
      rw (serialized w w.error 500 body begun) (ground arith)

  pub get_pet_by_id_sent :
      (r : Result String GetPetByIdResponse) (a : HttpResponse D)
      → in_actix PetWords.say_by_id r ≡ some a
      → sent (write_get_pet_by_id w) r ≡ map_option kept (status_of a)
  unfolding write_get_pet_by_id
  get_pet_by_id_sent (err e) a h = ground arith
  get_pet_by_id_sent (ok (GetPetByIdResponse.successful_operation body)) a h =
      rw (serialized w w.pet 200 body begun) (ground arith)
  get_pet_by_id_sent (ok GetPetByIdResponse.invalid_id_supplied) a h = ground arith
  get_pet_by_id_sent (ok GetPetByIdResponse.pet_not_found) a h = ground arith
  get_pet_by_id_sent (ok (GetPetByIdResponse.unexpected_error body)) a h =
      rw (serialized w w.error 500 body begun) (ground arith)

  pub update_pet_with_form_sent :
      (r : Result String UpdatePetWithFormResponse) (a : HttpResponse D)
      → in_actix PetWords.say_form r ≡ some a
      → sent (write_update_pet_with_form w) r ≡ map_option kept (status_of a)
  unfolding write_update_pet_with_form
  update_pet_with_form_sent (err e) a h = ground arith
  update_pet_with_form_sent (ok UpdatePetWithFormResponse.successfully_updated) a h = ground arith
  update_pet_with_form_sent (ok UpdatePetWithFormResponse.invalid_input) a h = ground arith
  update_pet_with_form_sent (ok (UpdatePetWithFormResponse.unexpected_error body)) a h =
      rw (serialized w w.error 500 body begun) (ground arith)

  pub upload_file_sent :
      (r : Result String UploadFileResponse) (a : HttpResponse D)
      → in_actix PetWords.say_upload r ≡ some a
      → sent (write_upload_file w) r ≡ map_option lost (status_of a)
  unfolding write_upload_file
  upload_file_sent (err e) a h = ground arith
  upload_file_sent (ok (UploadFileResponse.successful_operation body)) a h =
      rw (serialized w w.api_response 200 body begun) (ground arith)
  upload_file_sent (ok (UploadFileResponse.unexpected_error body)) a h =
      rw (serialized w w.error 500 body begun) (ground arith)

  pub get_inventory_sent :
      (r : Result String GetInventoryResponse) (a : HttpResponse D)
      → in_actix StoreWords.say_inventory r ≡ some a
      → sent (write_get_inventory w) r ≡ map_option kept (status_of a)
  unfolding write_get_inventory
  get_inventory_sent (err e) a h = ground arith
  get_inventory_sent (ok (GetInventoryResponse.successful_operation body)) a h =
      rw (serialized w w.inventory 200 body begun) (ground arith)
  get_inventory_sent (ok (GetInventoryResponse.unexpected_error body)) a h =
      rw (serialized w w.error 500 body begun) (ground arith)

  pub place_order_sent :
      (r : Result String (PlaceOrderResponse D)) (a : HttpResponse D)
      → in_actix StoreWords.say_place r ≡ some a
      → sent (write_place_order w) r ≡ map_option kept (status_of a)
  unfolding write_place_order
  place_order_sent (err e) a h = ground arith
  place_order_sent (ok (PlaceOrderResponse.successful_operation body)) a h =
      rw (serialized w w.order 200 body begun) (ground arith)
  place_order_sent (ok PlaceOrderResponse.invalid_input) a h = ground arith
  place_order_sent (ok PlaceOrderResponse.validation_exception) a h = ground arith
  place_order_sent (ok (PlaceOrderResponse.unexpected_error body)) a h =
      rw (serialized w w.error 500 body begun) (ground arith)

  pub delete_order_sent :
      (r : Result String DeleteOrderResponse) (a : HttpResponse D)
      → in_actix StoreWords.say_delete r ≡ some a
      → sent (write_delete_order w) r ≡ map_option kept (status_of a)
  unfolding write_delete_order
  delete_order_sent (err e) a h = ground arith
  delete_order_sent (ok DeleteOrderResponse.successful_operation) a h = ground arith
  delete_order_sent (ok DeleteOrderResponse.invalid_id_supplied) a h = ground arith
  delete_order_sent (ok DeleteOrderResponse.order_not_found) a h = ground arith
  delete_order_sent (ok (DeleteOrderResponse.unexpected_error body)) a h =
      rw (serialized w w.error 500 body begun) (ground arith)

  pub get_order_by_id_sent :
      (r : Result String (GetOrderByIdResponse D)) (a : HttpResponse D)
      → in_actix StoreWords.say_by_id r ≡ some a
      → sent (write_get_order_by_id w) r ≡ map_option kept (status_of a)
  unfolding write_get_order_by_id
  get_order_by_id_sent (err e) a h = ground arith
  get_order_by_id_sent (ok (GetOrderByIdResponse.successful_operation body)) a h =
      rw (serialized w w.order 200 body begun) (ground arith)
  get_order_by_id_sent (ok GetOrderByIdResponse.invalid_id_supplied) a h = ground arith
  get_order_by_id_sent (ok GetOrderByIdResponse.order_not_found) a h = ground arith
  get_order_by_id_sent (ok (GetOrderByIdResponse.unexpected_error body)) a h =
      rw (serialized w w.error 500 body begun) (ground arith)

  pub create_user_sent :
      (r : Result String CreateUserResponse) (a : HttpResponse D)
      → in_actix UserWords.say_create r ≡ some a
      → sent (write_create_user w) r ≡ map_option lost (status_of a)
  unfolding write_create_user
  create_user_sent (err e) a h = ground arith
  create_user_sent (ok (CreateUserResponse.successful_operation body)) a h =
      rw (serialized w w.user 200 body begun) (ground arith)
  create_user_sent (ok (CreateUserResponse.unexpected_error body)) a h =
      rw (serialized w w.error 500 body begun) (ground arith)

  pub create_users_with_list_input_sent :
      (r : Result String CreateUsersWithListInputResponse) (a : HttpResponse D)
      → in_actix UserWords.say_list r ≡ some a
      → sent (write_create_users_with_list_input w) r ≡ map_option lost (status_of a)
  unfolding write_create_users_with_list_input
  create_users_with_list_input_sent (err e) a h = ground arith
  create_users_with_list_input_sent
        (ok (CreateUsersWithListInputResponse.successful_operation body)) a h =
      rw (serialized w w.user 200 body begun) (ground arith)
  create_users_with_list_input_sent (ok (CreateUsersWithListInputResponse.unexpected_error body)) a
        h =
      rw (serialized w w.error 500 body begun) (ground arith)

  pub login_user_sent :
      ((t : D) → is_ok (w.header_value (w.to_rfc3339 t)) ≡ true)
      → (username : Option String) (r : Result String (LoginUserResponse D)) (a : HttpResponse D)
      → in_actix (UserWords.say_login username) r ≡ some a
      → sent (write_login_user w) r ≡ map_option refused (status_of a)
  unfolding write_login_user write_i32 write_date
  login_user_sent dated username (err e) a h = ground arith
  login_user_sent dated none (ok (LoginUserResponse.successful_operation body limit (some t))) a h =
      ground (arith, dated t)
  login_user_sent dated (some u) (ok (LoginUserResponse.successful_operation body limit (some t))) a
        h =
      ground (arith, dated t)
  login_user_sent dated none (ok (LoginUserResponse.successful_operation body limit none)) a h =
      ground arith
  login_user_sent dated (some u) (ok (LoginUserResponse.successful_operation body limit none)) a h =
      ground arith
  login_user_sent dated none (ok LoginUserResponse.invalid_username) a h = ground arith
  login_user_sent dated (some u) (ok LoginUserResponse.invalid_username) a h = ground arith
  login_user_sent dated none (ok (LoginUserResponse.unexpected_error e)) a h = ground arith
  login_user_sent dated (some u) (ok (LoginUserResponse.unexpected_error e)) a h = ground arith

  pub delete_user_sent :
      (r : Result String DeleteUserResponse) (a : HttpResponse D)
      → in_actix UserWords.say_delete r ≡ some a
      → sent (write_delete_user w) r ≡ map_option kept (status_of a)
  unfolding write_delete_user
  delete_user_sent (err e) a h = ground arith
  delete_user_sent (ok DeleteUserResponse.successful_operation) a h = ground arith
  delete_user_sent (ok DeleteUserResponse.invalid_username_supplied) a h = ground arith
  delete_user_sent (ok DeleteUserResponse.user_not_found) a h = ground arith
  delete_user_sent (ok (DeleteUserResponse.unexpected_error body)) a h =
      rw (serialized w w.error 500 body begun) (ground arith)

  pub get_user_by_name_sent :
      (r : Result String GetUserByNameResponse) (a : HttpResponse D)
      → in_actix UserWords.say_by_name r ≡ some a
      → sent (write_get_user_by_name w) r ≡ map_option kept (status_of a)
  unfolding write_get_user_by_name
  get_user_by_name_sent (err e) a h = ground arith
  get_user_by_name_sent (ok (GetUserByNameResponse.successful_operation body)) a h =
      rw (serialized w w.user 200 body begun) (ground arith)
  get_user_by_name_sent (ok GetUserByNameResponse.invalid_username_supplied) a h = ground arith
  get_user_by_name_sent (ok GetUserByNameResponse.user_not_found) a h = ground arith
  get_user_by_name_sent (ok (GetUserByNameResponse.unexpected_error body)) a h =
      rw (serialized w w.error 500 body begun) (ground arith)

  pub update_user_sent :
      (r : Result String UpdateUserResponse) (a : HttpResponse D)
      → in_actix UserWords.say_update r ≡ some a
      → sent (write_update_user w) r ≡ map_option lost (status_of a)
  unfolding write_update_user
  update_user_sent (err e) a h = ground arith
  update_user_sent (ok UpdateUserResponse.successful_operation) a h = ground arith
  update_user_sent (ok (UpdateUserResponse.unexpected_error body)) a h =
      rw (serialized w w.error 500 body begun) (ground arith)
