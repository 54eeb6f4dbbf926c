-- ===== src/Hyper/Agreement/Statuses.antt =====
-- The HTTP statuses of the two servers, request by request.
pub mod Sent
use speed_test.Base.{
  ℕ, Option, none, some, Bool, false, ◌||◌, List, [], ℤ, refl, ap, sym, ◌∙◌, ok, err, ◌==◌,
  if◌then◌else◌, same, string_key, Option-cases, inl, inr,
}
use speed_test.Models.{Pet, Order, User}
use speed_test.Serde.{Json, Chrono}
use speed_test.Sql.Postgres.{Postgres}
use speed_test.Actix.Response.{response, panicked, internal_error}
use speed_test.Hyper.Http.{Response, Wire}
use speed_test.Hyper.Header.{write_date, write_i32}
use speed_test.Hyper.Responses.{
  AddPetResponse, FindPetsByStatusResponse, FindPetsByTagsResponse, UpdatePetResponse,
  DeletePetResponse, GetPetByIdResponse, UpdatePetWithFormResponse, UploadFileResponse,
  GetInventoryResponse, PlaceOrderResponse, DeleteOrderResponse, GetOrderByIdResponse,
  CreateUserResponse, LoginUserResponse, DeleteUserResponse, GetUserByNameResponse,
  UpdateUserResponse,
}
use speed_test.Hyper.Server.Write.{
  write_add_pet, write_find_pets_by_status, write_find_pets_by_tags, write_update_pet,
  write_delete_pet, write_get_pet_by_id, write_update_pet_with_form, write_upload_file,
  write_get_inventory, write_place_order, write_delete_order, write_get_order_by_id,
  write_create_user, write_create_users_with_list_input, write_login_user, write_delete_user,
  write_get_user_by_name, write_update_user,
}
use speed_test.Hyper.Client.Reply.{serialized}
use speed_test.Hyper.Api.Pet as HyperPet
use speed_test.Hyper.Api.Store as HyperStore
use speed_test.Hyper.Api.User as HyperUser
use speed_test.Hyper.Agreement.{in_actix}
use speed_test.Hyper.Agreement.Pet as PetWords
use speed_test.Hyper.Agreement.Store as StoreWords
use speed_test.Hyper.Agreement.User as UserWords
use speed_test.Hyper.Agreement.Runs.{Request}
use speed_test.Hyper.Agreement.Statuses.Sent.{sent}

module _ (json : Json) (c : Chrono) (pg : Postgres c.NaiveDateTime) (w : Wire c.DateTime) where
  -- The status that the router of the Hyper server writes.
  unfoldable pub hyper_status : Request c.DateTime → pg.State → Option ℕ
  unfolding write_add_pet write_find_pets_by_status write_find_pets_by_tags write_update_pet
      write_delete_pet write_get_pet_by_id write_update_pet_with_form write_upload_file
      write_get_inventory write_place_order write_delete_order write_get_order_by_id
      write_create_user write_create_users_with_list_input write_login_user write_delete_user
      write_get_user_by_name write_update_user
  hyper_status (Request.add_pet pet) s =
      sent w (write_add_pet w) (HyperPet.add_pet json c pg pet s).0
  hyper_status (Request.find_pets_by_status status) s =
      sent w (write_find_pets_by_status w) (HyperPet.find_pets_by_status json c pg status s).0
  hyper_status (Request.find_pets_by_tags tags) s =
      sent w (write_find_pets_by_tags w) (HyperPet.find_pets_by_tags json c pg tags s).0
  hyper_status (Request.update_pet pet) s =
      sent w (write_update_pet w) (HyperPet.update_pet json c pg pet s).0
  hyper_status (Request.delete_pet id api_key) s =
      sent w (write_delete_pet w) (HyperPet.delete_pet json c pg id api_key s).0
  hyper_status (Request.get_pet_by_id id) s =
      sent w (write_get_pet_by_id w) (HyperPet.get_pet_by_id json c pg id s).0
  hyper_status (Request.update_pet_with_form id name status) s =
      sent w (write_update_pet_with_form w)
        (HyperPet.update_pet_with_form json c pg id name status s).0
  hyper_status (Request.upload_file id metadata body) s =
      sent w (write_upload_file w) (HyperPet.upload_file json c pg id metadata body s).0
  hyper_status Request.get_inventory s =
      sent w (write_get_inventory w) (HyperStore.get_inventory c pg s).0
  hyper_status (Request.place_order order) s =
      sent w (write_place_order w) (HyperStore.place_order c pg (some order) s).0
  hyper_status (Request.delete_order id) s =
      sent w (write_delete_order w) (HyperStore.delete_order c pg id s).0
  hyper_status (Request.get_order_by_id id) s =
      sent w (write_get_order_by_id w) (HyperStore.get_order_by_id c pg id s).0
  hyper_status (Request.create_user user) s =
      sent w (write_create_user w) (HyperUser.create_user c pg (some user) s).0
  hyper_status (Request.create_users_with_list_input users) s =
      elim (HyperUser.create_users_with_list_input c pg users s).0 [
        | none ↦ none
        | some r ↦ sent w (write_create_users_with_list_input w) r
      ]
  hyper_status (Request.login_user expires username password) s =
      sent w (write_login_user w) (HyperUser.login_user c pg expires username password s).0
  hyper_status (Request.delete_user username) s =
      sent w (write_delete_user w) (HyperUser.delete_user c pg username s).0
  hyper_status (Request.get_user_by_name username) s =
      sent w (write_get_user_by_name w) (HyperUser.get_user_by_name c pg username s).0
  hyper_status (Request.update_user username user) s =
      sent w (write_update_user w) (HyperUser.update_user c pg username (some user) s).0
