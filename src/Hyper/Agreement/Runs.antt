-- ===== src/Hyper/Agreement/Runs.antt =====
-- Requests to the interface that the two servers have in common, one after another.
use speed_test.Base.{
  ℕ, String, Option, some, List, [], ◌∷◌, ℤ, Result, ◌≡◌, refl, map, map_option, unwrap_or,
}
use speed_test.Models.{Pet, Order, User}
use speed_test.Serde.{Json, Chrono}
use speed_test.Sql.Postgres.{Postgres}
use speed_test.Actix.Response.{HttpResponse}
use speed_test.Actix.Pet
use speed_test.Actix.Store
use speed_test.Actix.User
use speed_test.Hyper.Api.Pet as HyperPet
use speed_test.Hyper.Api.Store as HyperStore
use speed_test.Hyper.Api.User as HyperUser
use speed_test.Hyper.Responses.{FindPetsByStatusStatusParameter, status_parameter_to_string}
use speed_test.Hyper.Agreement.{in_actix}
use speed_test.Hyper.Agreement.Pet as PetWords
use speed_test.Hyper.Agreement.Store as StoreWords
use speed_test.Hyper.Agreement.User as UserWords

-- The operations of `trait Api` that reach the database, with their arguments; a login carries the
-- expiry that the clock gives it.
pub data Request (DateTime : Type 0) : Type 0 where
  add_pet : Pet → Request DateTime
  find_pets_by_status : Option FindPetsByStatusStatusParameter → Request DateTime
  find_pets_by_tags : Option (List String) → Request DateTime
  update_pet : Pet → Request DateTime
  delete_pet : ℤ → Option String → Request DateTime
  get_pet_by_id : ℤ → Request DateTime
  update_pet_with_form : ℤ → Option String → Option String → Request DateTime
  upload_file : ℤ → Option String → Option (List ℕ) → Request DateTime
  get_inventory : Request DateTime
  place_order : Order DateTime → Request DateTime
  delete_order : ℤ → Request DateTime
  get_order_by_id : ℤ → Request DateTime
  create_user : User → Request DateTime
  create_users_with_list_input : Option (List User) → Request DateTime
  login_user : DateTime → Option String → Option String → Request DateTime
  delete_user : String → Request DateTime
  get_user_by_name : String → Request DateTime
  update_user : String → User → Request DateTime

paired :
    {A B : Type 0} {a a' : A} {b b' : B} → (a ≡ a') × (b ≡ b') → ◌≡◌ {A = A × B} (a, b) (a', b')
paired (p, q) = rw (p, q) refl

-- Requests in turn: the answers, and the state after the last.
abbrev pub in_turn : {Q R S : Type 0} → (Q → S → R × S) → List Q → S → List R × S
in_turn serve [] s = ([], s)
in_turn serve (q ∷ qs) s =
    let (r, s₁) = serve q s in let (rs, s₂) = in_turn serve qs s₁ in (r ∷ rs, s₂)

module _ (json : Json) (c : Chrono) (pg : Postgres c.NaiveDateTime) where
  -- The Actix server, which takes the status as a text and has no optional bodies.
  unfoldable pub actix : Request c.DateTime → pg.State → HttpResponse c.DateTime × pg.State
  unfolding status_parameter_to_string
  actix (add_pet pet) = Pet.add_pet json c pg pet
  actix (find_pets_by_status status) =
      Pet.find_pets_by_status json c pg (map_option status_parameter_to_string status)
  actix (find_pets_by_tags tags) = Pet.find_pets_by_tags json c pg (unwrap_or tags [])
  actix (update_pet pet) = Pet.update_pet json c pg pet
  actix (delete_pet id api_key) = Pet.delete_pet json c pg id
  actix (get_pet_by_id id) = Pet.get_pet_by_id json c pg id
  actix (update_pet_with_form id name status) =
      Pet.update_pet_with_form json c pg id (record { name = name; status = status })
  actix (upload_file id metadata body) = Pet.upload_file json c pg id metadata (unwrap_or body [])
  actix get_inventory = Store.get_inventory c pg
  actix (place_order order) = Store.place_order c pg order
  actix (delete_order id) = Store.delete_order c pg id
  actix (get_order_by_id id) = Store.get_order_by_id c pg id
  actix (create_user user) = User.create_user c pg user
  actix (create_users_with_list_input users) =
      User.create_users_with_list_input c pg (unwrap_or users [])
  actix (login_user expires username password) =
      User.login_user c pg (record { username = username; password = password })
  actix (delete_user username) = User.delete_user c pg username
  actix (get_user_by_name username) = User.get_user_by_name c pg username
  actix (update_user username user) = User.update_user c pg username user

  abbrev said :
      {R : Type 0}
      → (R → Option (HttpResponse c.DateTime))
      → Result String R × pg.State
      → Option (HttpResponse c.DateTime) × pg.State
  said say (r, s) = (in_actix say r, s)

  -- The Hyper server, in the words of the Actix server.
  unfoldable pub hyper : Request c.DateTime → pg.State → Option (HttpResponse c.DateTime) × pg.State
  hyper (add_pet pet) s = said PetWords.say_add (HyperPet.add_pet json c pg pet s)
  hyper (find_pets_by_status status) s =
      said PetWords.say_by_status (HyperPet.find_pets_by_status json c pg status s)
  hyper (find_pets_by_tags tags) s =
      said PetWords.say_by_tags (HyperPet.find_pets_by_tags json c pg tags s)
  hyper (update_pet pet) s = said PetWords.say_update (HyperPet.update_pet json c pg pet s)
  hyper (delete_pet id api_key) s =
      said PetWords.say_delete (HyperPet.delete_pet json c pg id api_key s)
  hyper (get_pet_by_id id) s = said PetWords.say_by_id (HyperPet.get_pet_by_id json c pg id s)
  hyper (update_pet_with_form id name status) s =
      said PetWords.say_form (HyperPet.update_pet_with_form json c pg id name status s)
  hyper (upload_file id metadata body) s =
      said PetWords.say_upload (HyperPet.upload_file json c pg id metadata body s)
  hyper get_inventory s = said StoreWords.say_inventory (HyperStore.get_inventory c pg s)
  hyper (place_order order) s =
      said StoreWords.say_place (HyperStore.place_order c pg (some order) s)
  hyper (delete_order id) s = said StoreWords.say_delete (HyperStore.delete_order c pg id s)
  hyper (get_order_by_id id) s = said StoreWords.say_by_id (HyperStore.get_order_by_id c pg id s)
  hyper (create_user user) s = said UserWords.say_create (HyperUser.create_user c pg (some user) s)
  hyper (create_users_with_list_input users) s =
      let (r, s₁) = HyperUser.create_users_with_list_input c pg users s in
      (UserWords.in_actix_list c pg r, s₁)
  hyper (login_user expires username password) s =
      said (UserWords.say_login username) (HyperUser.login_user c pg expires username password s)
  hyper (delete_user username) s = said UserWords.say_delete (HyperUser.delete_user c pg username s)
  hyper (get_user_by_name username) s =
      said UserWords.say_by_name (HyperUser.get_user_by_name c pg username s)
  hyper (update_user username user) s =
      said UserWords.say_update (HyperUser.update_user c pg username (some user) s)

  -- One request.
  hyper-actix :
      (q : Request c.DateTime) (s : pg.State) → hyper q s ≡ (some (actix q s).0, (actix q s).1)
  unfolding hyper actix
  hyper-actix (add_pet pet) s = paired (PetWords.add_pet-Same json c pg pet s)
  hyper-actix (find_pets_by_status status) s =
      paired (PetWords.find_pets_by_status-Same json c pg status s)
  hyper-actix (find_pets_by_tags tags) s = paired (PetWords.find_pets_by_tags-Same json c pg tags s)
  hyper-actix (update_pet pet) s = paired (PetWords.update_pet-Same json c pg pet s)
  hyper-actix (delete_pet id api_key) s = paired (PetWords.delete_pet-Same json c pg id api_key s)
  hyper-actix (get_pet_by_id id) s = paired (PetWords.get_pet_by_id-Same json c pg id s)
  hyper-actix (update_pet_with_form id name status) s =
      paired (PetWords.update_pet_with_form-Same json c pg id name status s)
  hyper-actix (upload_file id metadata body) s =
      paired (PetWords.upload_file-Same json c pg id metadata body s)
  hyper-actix get_inventory s = paired (StoreWords.get_inventory-Same c pg s)
  hyper-actix (place_order order) s = paired (StoreWords.place_order-Same c pg order s)
  hyper-actix (delete_order id) s = paired (StoreWords.delete_order-Same c pg id s)
  hyper-actix (get_order_by_id id) s = paired (StoreWords.get_order_by_id-Same c pg id s)
  hyper-actix (create_user user) s = paired (UserWords.create_user-Same c pg user s)
  hyper-actix (create_users_with_list_input users) s =
      paired (UserWords.create_users_with_list_input-Same c pg users s)
  hyper-actix (login_user expires username password) s =
      paired (UserWords.login_user-Same c pg expires username password s)
  hyper-actix (delete_user username) s = paired (UserWords.delete_user-Same c pg username s)
  hyper-actix (get_user_by_name username) s =
      paired (UserWords.get_user_by_name-Same c pg username s)
  hyper-actix (update_user username user) s =
      paired (UserWords.update_user-Same c pg username user s)

  -- Any requests in turn leave the database in the same state on both servers, and each response
  -- type that the implementation of the Hyper server gives, translated by the functions say_* of
  -- Hyper/Agreement, is the response of the Actix server; a panic of create_users_with_list_input
  -- is a panic on both. The translation keeps no HTTP status: a refused login is the 401 of the
  -- Actix server (400 without a user name), where the Hyper server writes 400, an unexpected error
  -- with the code 400 or 404 is the answer of that status with its message, where the Hyper server
  -- writes 500 (an empty list of users, an upload for a missing pet, an update of a missing user),
  -- and a failed call is the 500 with its message.
  pub in_turn-hyper-actix :
      (qs : List (Request c.DateTime)) (s : pg.State)
      → in_turn hyper qs s ≡ (map some (in_turn actix qs s).0, (in_turn actix qs s).1)
  in_turn-hyper-actix [] s = refl
  in_turn-hyper-actix (q ∷ qs) s =
      let one = hyper-actix q s in
      let rest = in_turn-hyper-actix qs (actix q s).1 in rw (one, rest) refl
