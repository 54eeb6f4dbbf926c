-- ===== src/Actix/Routes.antt =====
-- The route table of petshop-stacks/rust/actix/src/main.rs, below the scope `/api/v3`. actix-web takes
-- the first route whose method and path fit; a parameter fits any segment but the empty one.
pub mod Reached
use speed_test.Base.{
  String, Option, none, some, Bool, true, false, ◌&&◌, List, [], ◌∷◌, same, string_key,
  if◌then◌else◌,
}

pub data Method : Type 0 where
  get post put delete : Method

pub data Segment : Type 0 where
  literal : String → Segment
  param : Segment

pub data Handler : Type 0 where
  find_pets_by_status find_pets_by_tags add_pet update_pet upload_file get_pet_by_id
        update_pet_with_form delete_pet get_inventory place_order get_order_by_id delete_order
        create_users_with_list_input login_user logout_user create_user get_user_by_name update_user
        delete_user :
      Handler

abbrev pub same_method : Method → Method → Bool
same_method Method.get Method.get = true
same_method Method.post Method.post = true
same_method Method.put Method.put = true
same_method Method.delete Method.delete = true
same_method _ _ = false

-- The calls of `.route(…)`, in their order.
abbrev pub routes : List (List Segment × Method × Handler)
routes =
    (literal "pet" ∷ literal "findByStatus" ∷ [], Method.get, Handler.find_pets_by_status)
    ∷ (literal "pet" ∷ literal "findByTags" ∷ [], Method.get, Handler.find_pets_by_tags)
    ∷ (literal "pet" ∷ [], Method.post, Handler.add_pet)
    ∷ (literal "pet" ∷ [], Method.put, Handler.update_pet)
    ∷ (literal "pet" ∷ param ∷ literal "uploadImage" ∷ [], Method.post, Handler.upload_file)
    ∷ (literal "pet" ∷ param ∷ [], Method.get, Handler.get_pet_by_id)
    ∷ (literal "pet" ∷ param ∷ [], Method.post, Handler.update_pet_with_form)
    ∷ (literal "pet" ∷ param ∷ [], Method.delete, Handler.delete_pet)
    ∷ (literal "store" ∷ literal "inventory" ∷ [], Method.get, Handler.get_inventory)
    ∷ (literal "store" ∷ literal "order" ∷ [], Method.post, Handler.place_order)
    ∷ (literal "store" ∷ literal "order" ∷ param ∷ [], Method.get, Handler.get_order_by_id)
    ∷ (literal "store" ∷ literal "order" ∷ param ∷ [], Method.delete, Handler.delete_order)
    ∷ (
      literal "user" ∷ literal "createWithList" ∷ [],
      Method.post,
      Handler.create_users_with_list_input,
    )
    ∷ (literal "user" ∷ literal "login" ∷ [], Method.get, Handler.login_user)
    ∷ (literal "user" ∷ literal "logout" ∷ [], Method.get, Handler.logout_user)
    ∷ (literal "user" ∷ [], Method.post, Handler.create_user)
    ∷ (literal "user" ∷ param ∷ [], Method.get, Handler.get_user_by_name)
    ∷ (literal "user" ∷ param ∷ [], Method.put, Handler.update_user)
    ∷ (literal "user" ∷ param ∷ [], Method.delete, Handler.delete_user)
    ∷ []

unfoldable pub fits : List Segment → List String → Bool
fits [] [] = true
fits [] (s ∷ path) = false
fits (x ∷ pattern) [] = false
fits (literal l ∷ pattern) (s ∷ path) = same s l && fits pattern path
fits (param ∷ pattern) (s ∷ path) = (if same s "" then false else true) && fits pattern path

unfoldable pub first_fit :
    Method → List String → List (List Segment × Method × Handler) → Option Handler
unfolding fits
first_fit method path [] = none
first_fit method path ((pattern, guard, handler) ∷ rest) =
    let later = first_fit method path rest in
    if same_method method guard && fits pattern path then some handler else later

unfoldable pub route : Method → List String → Option Handler
unfolding first_fit
route method path = first_fit method path routes
