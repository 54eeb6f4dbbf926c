-- ===== src/Hyper/Paths/Ids.antt =====
-- Which operation the server finds for the paths that end in an id or in a user's name.
use text.Mathlib.TextLemmas.{append_assoc, cons-append, cons≢nil}
use speed_test.Base.{
  String, ◌++◌, ◌≡◌, ◌≢◌, refl, sym, ap, ◌∙◌, Option, some, none, true, false, ℤ, show_int, ok, err,
}
use speed_test.DbConfig.{to_digit}
use speed_test.Hyper.Parse.{parse_signed, parse_size}
use speed_test.Hyper.Parse.Plain.{show_int-IsPlain}
use speed_test.Hyper.Http.{Method}
use speed_test.Hyper.Parse.{parse_i64}
use speed_test.Hyper.Parse.Printed.{IsI64, parse_i64-show_int}
use speed_test.Hyper.Parse.Plain.{IsPlain}
use speed_test.Hyper.Paths.{
  literal, captures, PathId, regex, matched, Operation, handle, first_arm, dispatch, is_some,
  segment,
}
use speed_test.Hyper.Paths.Addresses.{
  captures-end, captures-param, captures-longer, other_literal, literal-apart, param-apart,
}

-- A text that is not read as an integer is not a printed one.
not_printed : (z : ℤ) (text e : String) → IsI64 z → parse_i64 text ≡ err e → show_int z ≢ text
not_printed z text e r bad same_text =
    let good : parse_i64 (show_int z) ≡ ok z = parse_i64-show_int z r in
    let good' : parse_i64 text ≡ ok z = ap parse_i64 (sym same_text) ∙ good in absurd (cc)

module _ (z : ℤ) (r : IsI64 z) where
  pub show_int-find_by_status : show_int z ≢ "findByStatus"
  unfolding parse_signed parse_size to_digit
  show_int-find_by_status = not_printed z "findByStatus" "invalid digit found in string" r refl

  pub show_int-find_by_tags : show_int z ≢ "findByTags"
  unfolding parse_signed parse_size to_digit
  show_int-find_by_tags = not_printed z "findByTags" "invalid digit found in string" r refl

no_match_of : {o : Option String} → o ≡ none → is_some o ≡ false
no_match_of e = rw e refl

match_of : {o : Option String} {s : String} → o ≡ some s → is_some o ≡ true
match_of e = rw e refl

filled : (s : String) → "/" ++ s ≢ ""
filled s h = cons≢nil (sym (cons-append "/" "" s) ∙ h)

-- Paths that end in a plain segment.
module _ (s : String) (p : IsPlain s) where
  not_pet : (tail : String) → matched ("/api/v3/pet/" ++ tail) PathId.pet ≡ false
  unfolding matched
  not_pet tail = no_match_of (
      ap (captures (literal "/api/v3/pet")) (append_assoc "/api/v3/pet" "/" tail)
      ∙ other_literal "/api/v3/pet" ("/" ++ tail) "" (filled tail))

  pub dispatch-pet_get :
      s ≢ "findByStatus"
      → s ≢ "findByTags"
      → dispatch Method.get ("/api/v3/pet/" ++ s) ≡ handle Operation.get_pet_by_id
  unfolding dispatch first_arm matched
  dispatch-pet_get a b =
      rw
        (
          other_literal "/api/v3/pet/" s "findByStatus" a,
          other_literal "/api/v3/pet/" s "findByTags" b,
          captures-end "/api/v3/pet/" s p,
        )
        refl

  pub dispatch-pet_delete :
      dispatch Method.delete ("/api/v3/pet/" ++ s) ≡ handle Operation.delete_pet
  unfolding dispatch first_arm matched
  dispatch-pet_delete = rw (captures-end "/api/v3/pet/" s p) refl

  pub dispatch-pet_post :
      dispatch Method.post ("/api/v3/pet/" ++ s) ≡ handle Operation.update_pet_with_form
  unfolding dispatch first_arm
  dispatch-pet_post = rw (not_pet s, match_of (captures-end "/api/v3/pet/" s p)) refl

  pub dispatch-upload :
      dispatch Method.post ("/api/v3/pet/" ++ (s ++ "/uploadImage")) ≡ handle Operation.upload_file
  unfolding dispatch first_arm matched segment
  dispatch-upload =
      rw
        (
          no_match_of (captures-longer "/api/v3/pet/" s "/uploadImage" "" p refl refl),
          not_pet (s ++ "/uploadImage"),
          captures-param "/api/v3/pet/" s "/uploadImage" p refl,
        )
        refl

-- The paths of orders and users are none of the paths of pets.
order_path :
    (s : String) → "/api/v3/store/order/" ++ s ≡ "/api/v3/" ++ String.◌∷◌ "s" ("tore/order/" ++ s)
order_path s =
    append_assoc "/api/v3/" "store/order/" s
    ∙ ap (λ (t : String). "/api/v3/" ++ t) (cons-append "s" "tore/order/" s)

user_path : (s : String) → "/api/v3/user/" ++ s ≡ "/api/v3/" ++ String.◌∷◌ "u" ("ser/" ++ s)
user_path s =
    append_assoc "/api/v3/" "user/" s
    ∙ ap (λ (t : String). "/api/v3/" ++ t) (cons-append "u" "ser/" s)

order_in_store :
    (s : String) → "/api/v3/store/order/" ++ s ≡ "/api/v3/store/" ++ String.◌∷◌ "o" ("rder/" ++ s)
order_in_store s =
    append_assoc "/api/v3/store/" "order/" s
    ∙ ap (λ (t : String). "/api/v3/store/" ++ t) (cons-append "o" "rder/" s)

module _ (s : String) (p : IsPlain s) where
  pub dispatch-order_get :
      dispatch Method.get ("/api/v3/store/order/" ++ s) ≡ handle Operation.get_order_by_id
  unfolding dispatch first_arm matched
  dispatch-order_get =
      let path = "/api/v3/store/order/" ++ s in
      let tail = "tore/order/" ++ s in
      let e1 : captures (regex PathId.pet_findbystatus) path ≡ none =
        ap (captures (regex PathId.pet_findbystatus)) (order_path s)
        ∙ literal-apart "/api/v3/" "et/findByStatus" tail "p" "s" refl in
      let e2 : captures (regex PathId.pet_findbytags) path ≡ none =
        ap (captures (regex PathId.pet_findbytags)) (order_path s)
        ∙ literal-apart "/api/v3/" "et/findByTags" tail "p" "s" refl in
      let e3 : captures (regex PathId.pet_petid) path ≡ none =
        ap (captures (regex PathId.pet_petid)) (order_path s)
        ∙ param-apart "/api/v3/" "et/" tail "p" "s" refl "" in
      let e4 : captures (regex PathId.store_inventory) path ≡ none =
        ap (captures (regex PathId.store_inventory)) (order_in_store s)
        ∙ literal-apart "/api/v3/store/" "nventory" ("rder/" ++ s) "i" "o" refl in
      rw (e1, e2, e3, e4, captures-end "/api/v3/store/order/" s p) refl

  pub dispatch-order_delete :
      dispatch Method.delete ("/api/v3/store/order/" ++ s) ≡ handle Operation.delete_order
  unfolding dispatch first_arm matched
  dispatch-order_delete =
      let path = "/api/v3/store/order/" ++ s in
      let tail = "tore/order/" ++ s in
      let e3 : captures (regex PathId.pet_petid) path ≡ none =
        ap (captures (regex PathId.pet_petid)) (order_path s)
        ∙ param-apart "/api/v3/" "et/" tail "p" "s" refl "" in
      rw (e3, captures-end "/api/v3/store/order/" s p) refl

  pub dispatch-user_get :
      s ≢ "login"
      → s ≢ "logout"
      → dispatch Method.get ("/api/v3/user/" ++ s) ≡ handle Operation.get_user_by_name
  unfolding dispatch first_arm matched
  dispatch-user_get a b =
      let path = "/api/v3/user/" ++ s in
      let tail = "ser/" ++ s in
      let e1 : captures (regex PathId.pet_findbystatus) path ≡ none =
        ap (captures (regex PathId.pet_findbystatus)) (user_path s)
        ∙ literal-apart "/api/v3/" "et/findByStatus" tail "p" "u" refl in
      let e2 : captures (regex PathId.pet_findbytags) path ≡ none =
        ap (captures (regex PathId.pet_findbytags)) (user_path s)
        ∙ literal-apart "/api/v3/" "et/findByTags" tail "p" "u" refl in
      let e3 : captures (regex PathId.pet_petid) path ≡ none =
        ap (captures (regex PathId.pet_petid)) (user_path s)
        ∙ param-apart "/api/v3/" "et/" tail "p" "u" refl "" in
      let e4 : captures (regex PathId.store_inventory) path ≡ none =
        ap (captures (regex PathId.store_inventory)) (user_path s)
        ∙ literal-apart "/api/v3/" "tore/inventory" tail "s" "u" refl in
      let e5 : captures (regex PathId.store_order_orderid) path ≡ none =
        ap (captures (regex PathId.store_order_orderid)) (user_path s)
        ∙ param-apart "/api/v3/" "tore/order/" tail "s" "u" refl "" in
      rw
        (
          e1,
          e2,
          e3,
          e4,
          e5,
          other_literal "/api/v3/user/" s "login" a,
          other_literal "/api/v3/user/" s "logout" b,
          captures-end "/api/v3/user/" s p,
        )
        refl

-- For an i64 id, a path that ends in the printed id reaches its operation: under pet, GET
-- get_pet_by_id, DELETE delete_pet and POST update_pet_with_form; with uploadImage behind the id,
-- POST upload_file; under store/order, GET get_order_by_id and DELETE delete_order.
pub dispatch-show_int :
    (z : ℤ)
    → IsI64 z
    → (dispatch Method.get ("/api/v3/pet/" ++ show_int z) ≡ handle Operation.get_pet_by_id)
      × (dispatch Method.delete ("/api/v3/pet/" ++ show_int z) ≡ handle Operation.delete_pet)
      × (dispatch Method.post ("/api/v3/pet/" ++ show_int z)
          ≡ handle Operation.update_pet_with_form)
      × (dispatch Method.post ("/api/v3/pet/" ++ (show_int z ++ "/uploadImage"))
          ≡ handle Operation.upload_file)
      × (dispatch Method.get ("/api/v3/store/order/" ++ show_int z)
          ≡ handle Operation.get_order_by_id)
      × (dispatch Method.delete ("/api/v3/store/order/" ++ show_int z)
          ≡ handle Operation.delete_order)
dispatch-show_int z r =
    let p = show_int-IsPlain z in
    (
      dispatch-pet_get (show_int z) p (show_int-find_by_status z r) (show_int-find_by_tags z r),
      dispatch-pet_delete (show_int z) p,
      dispatch-pet_post (show_int z) p,
      dispatch-upload (show_int z) p,
      dispatch-order_get (show_int z) p,
      dispatch-order_delete (show_int z) p,
    )
