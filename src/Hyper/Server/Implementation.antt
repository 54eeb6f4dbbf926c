-- ===== src/Hyper/Server/Implementation.antt =====
-- The implementation of the generated interface, `impl Api for Server` of
-- petshop-stacks/rust/hyper/examples/server/server.rs, as a record of its operations.
use speed_test.Base.{
  ℕ, String, ◌≡◌, refl, Option, none, some, List, [], ◌∷◌, true, arith, Result, ok, err,
}
use speed_test.Models.{User}
use speed_test.Serde.{Json, Chrono}
use speed_test.Rows.{user_values}
use speed_test.Sql.Schema.{insert_user}
use speed_test.Hyper.Responses.{CreateUsersWithListInputResponse}
use speed_test.Sql.Postgres.{Postgres}
use speed_test.Hyper.Http.{Request, Wire}
use speed_test.Hyper.Server.Access.{Context}
use speed_test.Hyper.Server.User.{users_param, warn}
use speed_test.Hyper.Server.Statuses.{IsAnswer}
use speed_test.Hyper.Server.Service.{call}
use speed_test.Hyper.Server.Answers.Every.{call_answers}
use speed_test.Hyper.Interface.{Api, Call}
use speed_test.Hyper.Paths.{is_some}
use speed_test.Hyper.Server.Answers.{IsTotal, Returns, is_ok, started}
use speed_test.Hyper.Api.Pet
use speed_test.Hyper.Api.Store
use speed_test.Hyper.Api.User
use speed_test.Hyper.Api.User.{insert_users}

abbrev pub returning : {S R : Type 0} → (S → Result String R × S) → Call S R
returning f s = let (r, s') = f s in (some r, s')

module _ (json : Json) (c : Chrono) (pg : Postgres c.NaiveDateTime)
    (expires_after : c.DateTime) where
  abbrev pub implementation : Api c.DateTime pg.State
  implementation = record {
    add_pet = λ pet. returning (Pet.add_pet json c pg pet);
    find_pets_by_status = λ status. returning (Pet.find_pets_by_status json c pg status);
    find_pets_by_tags = λ tags. returning (Pet.find_pets_by_tags json c pg tags);
    update_pet = λ pet. returning (Pet.update_pet json c pg pet);
    delete_pet = λ id key. returning (Pet.delete_pet json c pg id key);
    get_pet_by_id = λ id. returning (Pet.get_pet_by_id json c pg id);
    update_pet_with_form =
        λ id name status. returning (Pet.update_pet_with_form json c pg id name status);
    upload_file = λ id metadata body. returning (Pet.upload_file json c pg id metadata body);
    get_inventory = returning (Store.get_inventory c pg);
    place_order = λ order. returning (Store.place_order c pg order);
    delete_order = λ id. returning (Store.delete_order c pg id);
    get_order_by_id = λ id. returning (Store.get_order_by_id c pg id);
    create_user = λ user. returning (User.create_user c pg user);
    create_users_with_list_input = User.create_users_with_list_input c pg;
    login_user =
        λ username password. returning (User.login_user c pg expires_after username password);
    logout_user = returning (User.logout_user c pg);
    delete_user = λ username. returning (User.delete_user c pg username);
    get_user_by_name = λ username. returning (User.get_user_by_name c pg username);
    update_user = λ username user. returning (User.update_user c pg username user);
  }

  -- The loop over a list that is not empty ends with a user.
  abbrev HasLast : {R : Type 0} → Result (Result String R) (Option User) → Type 0
  HasLast (ok o) = is_some o ≡ true
  HasLast (err e) = Unit {0}

  insert_users-HasLast :
      (R : Type 0) (u : User) (users : List User) (s : pg.State)
      → HasLast (insert_users c pg {R = R} (some u) users s).0
  unfolding insert_users
  insert_users-HasLast R u [] s = refl
  insert_users-HasLast R u (v ∷ users) s =
      let (r, s') = pg.execute (insert_user v.username (user_values v.id v)) s in
      ground (arith, insert_users-HasLast R v users s')

  create_users_returns :
      (users : Option (List User)) → Returns (User.create_users_with_list_input c pg users)
  unfolding User.create_users_with_list_input insert_users
  create_users_returns none s = refl
  create_users_returns (some []) s = refl
  create_users_returns (some (u ∷ users)) s =
      let (r, s') = pg.execute (insert_user u.username (user_values u.id u)) s in
      ground (arith, insert_users-HasLast CreateUsersWithListInputResponse u users s')

  pub implementation-IsTotal : IsTotal implementation
  implementation-IsTotal = record {
    add_pet = λ pet s. refl;
    find_pets_by_status = λ status s. refl;
    find_pets_by_tags = λ tags s. refl;
    update_pet = λ pet s. refl;
    delete_pet = λ id key s. refl;
    get_pet_by_id = λ id s. refl;
    update_pet_with_form = λ id name status s. refl;
    upload_file = λ id metadata body s. refl;
    get_inventory = λ s. refl;
    place_order = λ order s. refl;
    delete_order = λ id s. refl;
    get_order_by_id = λ id s. refl;
    create_user = λ user s. refl;
    create_users_with_list_input = create_users_returns;
    login_user = λ username password s. refl;
    logout_user = λ s. refl;
    delete_user = λ username s. refl;
    get_user_by_name = λ username s. refl;
    update_user = λ username user s. refl;
  }

  module _ (w : Wire c.DateTime) where
    -- The router on the implementation of the Hyper server answers a request without a panic, by a
    -- response of status 200, 400, 403, 404, 405, 422 or 500, where the span id makes a header,
    -- and where, if its body can be read, so do the names of the unknown fields that are found in
    -- it as a list of users.
    pub call-IsAnswer :
        (context : Context) (request : Request) (s : pg.State)
        → is_ok (w.header_value context.span_id) ≡ true
        → ((bytes : List ℕ) (v : String)
            → request.body ≡ ok bytes
            → is_some (warn w (users_param w bytes).1 (started v)) ≡ true)
        → IsAnswer (call w implementation context request s).0
    call-IsAnswer context request s span warnings =
        call_answers w implementation implementation-IsTotal context request span warnings s
