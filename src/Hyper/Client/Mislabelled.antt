-- ===== src/Hyper/Client/Mislabelled.antt =====
-- The client sends a pet as XML, and says that it is JSON.
use speed_test.Base.{
  ℕ, String, ◌++◌, ◌≡◌, refl, Option, none, some, true, false, List, [], ◌∷◌, arith, ok, err,
  is_empty, ◌∙◌,
}
use speed_test.Models.{Pet}
use speed_test.Hyper.Http.{Method, Request, Wire, get_header, insert_header}
use speed_test.Hyper.Interface.{Api}
use speed_test.Hyper.Parse.{contains, strip_prefix}
use speed_test.Hyper.Paths.{captures, first_arm, matched, Operation, handle, dispatch}
use speed_test.Hyper.Responses.{AddPetResponse}
use speed_test.Hyper.Server.Access.{authorize, plain}
use speed_test.Hyper.Server.Access
use speed_test.Hyper.Server.Params.{is_json, body_param, required_body, read_body}
use speed_test.Hyper.Server.Answers.{is_ok}
use speed_test.Hyper.Server.Denied.{may_use_pets}
use speed_test.Hyper.Server.Pet.{handle_add_pet}
use speed_test.Hyper.Server.Service.{run, call}
use speed_test.Hyper.Client.Message.{AuthData, Context, set_header}
use speed_test.Hyper.Client.Read.{read_add_pet}
use speed_test.Hyper.Client.Pet
use speed_test.Hyper.Client.Connected.{
  connection, Urls, authorize_passed, new_request_lem, Sendable, span_header-Adds,
  bearer_header-Adds,
}

dispatch_add_pet : dispatch Method.post "/api/v3/pet" ≡ handle Operation.add_pet
unfolding dispatch first_arm matched captures
dispatch_add_pet = refl

-- A document of XML begins with the byte of "<", which no JSON does.
abbrev pub IsRefusedByJson : {DateTime : Type 0} → Wire DateTime → Type 0
IsRefusedByJson w =
    (bytes : List ℕ) → (m : String) × ((w.pet_body.from_json (60 ∷ bytes)).0 ≡ err m)

module _ {DateTime : Type 0} (w : Wire DateTime)
    (typed : w.to_str "application/json" ≡ ok "application/json") (text m : String)
    (bad : (w.pet_body.from_json (w.as_bytes text)).0 ≡ err m)
    (long : is_empty (w.as_bytes text) ≡ false) where
  abbrev complaint : String
  complaint = "Couldn't parse body parameter " ++ "Pet" ++ " - doesn't match schema: " ++ m

  abbrev posted : List (String × String) → Request
  posted headers = record {
    method = Method.post;
    uri = record { path = "/api/v3/pet"; query = none };
    headers = headers;
    body = ok (w.as_bytes text);
  }

  says_json :
      (headers : List (String × String))
      → get_header "content-type" headers ≡ some "application/json"
      → is_json w (posted headers) ≡ true
  unfolding is_json contains strip_prefix
  says_json headers h = rw (is_json, h, typed) refl

  refused :
      (headers : List (String × String))
      → get_header "content-type" headers ≡ some "application/json"
      → required_body w "Pet" w.pet_body (posted headers) (w.as_bytes text)
        ≡ err (some (plain w 400 complaint))
  unfolding required_body body_param
  refused headers h = rw (required_body, body_param, long, says_json headers h, bad) refl

  module _ {S : Type 0} (api : Api DateTime S) (server : Access.Context)
      (allowed : may_use_pets server ≡ true) where
    call_add_pet :
        (headers : List (String × String)) (s : S)
        → get_header "content-type" headers ≡ some "application/json"
        → call w api server (posted headers) s ≡ (some (plain w 400 complaint), s)
    unfolding call run handle_add_pet read_body
    call_add_pet headers s h =
        ground (arith, dispatch_add_pet, authorize_passed w server allowed, refused headers h)

    add_pet_refused :
        (pet : Pet) (base_path : String) (urls : Urls w base_path "/api/v3/pet") (span_id : String)
        (auth : Option AuthData) (s : S)
        → w.pet_body.as_xml pet ≡ ok text
        → is_ok (w.header_value span_id) ≡ true
        → Sendable w auth
        → Pet.add_pet w base_path
            (connection w api server)
            (record { span_id = span_id; auth_data = auth })
            pet
            s
          ≡ (some (ok AddPetResponse.invalid_input), s)
    unfolding Pet.add_pet Pet.xml_body set_header read_add_pet insert_header get_header
    add_pet_refused pet base_path urls span_id auth s x h a =
        let context : Context = record { span_id = span_id; auth_data = auth } in
        let (h1, e1, c1) =
          span_header-Adds w context h (posted (("content-type", "application/json") ∷ [])) in
        let (h2, e2, c2) = bearer_header-Adds w span_id auth a (posted h1) in
        let made = new_request_lem w base_path "/api/v3/pet" urls Method.post in
        ground (arith, x, made, e1, e2, call_add_pet h2 s (c2 ∙ c1 ∙ refl))

module _ {DateTime S : Type 0} (w : Wire DateTime) (api : Api DateTime S) where
  -- For add_pet with a pet that is written as XML, whose first byte is that of a tag: where the
  -- JSON reader refuses every text that begins with that byte, the address of the request is a URI
  -- of its path, the content type and the span ids and credentials make headers and the caller may
  -- use pets, add_pet of the client, connected with the router, gives InvalidInput, whatever the
  -- implementation is, and the state is as before.
  pub add_pet-connection :
      (pet : Pet) (server : Access.Context) (base_path span_id : String) (auth : Option AuthData)
      (text : String) (bytes : List ℕ) (s : S)
      → w.pet_body.as_xml pet ≡ ok text
      → w.as_bytes text ≡ 60 ∷ bytes
      → IsRefusedByJson w
      → w.to_str "application/json" ≡ ok "application/json"
      → Urls w base_path "/api/v3/pet"
      → is_ok (w.header_value span_id) ≡ true
      → Sendable w auth
      → may_use_pets server ≡ true
      → Pet.add_pet w base_path
          (connection w api server)
          (record { span_id = span_id; auth_data = auth })
          pet
          s
        ≡ (some (ok AddPetResponse.invalid_input), s)
  add_pet-connection pet server base_path span_id auth text bytes s x markup refused typed urls h a
        allowed =
      let (m, e) = refused bytes in
      let bad : (w.pet_body.from_json (w.as_bytes text)).0 ≡ err m = rw markup e in
      let long : is_empty (w.as_bytes text) ≡ false = rw markup refl in
      add_pet_refused w typed text m bad long api server allowed pet base_path urls span_id auth s x
        h a
