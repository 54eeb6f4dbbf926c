-- ===== src/Hyper/Client/EndToEnd.antt =====
-- An operation called by the client, through the server, on an implementation.
use speed_test.Base.{
  String, ◌++◌, ◌≡◌, refl, Option, none, some, true, false, List, [], ◌∷◌, arith, ok, inl, inr,
  Option-cases, ℤ, show_int,
}
use speed_test.Hyper.Http.{Method, Request, Response, Wire}
use speed_test.Hyper.Interface.{Api}
use speed_test.Hyper.Parse.Printed.{IsI64, parse_i64-show_int}
use speed_test.Hyper.Parse.Plain.{show_int-IsPlain}
use speed_test.Hyper.Paths.{PathId, regex, captures}
use speed_test.Hyper.Paths.Addresses.{captures-end}
use speed_test.Hyper.Paths.Ids.{dispatch-pet_get, show_int-find_by_status, show_int-find_by_tags}
use speed_test.Hyper.Responses.{GetPetByIdResponse}
use speed_test.Hyper.Server.Access.{authorize, finish_with, call_api}
use speed_test.Hyper.Server.Access
use speed_test.Hyper.Server.Params.{path_text, path_i64}
use speed_test.Hyper.Server.Write.{write_get_pet_by_id}
use speed_test.Hyper.Server.Answers.{is_ok}
use speed_test.Hyper.Server.Denied.{may_use_pets}
use speed_test.Hyper.Server.Pet.{handle_get_pet_by_id}
use speed_test.Hyper.Server.Service.{run, call}
use speed_test.Hyper.Client.Message.{AuthData, Context}
use speed_test.Hyper.Client.Read.{read_get_pet_by_id}
use speed_test.Hyper.Client.Pet
use speed_test.Hyper.Client.Reply
use speed_test.Hyper.Client.RoundTrip.{read-write}
use speed_test.Hyper.Client.Connected.{
  connection, Urls, authorize_passed, new_request_lem, Sendable, span_header-Adds,
  bearer_header-Adds, key_header-Adds,
}

module _ {DateTime : Type 0} (w : Wire DateTime) (base_path : String) (z : ℤ) (r : IsI64 z)
    (urls : Urls w base_path ("/api/v3/pet/" ++ show_int z)) where
  -- The id at the end of a path is read back.
  path_i64-show_int :
      (id : PathId) (name prefix : String)
      → captures (regex id) (prefix ++ show_int z) ≡ some (show_int z)
      → path_i64 w id name (prefix ++ show_int z) ≡ ok z
  unfolding path_i64 path_text
  path_i64-show_int id name prefix h =
      ground
        (arith, urls.percent_decode-plain (show_int z) (show_int-IsPlain z), parse_i64-show_int z r)

  abbrev address : String
  address = "/api/v3/pet/" ++ show_int z

  abbrev asked : List (String × String) → Request
  asked headers = record {
    method = Method.get;
    uri = record { path = address; query = none };
    headers = headers;
    body = ok [];
  }

  module _ {S : Type 0} (api : Api DateTime S) (server : Access.Context)
      (allowed : may_use_pets server ≡ true) (v : String)
      (spans : w.header_value server.span_id ≡ ok v) where
    -- The server calls the implementation with the id.
    call_get_pet_by_id :
        (headers : List (String × String)) (s s' : S) (rsp : GetPetByIdResponse)
        → api.get_pet_by_id z s ≡ (some (ok rsp), s')
        → call w api server (asked headers) s ≡ (
          write_get_pet_by_id w
              (record { status = 200; headers = ("x-span-id", v) ∷ []; body = ok [] })
              rsp,
          s',
        )
    unfolding call run handle_get_pet_by_id finish_with
    call_get_pet_by_id headers s s' rsp e = ground (
      arith,
      dispatch-pet_get (show_int z) (show_int-IsPlain z) (show_int-find_by_status z r)
          (show_int-find_by_tags z r),
      authorize_passed w server allowed,
      path_i64-show_int PathId.pet_petid "petId" "/api/v3/pet/"
          (captures-end "/api/v3/pet/" (show_int z) (show_int-IsPlain z)),
      e,
      spans,
    )

    abbrev begun : Response
    begun = record { status = 200; headers = ("x-span-id", v) ∷ []; body = ok [] }

    received :
        (rsp : GetPetByIdResponse)
        → Reply.is_unexpected {DateTime = DateTime} (Reply.get_pet_by_id rsp) ≡ false
        → (x : Response) × (write_get_pet_by_id w begun rsp ≡ some x)
          × (read_get_pet_by_id w x ≡ ok rsp)
    received rsp u =
        let kept = read-write w begun (Reply.get_pet_by_id rsp) u refl in
        elim (Option-cases (write_get_pet_by_id w begun rsp)) [
          | inl none_written ↦ absurd (ground (arith, kept))
          | inr (x, q) ↦ (x, q, ground (arith, kept))
        ]

    -- For get_pet_by_id with an i64 id: where the address of the request is a URI of its path,
    -- plain texts pass through the URL encodings, the span ids and the credentials make headers
    -- and the caller may use pets, get_pet_by_id of the client, connected with the router, gives
    -- what get_pet_by_id of the implementation gives for that id, with the same state, if that is
    -- a response other than the unexpected error.
    pub get_pet_by_id-connection :
        (span_id : String) (auth : Option AuthData) (s s' : S) (rsp : GetPetByIdResponse)
        → is_ok (w.header_value span_id) ≡ true
        → Sendable w auth
        → api.get_pet_by_id z s ≡ (some (ok rsp), s')
        → Reply.is_unexpected {DateTime = DateTime} (Reply.get_pet_by_id rsp) ≡ false
        → Pet.get_pet_by_id w base_path
            (connection w api server)
            (record { span_id = span_id; auth_data = auth })
            z
            s
          ≡ (some (ok rsp), s')
    unfolding Pet.get_pet_by_id
    get_pet_by_id-connection span_id auth s s' rsp h a e u =
        let context : Context = record { span_id = span_id; auth_data = auth } in
        let (h1, e1, c1) = span_header-Adds w context h (asked []) in
        let (h2, e2, c2) = bearer_header-Adds w span_id auth a (asked h1) in
        let (h3, e3, c3) = key_header-Adds w span_id auth a (asked h2) in
        let made = new_request_lem w base_path address urls Method.get in
        let (x, wrote, got) = received rsp u in
        ground (
          arith,
          urls.percent_encode-plain (show_int z) (show_int-IsPlain z),
          made,
          e1,
          e2,
          e3,
          call_get_pet_by_id h3 s s' rsp e,
          wrote,
          got,
        )
