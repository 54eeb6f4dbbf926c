-- ===== src/Hyper/Client/Connected.antt =====
-- The client connected with the server: what the libraries between them are trusted for.
use text.Mathlib.TextEquality.{eq_iff}
use speed_test.Base.{
  String, ◌++◌, ◌≡◌, same, string_key, refl, Option, none, some, true, false, List, [], ◌∷◌, arith,
  Result, ok, err, inl, inr, Option-cases,
}
use speed_test.Hyper.Http.{Method, Request, Response, Wire, insert_header, get_header}
use speed_test.Hyper.Interface.{Api}
use speed_test.Hyper.Parse.Plain.{IsPlain}
use speed_test.Hyper.Server.Access.{
  Scopes, Authorization, authorize, authenticate, check_scopes, missing, has_scope,
}
use speed_test.Hyper.Server.Access
use speed_test.Hyper.Server.Answers.{is_ok}
use speed_test.Hyper.Server.Denied.{has_scopes, may_use_pets}
use speed_test.Hyper.Server.Service.{call}
use speed_test.Hyper.Client.Message.{
  Context, AuthData, Service, new_request, span_header, bearer_header, key_header, with_header,
  set_header,
}

-- The connection hands each request to the server, which the middleware gives the context `server`,
-- and the response back. Where a handler panics, the connection is closed.
abbrev pub delivered : {S : Type 0} → Option Response × S → Result String Response × S
delivered (none, s) = (err "connection closed", s)
delivered (some response, s) = (ok response, s)

abbrev pub connection :
    {DateTime S : Type 0} → Wire DateTime → Api DateTime S → Access.Context → Service S
connection w api server request s = delivered (call w api server request s)

-- Plain texts pass through the encodings unchanged, and the address of a request, `base_path` with
-- `path` after it, is a URI of that path.
pub record Urls {DateTime : Type 0} (w : Wire DateTime) (base_path path : String) : Type 0 where
  pub percent_encode-plain : (s : String) → IsPlain s → w.percent_encode s ≡ s
  pub percent_decode-plain : (s : String) → IsPlain s → w.percent_decode s ≡ some s
  pub form_serialize-[] : w.form_serialize [] ≡ ""
  pub parse_uri-path : w.parse_uri (base_path ++ path) ≡ ok (record { path = path; query = none })
  pub build-ok : (method : Method) → w.build method (record { path = path; query = none }) ≡ ok tt

-- The headers that are added leave the type of the body alone.
get_header-insert_header :
    (name value : String) (headers : List (String × String))
    → same name "content-type" ≡ false
    → get_header "content-type" (insert_header name value headers)
      ≡ get_header "content-type" headers
unfolding get_header insert_header
get_header-insert_header name value [] d = rw d refl
get_header-insert_header name value ((n, v) ∷ headers) d = ground (
  arith,
  eq_iff n name,
  eq_iff n "content-type",
  eq_iff name "content-type",
  get_header-insert_header name value headers d,
)

module _ {DateTime : Type 0} (w : Wire DateTime) where
  check_scopes_passed : (scopes : Scopes) → has_scopes scopes ≡ true → check_scopes w scopes ≡ ok tt
  unfolding check_scopes missing
  check_scopes_passed Scopes.all h = refl
  check_scopes_passed (Scopes.some_of scopes) h =
      let r : has_scope "read:pets" scopes ≡ true = ground arith in
      let q : has_scope "write:pets" scopes ≡ true = ground arith in
      rw (check_scopes, missing, r, q) refl

  pub authorize_passed :
      (context : Access.Context) → may_use_pets context ≡ true → authorize w context ≡ ok tt
  unfolding authorize authenticate
  authorize_passed context h = elim (Option-cases context.authorization) [
    | inl e ↦ absurd (let r = rw e at h in cc)
    | inr (a, e) ↦ rw (authorize, authenticate, e) (check_scopes_passed a.scopes (rw e at h))
  ]

  pub new_request_lem :
      (base_path path : String) (urls : Urls w base_path path) (method : Method)
      → new_request w base_path method path []
        ≡ ok (record {
          method = method;
          uri = record { path = path; query = none };
          headers = [];
          body = ok [];
        })
  unfolding new_request
  new_request_lem base_path path urls method =
      rw (new_request, urls.form_serialize-[], urls.parse_uri-path, urls.build-ok method) refl

  -- The credentials fit into headers.
  abbrev pub Sendable : Option AuthData → Type 0
  Sendable none = Unit {0}
  Sendable (some (AuthData.bearer token)) = is_ok (w.bearer token) ≡ true
  Sendable (some (AuthData.basic key)) = Unit {0}
  Sendable (some (AuthData.api_key key)) = is_ok (w.header_value key) ≡ true

  -- A step that adds a header.
  abbrev pub Adds : (Request → Result String Request) → Type 0
  Adds m =
      (r : Request)
      → (headers : List (String × String)) × (m r ≡ ok (record r { headers = headers }))
        × (get_header "content-type" headers ≡ get_header "content-type" r.headers)

  pub with_header-Adds :
      (name message : String) (value : Result String String)
      → same name "content-type" ≡ false
      → is_ok value ≡ true
      → Adds (λ r. with_header name message r value)
  unfolding set_header
  with_header-Adds name message (ok v) d h r =
      (insert_header name v r.headers, refl, get_header-insert_header name v r.headers d)
  with_header-Adds name message (err e) d h r = absurd (cc)

  pub span_header-Adds :
      (context : Context)
      → is_ok (w.header_value context.span_id) ≡ true
      → Adds (span_header w context)
  unfolding span_header
  span_header-Adds context h =
      with_header-Adds "x-span-id" "Unable to create X-Span ID header value: "
        (w.header_value context.span_id) refl h

  pub bearer_header-Adds :
      (span_id : String) (auth : Option AuthData)
      → Sendable auth
      → Adds (bearer_header w (record { span_id = span_id; auth_data = auth }))
  unfolding bearer_header
  bearer_header-Adds span_id none h r = (r.headers, refl, refl)
  bearer_header-Adds span_id (some (AuthData.bearer token)) h r =
      with_header-Adds "authorization" "Unable to create Authorization header: " (w.bearer token)
        refl h r
  bearer_header-Adds span_id (some (AuthData.basic key)) h r = (r.headers, refl, refl)
  bearer_header-Adds span_id (some (AuthData.api_key key)) h r = (r.headers, refl, refl)

  pub key_header-Adds :
      (span_id : String) (auth : Option AuthData)
      → Sendable auth
      → Adds (key_header w (record { span_id = span_id; auth_data = auth }))
  unfolding key_header
  key_header-Adds span_id none h r = (r.headers, refl, refl)
  key_header-Adds span_id (some (AuthData.bearer token)) h r = (r.headers, refl, refl)
  key_header-Adds span_id (some (AuthData.basic key)) h r = (r.headers, refl, refl)
  key_header-Adds span_id (some (AuthData.api_key key)) h r =
      with_header-Adds "api_key" "Unable to create header: " (w.header_value key) refl h r
