-- ===== src/Hyper/Client/Message.antt =====
-- What the operations of petshop-stacks/rust/hyper/src/client/mod.rs share: how a request is made
-- and sent, and how the body of a response is read.
use speed_test.Base.{
  ℕ, String, ◌++◌, Option, some, List, [], same, string_key, if◌then◌else◌, Result, ok, err,
  map_error, Exec, lift, show_nat,
}
use speed_test.Hyper.Http.{Method, Request, Response, Wire, insert_header}

-- `AuthData` of `swagger`, and the context of a call
pub data AuthData : Type 0 where
  bearer basic api_key : String → AuthData

pub record Context : Type 0 where
  pub span_id : String
  pub auth_data : Option AuthData

-- A step of an operation, which may end it with `ApiError`, or with a panic.
abbrev pub Step : Type 0 → Type 0 → Type 0 → Type 0
Step S R A = Exec S (Option (Result String R)) A

abbrev pub try : {S R A : Type 0} → Result String A → Step S R A
try r = lift (map_error (λ e. some (err e)) r)

-- `request.headers_mut().insert(…)`, and the body
unfoldable pub set_header : String → String → Request → Request
unfolding insert_header
set_header name value r = record r { headers = insert_header name value r.headers }

abbrev pub set_body : List ℕ → Request → Request
set_body bytes r = record r { body = ok bytes }

-- A header from a value that may be none.
abbrev pub with_header : String → String → Request → Result String String → Result String Request
with_header name message request (ok v) = ok (set_header name v request)
with_header name message request (err e) = err (message ++ e)

-- The service that carries a request to the server.
abbrev pub Service : Type 0 → Type 0
Service S = Request → S → Result String Response × S

-- `client_service.call(…)`
abbrev pub send : {S R : Type 0} → Service S → Request → Step S R Response
send service request s =
    let (r, s') = service request s in try (map_error (λ e. "No response received: " ++ e) r) s'

module _ {DateTime : Type 0} (w : Wire DateTime) where
  -- `{base_path}{path}` with the query, as a request without a body
  unfoldable pub new_request :
      String → Method → String → List (String × String) → Result String Request
  new_request base_path method path pairs =
      let query_string = w.form_serialize pairs in
      let text =
        if same query_string ""
        then base_path ++ path
        else base_path ++ path ++ "?" ++ query_string in
      elim (w.parse_uri text) [
        | err e ↦ err ("Unable to build URI: " ++ e)
        | ok uri ↦ elim (w.build method uri) [
          | err e ↦ err ("Unable to create request: " ++ e)
          | ok done ↦ ok (record { method = method; uri = uri; headers = []; body = ok [] })
        ]
      ]

  unfoldable pub span_header : Context → Request → Result String Request
  unfolding set_header
  span_header context request =
      with_header "x-span-id" "Unable to create X-Span ID header value: " request
        (w.header_value context.span_id)

  -- The header of a bearer token
  unfoldable pub bearer_header : Context → Request → Result String Request
  unfolding set_header
  bearer_header context request = elim context.auth_data [
    | some (AuthData.bearer token) ↦
        with_header "authorization" "Unable to create Authorization header: " request
          (w.bearer token)
    | other ↦ ok request
  ]

  -- The header of an API key
  unfoldable pub key_header : Context → Request → Result String Request
  unfolding set_header
  key_header context request = elim context.auth_data [
    | some (AuthData.api_key key) ↦
        with_header "api_key" "Unable to create header: " request (w.header_value key)
    | other ↦ ok request
  ]

  -- The body of a response as a text
  unfoldable pub read_text : Response → Result String String
  read_text response = elim response.body [
    | err e ↦ err ("Failed to read response: " ++ e)
    | ok bytes ↦ elim (w.from_utf8 bytes) [
      | err e ↦ err ("Response was not valid UTF8: " ++ e)
      | ok text ↦ ok text
    ]
  ]

  -- `serde_json::from_str` of the body, or another reader
  unfoldable pub read_as :
      {A R : Type 0} → (String → Result String A) → (A → R) → Response → Result String R
  unfolding read_text
  read_as from_str make response = elim (read_text response) [
    | err e ↦ err e
    | ok text ↦ elim (from_str text) [
      | err e ↦ err ("Response body did not match the schema: " ++ e)
      | ok a ↦ ok (make a)
    ]
  ]

  abbrev pub shown_body : Result String (List ℕ) → String
  shown_body (err e) = "<Failed to read body: " ++ e ++ ">"
  shown_body (ok bytes) = elim (w.from_utf8 bytes) [
    | ok text ↦ text
    | err e ↦ "<Body was not UTF8: " ++ w.utf8_error bytes ++ ">"
  ]

  -- The arm `code => …`
  unfoldable pub unexpected : {R : Type 0} → Response → Result String R
  unexpected response = err (
      "Unexpected response code "
      ++ show_nat response.status
      ++ ":\n"
      ++ w.debug_headers response.headers
      ++ "\n\n"
      ++ shown_body response.body)
