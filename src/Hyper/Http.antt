-- ===== src/Hyper/Http.antt =====
-- Requests and responses as the generated server and client of petshop-stacks/rust/hyper/src see
-- them, and the libraries that they read and write them with, as parameters: `hyper`, `serde_json`,
-- `serde_xml_rs`, `serde_ignored`, `percent-encoding`, `form_urlencoded`, `chrono` and `headers`.
use speed_test.Base.{
  ℕ, String, ◌≡◌, Option, none, some, List, [], ◌∷◌, ℤ, Result, ok, same, string_key, if◌then◌else◌,
}
use speed_test.Models.{Pet, Order, User, ApiResponse}
use speed_test.Serde.{Codec}
use speed_test.Hyper.Responses.{Error}

pub data Method : Type 0 where
  get post put delete : Method
  other : String → Method

-- What the code reads of a `Uri`.
pub record Uri : Type 0 where
  pub path : String
  pub query : Option String

-- Header values are texts that `to_str` may refuse. A body that cannot be read is an error.
pub record Request : Type 0 where
  pub method : Method
  pub uri : Uri
  pub headers : List (String × String)
  pub body : Result String (List ℕ)

pub record Response : Type 0 where
  pub status : ℕ
  pub headers : List (String × String)
  pub body : Result String (List ℕ)

-- `HeaderMap::get` and `HeaderMap::insert`
unfoldable pub get_header : String → List (String × String) → Option String
get_header name [] = none
get_header name ((n, v) ∷ headers) = if same n name then some v else get_header name headers

unfoldable pub insert_header : String → String → List (String × String) → List (String × String)
insert_header name value [] = (name, value) ∷ []
insert_header name value ((n, v) ∷ headers) =
    if same n name then (name, value) ∷ headers else (n, v) ∷ insert_header name value headers

-- How a type is read from the bytes of a body, and written as XML. JSON is read by `serde_ignored`,
-- which lists the paths of unknown fields, also where the reading fails in the end.
pub record Body (A : Type 0) : Type 0 where
  pub from_json : List ℕ → Result String (Option A) × List String
  pub from_xml : List ℕ → Result String (Option A)
  pub as_xml : A → Result String String

pub record Wire (DateTime : Type 0) : Type 0 where
  -- `serde_json`, and the readers of request bodies
  pub pet : Codec Pet
  pub pets : Codec (List Pet)
  pub api_response : Codec ApiResponse
  pub inventory : Codec (List (String × ℤ))
  pub order : Codec (Order DateTime)
  pub user : Codec User
  pub users : Codec (List User)
  pub error : Codec Error
  pub pet_body : Body Pet
  pub order_body : Body (Order DateTime)
  pub user_body : Body User
  pub users_body : Body (List User)
  -- `serde_xml_rs::from_str::<String>`
  pub xml_text : String → Result String String
  -- the bytes of a text, `str::from_utf8`, and the printed error of `String::from_utf8`
  pub as_bytes : String → List ℕ
  pub from_utf8 : List ℕ → Result String String
  pub from_utf8-as_bytes : (s : String) → from_utf8 (as_bytes s) ≡ ok s
  pub utf8_error : List ℕ → String
  -- `percent_decode(…).decode_utf8()`, and `utf8_percent_encode` with `ID_ENCODE_SET`
  pub percent_decode : String → Option String
  pub percent_encode : String → String
  -- `form_urlencoded::parse`, and the `Serializer`
  pub form_parse : String → List (String × String)
  pub form_serialize : List (String × String) → String
  -- `HeaderValue::from_str`, `to_str` and `Debug`; `Debug` of the other values that are printed
  pub header_value : String → Result String String
  pub to_str : String → Result String String
  pub debug_value : String → String
  pub debug_headers : List (String × String) → String
  pub debug_list : List String → String
  pub debug_text : String → String
  pub debug_date : DateTime → String
  -- `to_rfc3339` and `parse_from_rfc3339(…)`, in UTC
  pub to_rfc3339 : DateTime → String
  pub parse_rfc3339 : String → Result String DateTime
  -- `Uri::from_str`, `Request::builder()`, and `Authorization::bearer(…)` with its `encode`
  pub parse_uri : String → Result String Uri
  pub build : Method → Uri → Result String (Unit {0})
  pub bearer : String → Result String String
