-- ===== src/Hyper/Form/ApiResponse.antt =====
-- `Display` and `FromStr` of `ApiResponse` of petshop-stacks/rust/hyper/src/models.rs.
use speed_test.Base.{
  String, Option, List, [], ◌∷◌, same, string_key, if◌then◌else◌, Result, ok, err, ℤ, map_option,
  show_int,
}
use speed_test.Models.{ApiResponse}
use speed_test.Hyper.Parse.{parse_i32}
use speed_test.Hyper.Client.Pet.{join_commas}
use speed_test.Hyper.Form.{
  split_commas, present, show_fields, parse_fields, push, with_value, first,
}

-- `IntermediateRep`
pub record ApiResponseRep : Type 0 where
  pub code : List ℤ
  pub type : List String
  pub message : List String

abbrev pub api_response_fields : ApiResponse → List (String × Option String)
api_response_fields a =
    ("code", map_option show_int a.code) ∷ ("type", a.type) ∷ ("message", a.message) ∷ []

unfoldable pub api_response_to_string : ApiResponse → String
unfolding join_commas present show_int
api_response_to_string a = show_fields (api_response_fields a)

unfoldable pub push_api_response : String → String → ApiResponseRep → Result String ApiResponseRep
push_api_response key v rep =
    if same key "code"
    then with_value (parse_i32 v) (λ z. record rep { code = push rep.code z })
    else if same key "type"
    then ok (record rep { type = push rep.type v })
    else if same key "message"
    then ok (record rep { message = push rep.message v })
    else err "Unexpected key while parsing ApiResponse"

abbrev pub no_api_response : ApiResponseRep
no_api_response = record { code = []; type = []; message = [] }

abbrev pub api_response_of : ApiResponseRep → ApiResponse
api_response_of rep = record {
  code = first rep.code;
  type = first rep.type;
  message = first rep.message;
}

unfoldable pub api_response_from_str : String → Result String ApiResponse
unfolding split_commas parse_fields push_api_response
api_response_from_str s =
    with_value (parse_fields "ApiResponse" push_api_response no_api_response (split_commas s))
      api_response_of
