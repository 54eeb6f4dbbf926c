-- ===== src/Hyper/Form/RoundTrip/ApiResponse.antt =====
-- What `from_str` of `ApiResponse` makes of the text that `Display` prints.
use speed_test.Base.{
  String, ◌≡◌, refl, ap, ◌∙◌, Option, none, some, [], ◌∷◌, ℤ, ok, List, map_option, show_int, arith,
}
use speed_test.Models.{ApiResponse}
use speed_test.Hyper.Parse.Printed.{parse_i32-show_int}
use speed_test.Hyper.Form.{push}
use speed_test.Hyper.Form.ApiResponse.{
  ApiResponseRep, api_response_fields, api_response_to_string, push_api_response, no_api_response,
  api_response_of, api_response_from_str,
}
use speed_test.Hyper.Form.Split.{OptionHasNoComma}
use speed_test.Hyper.Form.Fields.{Pushes, parse_fields-pairs}
use speed_test.Hyper.Form.RoundTrip.{
  OptionIsI32, values, first-values, or_missing, parse_fields-show_fields, show_int-HasNoComma,
}

push_api_response-code :
    (rep : ApiResponseRep) (z : Option ℤ)
    → OptionIsI32 z
    → rep.code ≡ []
    → Pushes "ApiResponse" push_api_response "code"
        (map_option show_int z)
        rep
        (record rep { code = values z })
unfolding push_api_response
push_api_response-code rep none r h = ap (λ x. record rep { code = x }) h
push_api_response-code rep (some z) r h =
    rw (parse_i32-show_int z r) (ap (λ x. ok (record rep { code = push x z })) h)

push_api_response-type :
    (rep : ApiResponseRep) (v : Option String)
    → rep.type ≡ []
    → Pushes "ApiResponse" push_api_response "type" v rep (record rep { type = values v })
unfolding push_api_response
push_api_response-type rep none h = ap (λ x. record rep { type = x }) h
push_api_response-type rep (some v) h = ap (λ x. ok (record rep { type = push x v })) h

push_api_response-message :
    (rep : ApiResponseRep) (v : Option String)
    → rep.message ≡ []
    → Pushes "ApiResponse" push_api_response "message" v rep (record rep { message = values v })
unfolding push_api_response
push_api_response-message rep none h = ap (λ x. record rep { message = x }) h
push_api_response-message rep (some v) h = ap (λ x. ok (record rep { message = push x v })) h

-- No text of it holds a comma, and its numbers are in their ranges.
abbrev pub IsPlainApiResponse : ApiResponse → Type 0
IsPlainApiResponse a = OptionIsI32 a.code × OptionHasNoComma a.type × OptionHasNoComma a.message

-- An value of ApiResponse whose texts hold no comma and whose numbers are in the ranges of their types
-- is read back from its printed form, except where it has no field: then the printed form is refused.
pub api_response_from_str-api_response_to_string :
    (a : ApiResponse)
    → IsPlainApiResponse a
    → api_response_from_str (api_response_to_string a)
      ≡ or_missing "ApiResponse" (api_response_fields a) a
unfolding api_response_from_str api_response_to_string
api_response_from_str-api_response_to_string a h =
    let r1 : ApiResponseRep = record no_api_response { code = values a.code } in
    let r2 : ApiResponseRep = record r1 { type = values a.type } in
    let r3 : ApiResponseRep = record r2 { message = values a.message } in
    let fields_3 : List (String × Option String) = ("message", a.message) ∷ [] in
    let fields_2 : List (String × Option String) = ("type", a.type) ∷ fields_3 in
    parse_fields-show_fields "ApiResponse" push_api_response no_api_response r3 api_response_of
      (api_response_fields a) a
      (ground arith, show_int-HasNoComma a.code, (ground arith, h.1, (ground arith, h.2, tt)))
      (parse_fields-pairs "ApiResponse" push_api_response "code" (map_option show_int a.code)
          fields_2 no_api_response r1 (push_api_response-code no_api_response a.code h.0 refl)
        ∙ parse_fields-pairs "ApiResponse" push_api_response "type" (a.type) fields_3 r1 r2
            (push_api_response-type r1 a.type refl)
        ∙ parse_fields-pairs "ApiResponse" push_api_response "message" (a.message) [] r2 r3
            (push_api_response-message r2 a.message refl)
        ∙ refl)
      (rw (first-values a.code, first-values a.type, first-values a.message) refl)
