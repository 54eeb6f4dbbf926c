-- ===== src/Hyper/Server/Params.antt =====
-- The parameters that the handlers of petshop-stacks/rust/hyper/src/server/mod.rs read from the
-- path, the query and the body of a request.
use speed_test.Base.{
  ℕ, String, ◌++◌, Option, none, some, Bool, List, [], ◌∷◌, ℤ, same, string_key, if◌then◌else◌,
  unwrap_or, is_empty, or_default, Result, ok, err,
}
use speed_test.Hyper.Http.{Uri, Request, Body, Wire, get_header}
use speed_test.Hyper.Parse.{parse_i64, contains}
use speed_test.Hyper.Paths.{PathId, regex, captures}
use speed_test.Hyper.Responses.{FindPetsByStatusStatusParameter}
use speed_test.Hyper.Server.Access.{Answer, bad_request}

-- `FromStr` of `FindPetsByStatusStatusParameter` of src/models.rs
unfoldable pub parse_status_parameter : String → Result String FindPetsByStatusStatusParameter
parse_status_parameter s =
    if same s "available"
    then ok FindPetsByStatusStatusParameter.available
    else if same s "pending"
    then ok FindPetsByStatusStatusParameter.pending
    else if same s "sold"
    then ok FindPetsByStatusStatusParameter.sold
    else err ("Value not valid: " ++ s)

-- The first value of a key, and all its values.
unfoldable pub first_value : String → List (String × String) → Option String
first_value key [] = none
first_value key ((k, v) ∷ pairs) = if same k key then some v else first_value key pairs

unfoldable pub all_values : String → List (String × String) → List String
all_values key [] = []
all_values key ((k, v) ∷ pairs) =
    let rest = all_values key pairs in if same k key then v ∷ rest else rest

module _ {DateTime : Type 0} (w : Wire DateTime) where
  -- A segment of the path; the handler panics where its expression does not match.
  unfoldable pub path_text : PathId → String → Answer String
  unfolding captures
  path_text id path = elim (captures (regex id) path) [
    | none ↦ err none
    | some raw ↦ elim (w.percent_decode raw) [
      | some text ↦ ok text
      | none ↦ bad_request w ("Couldn't percent-decode path parameter as UTF-8: " ++ raw)
    ]
  ]

  unfoldable pub path_i64 : PathId → String → String → Answer ℤ
  unfolding path_text
  path_i64 id name path = elim (path_text id path) [
    | err answer ↦ err answer
    | ok text ↦ elim (parse_i64 text) [
      | ok z ↦ ok z
      | err e ↦ bad_request w ("Couldn't parse path parameter " ++ name ++ ": " ++ e)
    ]
  ]

  abbrev pub query_params : Uri → List (String × String)
  query_params uri = w.form_parse (unwrap_or uri.query "")

  unfoldable pub status_param : Uri → Answer (Option FindPetsByStatusStatusParameter)
  unfolding first_value parse_status_parameter
  status_param uri = elim (first_value "status" (query_params uri)) [
    | none ↦ ok none
    | some s ↦ elim (parse_status_parameter s) [
      | ok status ↦ ok (some status)
      | err e ↦
          bad_request w ("Couldn't parse query parameter status - doesn't match schema: " ++ e)
    ]
  ]

  unfoldable pub tags_param : Uri → Option (List String)
  unfolding all_values
  tags_param uri = elim (all_values "tags" (query_params uri)) [
    | [] ↦ none
    | tag ∷ tags ↦ some (tag ∷ tags)
  ]

  -- `http_body_util::BodyExt::collect(body)`
  unfoldable pub read_body : Request → Answer (List ℕ)
  read_body request = elim request.body [
    | ok bytes ↦ ok bytes
    | err e ↦ bad_request w ("Unable to read body: " ++ e)
  ]

  -- `headers.get(CONTENT_TYPE)`, `contains("application/json")`
  unfoldable pub is_json : Request → Bool
  unfolding contains get_header
  is_json request = contains "application/json" (elim (get_header "content-type" request.headers) [
    | none ↦ ""
    | some v ↦ or_default (w.to_str v) ""
  ])

  -- The body as JSON or as XML, if there is one.
  unfoldable pub body_param : {A : Type 0} → Body A → Request → List ℕ → Result String (Option A)
  unfolding is_json
  body_param body request bytes =
      if is_empty bytes
      then ok none
      else if is_json request
      then (body.from_json bytes).0
      else body.from_xml bytes

  -- The body of `add_pet` and `update_pet`, which must be there and be right
  unfoldable pub required_body : {A : Type 0} → String → Body A → Request → List ℕ → Answer A
  unfolding body_param
  required_body name body request bytes = elim (body_param body request bytes) [
    | err e ↦
        bad_request w ("Couldn't parse body parameter " ++ name ++ " - doesn't match schema: " ++ e)
    | ok none ↦ bad_request w ("Missing required body parameter " ++ name)
    | ok (some a) ↦ ok a
  ]

  -- The other bodies: what is not right is ignored
  unfoldable pub optional_body : {A : Type 0} → Body A → Request → List ℕ → Option A
  unfolding body_param
  optional_body body request bytes = or_default (body_param body request bytes) none
