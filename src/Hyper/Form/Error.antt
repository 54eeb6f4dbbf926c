-- ===== src/Hyper/Form/Error.antt =====
-- `Display` and `FromStr` of `Error` of petshop-stacks/rust/hyper/src/models.rs.
use speed_test.Base.{String, List, [], ◌∷◌, same, string_key, if◌then◌else◌, Result, ok, err, ◌++◌}
use speed_test.Hyper.Responses.{Error}
use speed_test.Hyper.Client.Pet.{join_commas}
use speed_test.Hyper.Form.{split_commas, parse_fields, push, with_value}

-- `IntermediateRep`
pub record ErrorRep : Type 0 where
  pub code : List String
  pub message : List String

unfoldable pub error_to_string : Error → String
unfolding join_commas
error_to_string e = join_commas ("code" ∷ e.code ∷ "message" ∷ e.message ∷ [])

unfoldable pub push_error : String → String → ErrorRep → Result String ErrorRep
push_error key v rep =
    if same key "code"
    then ok (record rep { code = push rep.code v })
    else if same key "message"
    then ok (record rep { message = push rep.message v })
    else err "Unexpected key while parsing Error"

abbrev pub no_error : ErrorRep
no_error = record { code = []; message = [] }

abbrev pub required : String → List String → Result String String
required name [] = err (name ++ " missing in Error")
required name (v ∷ rest) = ok v

abbrev pub error_of : ErrorRep → Result String Error
error_of rep = elim (required "code" rep.code) [
  | err e ↦ err e
  | ok code ↦ with_value (required "message" rep.message) (λ m. record { code = code; message = m })
]

unfoldable pub error_from_str : String → Result String Error
unfolding split_commas parse_fields push_error
error_from_str s = elim (parse_fields "Error" push_error no_error (split_commas s)) [
  | err e ↦ err e
  | ok rep ↦ error_of rep
]
