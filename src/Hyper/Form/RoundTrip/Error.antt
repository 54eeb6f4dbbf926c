-- ===== src/Hyper/Form/RoundTrip/Error.antt =====
-- What `from_str` of `Error` makes of the text that `Display` prints.
use speed_test.Base.{◌++◌, ◌≡◌, refl, ap, ◌∙◌, [], ◌∷◌, arith, ok}
use speed_test.Hyper.Responses.{Error}
use speed_test.Hyper.Form.{split_commas}
use speed_test.Hyper.Form.Error.{error_to_string, error_from_str}
use speed_test.Hyper.Form.Split.{HasNoComma, split_commas-comma, split_commas-plain}

split_commas-error_to_string :
    (e : Error)
    → HasNoComma e.code
    → HasNoComma e.message
    → split_commas (error_to_string e) ≡ "code" ∷ e.code ∷ "message" ∷ e.message ∷ []
unfolding error_to_string
split_commas-error_to_string e code message =
    split_commas-comma "code" (e.code ++ "," ++ "message" ++ "," ++ e.message) (ground arith)
    ∙ ap (λ x. "code" ∷ x)
        (split_commas-comma e.code ("message" ++ "," ++ e.message) code
          ∙ ap (λ x. e.code ∷ x)
              (split_commas-comma "message" e.message (ground arith)
                ∙ ap (λ x. "message" ∷ x) (split_commas-plain e.message message)))

-- An error whose code and message hold no comma is read by from_str from the text that Display
-- prints, as the same error.
pub error_from_str-error_to_string :
    (e : Error)
    → HasNoComma e.code
    → HasNoComma e.message
    → error_from_str (error_to_string e) ≡ ok e
unfolding error_from_str
error_from_str-error_to_string e code message =
    rw (error_from_str, split_commas-error_to_string e code message) refl
