-- ===== src/Hyper/Header.antt =====
-- The conversions between header values and values of petshop-stacks/rust/hyper/src/header.rs. The
-- message of a value that cannot be read holds the value as `Debug` prints it.
use speed_test.Base.{String, ◌++◌, ℤ, Result, ok, err, show_int}
use speed_test.Hyper.Http.{Wire}
use speed_test.Hyper.Parse.{parse_i32}

module _ {DateTime : Type 0} (w : Wire DateTime) where
  -- `TryFrom<HeaderValue> for IntoHeaderValue<i32>`, and the way back
  unfoldable pub read_i32 : String → Result String ℤ
  read_i32 v = elim (w.to_str v) [
    | ok s ↦ elim (parse_i32 s) [
      | ok z ↦ ok z
      | err e ↦ err ("Unable to parse i32 as a string: " ++ e)
    ]
    | err e ↦ err ("Unable to parse header " ++ w.debug_value v ++ " as a string - " ++ e)
  ]

  unfoldable pub write_i32 : ℤ → Result String String
  write_i32 z = ok (show_int z)

  -- `String`
  unfoldable pub read_string : String → Result String String
  read_string v = elim (w.to_str v) [
    | ok s ↦ ok s
    | err e ↦ err ("Unable to convert header " ++ w.debug_value v ++ " to " ++ e)
  ]

  unfoldable pub write_string : String → Result String String
  write_string s = elim (w.header_value s) [
    | ok v ↦ ok v
    | err e ↦ err ("Unable to convert " ++ w.debug_text s ++ " from a header " ++ e)
  ]

  -- `DateTime<Utc>`
  unfoldable pub read_date : String → Result String DateTime
  read_date v = elim (w.to_str v) [
    | ok s ↦ elim (w.parse_rfc3339 s) [
      | ok t ↦ ok t
      | err e ↦ err ("Unable to parse: " ++ s ++ " as date - " ++ e)
    ]
    | err e ↦ err ("Unable to convert header " ++ w.debug_value v ++ " to string " ++ e)
  ]

  unfoldable pub write_date : DateTime → Result String String
  write_date t = elim (w.header_value (w.to_rfc3339 t)) [
    | ok v ↦ ok v
    | err e ↦ err ("Unable to convert " ++ w.debug_date t ++ " to a header: " ++ e)
  ]
