-- ===== src/Serde.antt =====
-- The libraries that the servers convert values with, as parameters: `serde_json` (with the derived
-- `Serialize` and `Deserialize` of the models) and `chrono`.
use speed_test.Base.{String, ◌≡◌, List, Result, ok}
use speed_test.Models.{Category, Tag}

-- `serde_json::to_string` and `serde_json::from_str` at one type. What is written is read back: the
-- derived implementations of a type are inverse, and writing plain data does not fail.
pub record Codec (A : Type 0) : Type 0 where
  pub to_string : A → Result String String
  pub from_str : String → Result String A
  pub text : A → String
  pub writes : (a : A) → to_string a ≡ ok (text a)
  pub reads : (a : A) → from_str (text a) ≡ ok a

pub record Json : Type 0 where
  pub category : Codec Category
  pub urls : Codec (List String)
  pub tags : Codec (List Tag)

-- `DateTime<Utc>` and `NaiveDateTime`. An instant in UTC and its calendar reading determine each
-- other.
pub record Chrono : Type 1 where
  pub DateTime : Type 0
  pub NaiveDateTime : Type 0
  pub naive_utc : DateTime → NaiveDateTime
  pub from_naive_utc : NaiveDateTime → DateTime
  pub from-naive_utc : (t : DateTime) → from_naive_utc (naive_utc t) ≡ t
