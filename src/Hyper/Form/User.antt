-- ===== src/Hyper/Form/User.antt =====
-- `Display` and `FromStr` of `User` of petshop-stacks/rust/hyper/src/models.rs.
use speed_test.Base.{
  String, Option, List, [], ◌∷◌, same, string_key, if◌then◌else◌, Result, ok, err, ℤ, map_option,
  show_int,
}
use speed_test.Models.{User}
use speed_test.Hyper.Parse.{parse_i64, parse_i32}
use speed_test.Hyper.Client.Pet.{join_commas}
use speed_test.Hyper.Form.{
  split_commas, present, show_fields, parse_fields, push, with_value, first,
}

-- `IntermediateRep`
pub record UserRep : Type 0 where
  pub id : List ℤ
  pub username : List String
  pub first_name : List String
  pub last_name : List String
  pub email : List String
  pub password : List String
  pub phone : List String
  pub user_status : List ℤ

abbrev pub user_fields : User → List (String × Option String)
user_fields u =
    ("id", map_option show_int u.id)
    ∷ ("username", u.username)
    ∷ ("firstName", u.first_name)
    ∷ ("lastName", u.last_name)
    ∷ ("email", u.email)
    ∷ ("password", u.password)
    ∷ ("phone", u.phone)
    ∷ ("userStatus", map_option show_int u.user_status)
    ∷ []

unfoldable pub user_to_string : User → String
unfolding join_commas present show_int
user_to_string u = show_fields (user_fields u)

unfoldable pub push_user : String → String → UserRep → Result String UserRep
push_user key v rep =
    if same key "id"
    then with_value (parse_i64 v) (λ z. record rep { id = push rep.id z })
    else if same key "username"
    then ok (record rep { username = push rep.username v })
    else if same key "firstName"
    then ok (record rep { first_name = push rep.first_name v })
    else if same key "lastName"
    then ok (record rep { last_name = push rep.last_name v })
    else if same key "email"
    then ok (record rep { email = push rep.email v })
    else if same key "password"
    then ok (record rep { password = push rep.password v })
    else if same key "phone"
    then ok (record rep { phone = push rep.phone v })
    else if same key "userStatus"
    then with_value (parse_i32 v) (λ z. record rep { user_status = push rep.user_status z })
    else err "Unexpected key while parsing User"

abbrev pub no_user : UserRep
no_user = record {
  id = [];
  username = [];
  first_name = [];
  last_name = [];
  email = [];
  password = [];
  phone = [];
  user_status = [];
}

abbrev pub user_of : UserRep → User
user_of rep = record {
  id = first rep.id;
  username = first rep.username;
  first_name = first rep.first_name;
  last_name = first rep.last_name;
  email = first rep.email;
  password = first rep.password;
  phone = first rep.phone;
  user_status = first rep.user_status;
}

unfoldable pub user_from_str : String → Result String User
unfolding split_commas parse_fields push_user
user_from_str s = with_value (parse_fields "User" push_user no_user (split_commas s)) user_of
