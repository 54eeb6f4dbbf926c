-- ===== src/Helpers.antt =====
-- The conversion of rows to models: petshop-stacks/rust/actix/src/helpers.rs, which is the same code
-- as petshop-stacks/rust/hyper/src/helpers.rs.
use speed_test.Base.{String, Option, Bool, [], ℤ, ok?, or_default, map_option, and_then}
use speed_test.Models.{Pet, Order, User, parse_pet_status, parse_order_status}
use speed_test.Serde.{Json, Chrono}

unfoldable pub row_to_pet :
    Json → Option ℤ → String → Option String → String → Option String → Option String → Pet
row_to_pet json id name category_text photo_urls_text tags_text status_text = record {
  id = id;
  name = name;
  category = and_then category_text (λ s. ok? (json.category.from_str s));
  photo_urls = or_default (json.urls.from_str photo_urls_text) [];
  tags = and_then tags_text (λ s. ok? (json.tags.from_str s));
  status = and_then status_text (λ s. ok? (parse_pet_status s));
}

unfoldable pub row_to_order :
    (c : Chrono)
    → Option ℤ
    → Option ℤ
    → Option ℤ
    → Option c.NaiveDateTime
    → Option String
    → Option Bool
    → Order c.DateTime
row_to_order c id pet_id quantity ship_date_naive status_text complete = record {
  id = id;
  pet_id = pet_id;
  quantity = quantity;
  ship_date = map_option c.from_naive_utc ship_date_naive;
  status = and_then status_text (λ s. ok? (parse_order_status s));
  complete = complete;
}

unfoldable pub row_to_user :
    Option ℤ
    → Option String
    → Option String
    → Option String
    → Option String
    → Option String
    → Option String
    → Option ℤ
    → User
row_to_user id username first_name last_name email password phone user_status = record {
  id = id;
  username = username;
  first_name = first_name;
  last_name = last_name;
  email = email;
  password = password;
  phone = phone;
  user_status = user_status;
}
