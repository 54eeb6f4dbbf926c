-- ===== src/Rows.antt =====
-- How the handlers of both servers bind a model to the columns of its table, and how they read a row
-- back. What is stored is read back unchanged.
pub mod RoundTrip
use speed_test.Base.{String, Option, some, ℤ, map_option, or_default}
use speed_test.Models.{Pet, Order, User, pet_status_to_string, order_status_to_string}
use speed_test.Serde.{Codec, Json, Chrono}
use speed_test.Helpers.{row_to_pet, row_to_order, row_to_user}
use speed_test.Sql.Schema.{PetRow, OrderRow, UserColumns, UserRow}

-- `value.as_ref().map(|v| serde_json::to_string(v).unwrap_or_default())`
abbrev pub encode_opt : {A : Type 0} → Codec A → Option A → Option String
encode_opt codec value = map_option (λ a. or_default (codec.to_string a) "") value

-- The bound values of the INSERT and the UPDATE of a pet.
unfoldable pub pet_values : Json → ℤ → Pet → String → PetRow
unfolding pet_status_to_string
pet_values json id pet photo_urls_json = record {
  id = id;
  name = pet.name;
  category = encode_opt json.category pet.category;
  photo_urls = photo_urls_json;
  tags = encode_opt json.tags pet.tags;
  status = map_option pet_status_to_string pet.status;
}

-- A row of `SELECT id, name, category, photo_urls::text, tags::text, status::text`
unfoldable pub pet_of_row : Json → PetRow → Pet
unfolding row_to_pet
pet_of_row json r = row_to_pet json (some r.id) r.name r.category r.photo_urls r.tags r.status

-- The bound values of the INSERT of an order.
unfoldable pub order_values : (c : Chrono) → ℤ → Order c.DateTime → OrderRow c.NaiveDateTime
unfolding order_status_to_string
order_values c id order = record {
  id = id;
  pet_id = order.pet_id;
  quantity = order.quantity;
  ship_date = map_option c.naive_utc order.ship_date;
  status = map_option order_status_to_string order.status;
  complete = order.complete;
}

-- A row of `SELECT id, pet_id, quantity, ship_date, status::text, complete`
unfoldable pub order_of_row : (c : Chrono) → OrderRow c.NaiveDateTime → Order c.DateTime
unfolding row_to_order
order_of_row c r = row_to_order c (some r.id) r.pet_id r.quantity r.ship_date r.status r.complete

-- The bound values of a user beside the name.
unfoldable pub user_values : Option ℤ → User → UserColumns
user_values id user = record {
  id = id;
  first_name = user.first_name;
  last_name = user.last_name;
  email = user.email;
  password = user.password;
  phone = user.phone;
  user_status = user.user_status;
}

-- A row of `SELECT id, username, first_name, last_name, email, password, phone, user_status`
unfoldable pub user_of_row : UserRow → User
unfolding row_to_user
user_of_row r =
    row_to_user r.columns.id (some r.username) r.columns.first_name r.columns.last_name
      r.columns.email r.columns.password r.columns.phone r.columns.user_status
