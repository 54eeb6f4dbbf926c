-- ===== src/Rows/RoundTrip.antt =====
-- A model that is bound to columns and read back from them is the same model, with its id.
use speed_test.Base.{
  String, Option, none, some, ℤ, ◌≡◌, refl, arith, ok?, and_then, map_option, ◌∙◌, Option-cases,
  inl, inr,
}
use speed_test.Models.{
  Pet, PetStatus, Order, OrderStatus, User, pet_status_to_string, order_status_to_string,
  parse_pet_status, parse_order_status,
}
use speed_test.Models.Labels.{parse_pet_status_iff, parse_order_status_iff}
use speed_test.Serde.{Codec, Json, Chrono}
use speed_test.Sql.Meaning.{Dialect, stored_order}
use speed_test.Rows.{
  encode_opt, pet_values, pet_of_row, order_values, order_of_row, user_values, user_of_row,
}

decode-encode :
    {A : Type 0} (codec : Codec A) (value : Option A)
    → and_then (encode_opt codec value) (λ s. ok? (codec.from_str s)) ≡ value
decode-encode codec none = refl
decode-encode codec (some a) = ground (arith, codec.writes a, codec.reads a)

pet_label :
    (st : Option PetStatus)
    → and_then (map_option pet_status_to_string st) (λ s. ok? (parse_pet_status s)) ≡ st
pet_label none = refl
pet_label (some st) = rw ((parse_pet_status_iff (pet_status_to_string st) st).1 refl)

order_label :
    (st : Option OrderStatus)
    → and_then (map_option order_status_to_string st) (λ s. ok? (parse_order_status s)) ≡ st
order_label none = refl
order_label (some st) = rw ((parse_order_status_iff (order_status_to_string st) st).1 refl)

-- The row that a pet is stored in reads back as that pet under its id.
pub pet_of_row-pet_values :
    (json : Json) (id : ℤ) (pet : Pet)
    → pet_of_row json (pet_values json id pet (json.urls.text pet.photo_urls))
      ≡ record pet { id = some id }
unfolding pet_values pet_of_row
pet_of_row-pet_values json id pet = ground (
  arith,
  decode-encode json.category pet.category,
  decode-encode json.tags pet.tags,
  json.urls.reads pet.photo_urls,
  pet_label pet.status,
)

-- What is read of a stored order has its date as the column keeps it.
pub order_of_row-stored_order :
    (c : Chrono) (d : Dialect c.NaiveDateTime) (id : ℤ) (order : Order c.DateTime)
    → order_of_row c (stored_order d (order_values c id order)) ≡ record order {
      id = some id;
      ship_date = map_option (λ t. c.from_naive_utc (d.timestamp (c.naive_utc t))) order.ship_date;
    }
unfolding order_values order_of_row
order_of_row-stored_order c d id order = ground (arith, order_label order.status)

-- The row that an order is stored in reads back as that order under its id, where the column keeps
-- the date of the order as it is (a date without a part below microseconds).
pub order_of_row-order_values :
    (c : Chrono) (d : Dialect c.NaiveDateTime) (id : ℤ) (order : Order c.DateTime)
    → ((t : c.DateTime) → order.ship_date ≡ some t → d.timestamp (c.naive_utc t) ≡ c.naive_utc t)
    → order_of_row c (stored_order d (order_values c id order)) ≡ record order { id = some id }
order_of_row-order_values c d id order h =
    order_of_row-stored_order c d id order ∙ elim (Option-cases order.ship_date) [
      | inl e ↦ rw e refl
      | inr (t, e) ↦ rw (e, h t e, c.from-naive_utc t) refl
    ]

-- The row that a user with a name is stored in reads back as that user under the stored id.
pub user_of_row-user_values :
    (username : String) (id : Option ℤ) (user : User)
    → user.username ≡ some username
    → user_of_row (record { username = username; columns = user_values id user })
      ≡ record user { id = id }
unfolding user_values user_of_row
user_of_row-user_values username id user h = ground arith

pub id-pet_values :
    (json : Json) (id : ℤ) (pet : Pet) (urls : String) → (pet_values json id pet urls).id ≡ id
unfolding pet_values
id-pet_values json id pet urls = refl

pub id-order_values :
    (c : Chrono) (id : ℤ) (order : Order c.DateTime) → (order_values c id order).id ≡ id
unfolding order_values
id-order_values c id order = refl
