-- ===== src/Tests/Wire.antt =====
-- The libraries of the Hyper server and client, for the tests: texts written in the way of `Serial`,
-- encodings that leave texts alone, and a reader of JSON that refuses XML.
use speed_test.Base.{
  ℕ, zero, suc, String, ◌++◌, ◌≡◌, refl, Option, none, some, Bool, true, false, [], arith, Result,
  ok, err, show_nat,
}
use speed_test.Models.{Pet, PetStatus, Order, OrderStatus, User, ApiResponse}
use speed_test.Hyper.Responses.{Error}
use speed_test.Hyper.Http.{Uri, Body, Wire}
use speed_test.Hyper.Parse.{strip_prefix}
use speed_test.Hyper.Paths.Addresses.{strip_prefix-++}
use speed_test.Hyper.Client.Connected.{Urls}
use speed_test.Tests.Bytes.{as_bytes, from_utf8, from_utf8-as_bytes}
use speed_test.Tests.Serial.{
  Coder, codec, nat_coder, int_coder, text_coder, pair_coder, option_coder, list_coder,
  category_coder, tag_coder,
}

module _ {A B : Type 0} (a : Coder A) (b : Coder B) where
  abbrev pub both : Coder (A × B)
  both = pair_coder a b (λ x y. (x, y)) (λ p. p.0) (λ p. p.1) (λ p. refl)

module _ {A B : Type 0} (a : Coder A) (to : A → B) (from : B → A)
    (whole : (x : B) → to (from x) ≡ x) where
  abbrev pub renamed_take : Option (A × String) → Option (B × String)
  renamed_take none = none
  renamed_take (some (x, s)) = some (to x, s)

  pub renamed_take-put :
      (x : B) (rest : String) → renamed_take (a.take (a.put (from x) rest)) ≡ some (x, rest)
  renamed_take-put x rest = ground (arith, a.take-put (from x) rest, whole x)

  abbrev pub renamed : Coder B
  renamed = record {
    put = λ x rest. a.put (from x) rest;
    take = λ s. renamed_take (a.take s);
    take-put = renamed_take-put;
  }

abbrev pub pet_status_number : PetStatus → ℕ
pet_status_number PetStatus.available = 0
pet_status_number PetStatus.pending = 1
pet_status_number PetStatus.sold = 2

abbrev pub pet_status_of : ℕ → PetStatus
pet_status_of zero = PetStatus.available
pet_status_of (suc zero) = PetStatus.pending
pet_status_of (suc (suc n)) = PetStatus.sold

pub pet_status_of-number : (x : PetStatus) → pet_status_of (pet_status_number x) ≡ x
pet_status_of-number PetStatus.available = refl
pet_status_of-number PetStatus.pending = refl
pet_status_of-number PetStatus.sold = refl

abbrev pub pet_status_coder : Coder PetStatus
pet_status_coder = renamed nat_coder pet_status_of pet_status_number pet_status_of-number

abbrev pub order_status_number : OrderStatus → ℕ
order_status_number OrderStatus.placed = 0
order_status_number OrderStatus.approved = 1
order_status_number OrderStatus.delivered = 2

abbrev pub order_status_of : ℕ → OrderStatus
order_status_of zero = OrderStatus.placed
order_status_of (suc zero) = OrderStatus.approved
order_status_of (suc (suc n)) = OrderStatus.delivered

pub order_status_of-number : (x : OrderStatus) → order_status_of (order_status_number x) ≡ x
order_status_of-number OrderStatus.placed = refl
order_status_of-number OrderStatus.approved = refl
order_status_of-number OrderStatus.delivered = refl

abbrev pub order_status_coder : Coder OrderStatus
order_status_coder = renamed nat_coder order_status_of order_status_number order_status_of-number

abbrev pub truth_number : Bool → ℕ
truth_number false = 0
truth_number true = 1

abbrev pub truth_of : ℕ → Bool
truth_of zero = false
truth_of (suc n) = true

pub truth_of-number : (x : Bool) → truth_of (truth_number x) ≡ x
truth_of-number false = refl
truth_of-number true = refl

abbrev pub truth_coder : Coder Bool
truth_coder = renamed nat_coder truth_of truth_number truth_of-number

abbrev pub pet_coder : Coder Pet
pet_coder =
    pair_coder (both (option_coder int_coder) (both text_coder (option_coder category_coder)))
      (both (list_coder text_coder)
        (both (option_coder (list_coder tag_coder)) (option_coder pet_status_coder)))
      (λ p q. record {
        id = p.0;
        name = p.1.0;
        category = p.1.1;
        photo_urls = q.0;
        tags = q.1.0;
        status = q.1.1;
      })
      (λ x. (x.id, (x.name, x.category))) (λ x. (x.photo_urls, (x.tags, x.status))) (λ x. refl)

abbrev pub order_coder : Coder (Order ℕ)
order_coder =
    pair_coder
      (both (option_coder int_coder) (both (option_coder int_coder) (option_coder int_coder)))
      (both (option_coder nat_coder)
        (both (option_coder order_status_coder) (option_coder truth_coder)))
      (λ p q. record {
        id = p.0;
        pet_id = p.1.0;
        quantity = p.1.1;
        ship_date = q.0;
        status = q.1.0;
        complete = q.1.1;
      })
      (λ x. (x.id, (x.pet_id, x.quantity))) (λ x. (x.ship_date, (x.status, x.complete))) (λ x. refl)

abbrev pub user_coder : Coder User
user_coder =
    pair_coder
      (both (option_coder int_coder)
        (both (option_coder text_coder) (both (option_coder text_coder) (option_coder text_coder))))
      (both (option_coder text_coder)
        (both (option_coder text_coder) (both (option_coder text_coder) (option_coder int_coder))))
      (λ p q. record {
        id = p.0;
        username = p.1.0;
        first_name = p.1.1.0;
        last_name = p.1.1.1;
        email = q.0;
        password = q.1.0;
        phone = q.1.1.0;
        user_status = q.1.1.1;
      })
      (λ x. (x.id, (x.username, (x.first_name, x.last_name))))
      (λ x. (x.email, (x.password, (x.phone, x.user_status)))) (λ x. refl)

abbrev pub api_response_coder : Coder ApiResponse
api_response_coder =
    pair_coder (option_coder int_coder) (both (option_coder text_coder) (option_coder text_coder))
      (λ p q. record { code = p; type = q.0; message = q.1 }) (λ x. x.code)
      (λ x. (x.type, x.message)) (λ x. refl)

abbrev pub error_coder : Coder Error
error_coder =
    pair_coder text_coder text_coder (λ p q. record { code = p; message = q }) (λ x. x.code)
      (λ x. x.message) (λ x. refl)

-- XML is refused as JSON, and nothing else is sent.
abbrev pub no_json : {A : Type 0} → Body A
no_json = record {
  from_json = λ bytes. (err "expected value at line 1 column 1", []);
  from_xml = λ bytes. ok none;
  as_xml = λ a. ok "<xml/>";
}

-- The path behind the host.
unfoldable pub uri_of : String → Result String Uri
unfolding strip_prefix
uri_of s = elim (strip_prefix "http://localhost" s) [
  | none ↦ err "invalid uri"
  | some path ↦ ok (record { path = path; query = none })
]

uri_of-path :
    (path : String)
    → uri_of ("http://localhost" ++ path) ≡ ok (record { path = path; query = none })
unfolding uri_of
uri_of-path path = rw (uri_of, strip_prefix-++ "http://localhost" path) refl

abbrev pub wire : Wire ℕ
wire = record {
  pet = codec pet_coder;
  pets = codec (list_coder pet_coder);
  api_response = codec api_response_coder;
  inventory = codec (list_coder (both text_coder int_coder));
  order = codec order_coder;
  user = codec user_coder;
  users = codec (list_coder user_coder);
  error = codec error_coder;
  pet_body = no_json;
  order_body = no_json;
  user_body = no_json;
  users_body = no_json;
  xml_text = λ s. err "no markup";
  as_bytes = as_bytes;
  from_utf8 = from_utf8;
  from_utf8-as_bytes = from_utf8-as_bytes;
  utf8_error = λ bytes. "invalid utf-8 sequence";
  percent_decode = λ s. some s;
  percent_encode = λ s. s;
  form_parse = λ s. [];
  form_serialize = λ pairs. "";
  header_value = λ s. ok s;
  to_str = λ v. ok v;
  debug_value = λ v. v;
  debug_headers = λ headers. "{}";
  debug_list = λ names. "[]";
  debug_text = λ s. s;
  debug_date = λ t. show_nat t;
  to_rfc3339 = show_nat;
  parse_rfc3339 = λ s. err "premature end of input";
  parse_uri = uri_of;
  build = λ method uri. ok tt;
  bearer = λ token. ok ("Bearer " ++ token);
}

pub urls : (path : String) → Urls wire "http://localhost" path
urls path = record {
  percent_encode-plain = λ s p. refl;
  percent_decode-plain = λ s p. refl;
  form_serialize-[] = refl;
  parse_uri-path = uri_of-path path;
  build-ok = λ method. refl;
}
