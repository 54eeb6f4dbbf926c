-- ===== src/Models.antt =====
-- The API's data: petshop-stacks/rust/actix/src/models.rs. `i64` and `i32` are integers that the
-- program stores and prints only; `chrono::DateTime<Utc>` is a type parameter. The derived
-- `Serialize` and `Deserialize` are the codecs of `Serde`.
pub mod Labels
use speed_test.Base.{
  String, ◌++◌, Option, Bool, List, ℤ, Result, ok, err, same, string_key, if◌then◌else◌,
}

pub record Category : Type 0 where
  pub id : Option ℤ
  pub name : Option String

pub record Tag : Type 0 where
  pub id : Option ℤ
  pub name : Option String

pub data PetStatus : Type 0 where
  available pending sold : PetStatus

pub data OrderStatus : Type 0 where
  placed approved delivered : OrderStatus

pub record Pet : Type 0 where
  pub id : Option ℤ
  pub name : String
  pub category : Option Category
  pub photo_urls : List String
  pub tags : Option (List Tag)
  pub status : Option PetStatus

pub record Order (DateTime : Type 0) : Type 0 where
  pub id : Option ℤ
  pub pet_id : Option ℤ
  pub quantity : Option ℤ
  pub ship_date : Option DateTime
  pub status : Option OrderStatus
  pub complete : Option Bool

pub record User : Type 0 where
  pub id : Option ℤ
  pub username : Option String
  pub first_name : Option String
  pub last_name : Option String
  pub email : Option String
  pub password : Option String
  pub phone : Option String
  pub user_status : Option ℤ

-- `type` is the source's `r#type`.
pub record ApiResponse : Type 0 where
  pub code : Option ℤ
  pub type : Option String
  pub message : Option String

-- `Display` of `PetStatus`
unfoldable pub pet_status_to_string : PetStatus → String
pet_status_to_string PetStatus.available = "available"
pet_status_to_string PetStatus.pending = "pending"
pet_status_to_string PetStatus.sold = "sold"

-- `FromStr` of `PetStatus`
unfoldable pub parse_pet_status : String → Result String PetStatus
parse_pet_status s =
    if same s "available"
    then ok PetStatus.available
    else if same s "pending"
    then ok PetStatus.pending
    else if same s "sold"
    then ok PetStatus.sold
    else err ("Unknown pet status: " ++ s)

-- `Display` of `OrderStatus`
unfoldable pub order_status_to_string : OrderStatus → String
order_status_to_string OrderStatus.placed = "placed"
order_status_to_string OrderStatus.approved = "approved"
order_status_to_string OrderStatus.delivered = "delivered"

-- `FromStr` of `OrderStatus`
unfoldable pub parse_order_status : String → Result String OrderStatus
parse_order_status s =
    if same s "placed"
    then ok OrderStatus.placed
    else if same s "approved"
    then ok OrderStatus.approved
    else if same s "delivered"
    then ok OrderStatus.delivered
    else err ("Unknown order status: " ++ s)
