-- ===== src/Sql/Schema.antt =====
-- The columns of the four tables (database/postgresql_schema.sql) as the statements bind and read
-- them, and the statements that the handlers of petshop-stacks/rust/actix/src/handlers send; those
-- of petshop-stacks/rust/hyper/examples/server/server.rs are the same texts. The columns that the
-- database fills and no statement reads, `pet_photo.id` and `pet_photo.created_at`, are left out.
use speed_test.Base.{ℕ, String, Option, Bool, List, ℤ}

-- `status` is an enum column, bound and read as text; `photo_urls` and `tags` are JSON columns,
-- which keep their text.
pub record PetRow : Type 0 where
  pub id : ℤ
  pub name : String
  pub category : Option String
  pub photo_urls : String
  pub tags : Option String
  pub status : Option String

pub record PhotoRow : Type 0 where
  pub pet_id : ℤ
  pub content_type : String
  pub metadata : Option String
  pub content : List ℕ

pub record OrderRow (NaiveDateTime : Type 0) : Type 0 where
  pub id : ℤ
  pub pet_id : Option ℤ
  pub quantity : Option ℤ
  pub ship_date : Option NaiveDateTime
  pub status : Option String
  pub complete : Option Bool

-- The columns of "user" beside its key.
pub record UserColumns : Type 0 where
  pub id : Option ℤ
  pub first_name : Option String
  pub last_name : Option String
  pub email : Option String
  pub password : Option String
  pub phone : Option String
  pub user_status : Option ℤ

pub record UserRow : Type 0 where
  pub username : String
  pub columns : UserColumns

pub record Tables (NaiveDateTime : Type 0) : Type 0 where
  pub pets : List PetRow
  pub photos : List PhotoRow
  pub orders : List (OrderRow NaiveDateTime)
  pub users : List UserRow

-- Each SQL text with its bound values, in the order of the handlers.
pub data Statement (NaiveDateTime : Type 0) : Type 0 where
  insert_pet : PetRow → Statement NaiveDateTime
  pets_by_status : String → Statement NaiveDateTime
  pets_by_tags : List String → Statement NaiveDateTime
  update_pet : PetRow → Statement NaiveDateTime
  delete_pet : ℤ → Statement NaiveDateTime
  pet_by_id : ℤ → Statement NaiveDateTime
  update_pet_form : ℤ → Option String → Option String → Statement NaiveDateTime
  pet_exists : ℤ → Statement NaiveDateTime
  insert_photo : PhotoRow → Statement NaiveDateTime
  count_by_status : Statement NaiveDateTime
  insert_order : OrderRow NaiveDateTime → Statement NaiveDateTime
  delete_order : ℤ → Statement NaiveDateTime
  order_by_id : ℤ → Statement NaiveDateTime
  insert_user : Option String → UserColumns → Statement NaiveDateTime
  password_of : String → Statement NaiveDateTime
  delete_user : String → Statement NaiveDateTime
  user_by_username : String → Statement NaiveDateTime
  update_user : String → UserColumns → Statement NaiveDateTime

-- What the driver hands back: the rows of a SELECT, or `rows_affected`.
abbrev pub Answer : {N : Type 0} → Statement N → Type 0
Answer {N} (insert_pet r) = ℕ
Answer {N} (pets_by_status label) = List PetRow
Answer {N} (pets_by_tags names) = List PetRow
Answer {N} (update_pet r) = ℕ
Answer {N} (delete_pet id) = ℕ
Answer {N} (pet_by_id id) = Option PetRow
Answer {N} (update_pet_form id name status) = ℕ
Answer {N} (pet_exists id) = Bool
Answer {N} (insert_photo r) = ℕ
Answer {N} count_by_status = List (String × ℕ)
Answer {N} (insert_order r) = ℕ
Answer {N} (delete_order id) = ℕ
Answer {N} (order_by_id id) = Option (OrderRow N)
Answer {N} (insert_user username columns) = ℕ
Answer {N} (password_of username) = Option (Option String)
Answer {N} (delete_user username) = ℕ
Answer {N} (user_by_username username) = Option UserRow
Answer {N} (update_user username columns) = ℕ
