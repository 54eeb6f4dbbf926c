-- ===== src/Views.antt =====
-- The store as the clients of either server see it: pets and orders by id, users by name. What the
-- tables keep beside that, such as the order of the rows and the text of the JSON columns, is
-- forgotten.
pub mod Pets
pub mod Catalog
pub mod Orders
pub mod Users
use speed_test.Base.{String, Option, ℤ, map_option, int_key, string_key}
use speed_test.Models.{Pet, Order, User}
use speed_test.Serde.{Json, Chrono}
use speed_test.Sql.Table.{find}
use speed_test.Sql.Schema.{PetRow, OrderRow, UserRow, Tables}
use speed_test.Rows.{pet_of_row, order_of_row, user_of_row}

abbrev pub pet_view : {N : Type 0} → Json → Tables N → ℤ → Option Pet
pet_view json t id = map_option (pet_of_row json) (find PetRow.id id t.pets)

abbrev pub order_view : (c : Chrono) → Tables c.NaiveDateTime → ℤ → Option (Order c.DateTime)
order_view c t id = map_option (order_of_row c) (find OrderRow.id id t.orders)

abbrev pub user_view : {N : Type 0} → Tables N → String → Option User
user_view t username = map_option user_of_row (find UserRow.username username t.users)
