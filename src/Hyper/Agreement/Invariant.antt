-- ===== src/Hyper/Agreement/Invariant.antt =====
-- Every handler keeps the rows of the pets written for pets.
pub mod Pets
pub mod Others
use speed_test.Base.{
  ℕ, ◌++◌, String, ◌≡◌, refl, ap, arith, map_error, and_then, ok?, Exec, pure, guard_not, ◌==◌,
  ◌>>=◌, ◌>>◌, Option, none, some, ℤ, ok, err, Result,
}
use speed_test.Models.{Pet, PetStatus, Order, User, pet_status_to_string, parse_pet_status}
use speed_test.Rows.{pet_values}
use speed_test.Sql.Schema.{insert_pet}
use speed_test.Sql.Postgres.{Postgres}
use speed_test.Actix.Response.{
  Body, HttpResponse, bad_request, not_found, internal_error, ok_json, query,
}
use speed_test.Actix.Pet
use speed_test.Actix.Pet.{UpdatePetForm}
use speed_test.Actix.User.{LoginQuery}
use speed_test.Actix.Store
use speed_test.Actix.User
use speed_test.Hyper.Agreement.Written.{
  Keeps, lift-bind-Keeps, assign_id-Keeps, bind-Keeps, respond-Keeps, pure-Keeps, lift-Keeps,
  guard_not-Keeps, query-bind-Keeps,
}
