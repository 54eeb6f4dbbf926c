-- ===== src/Tests/Inputs.antt =====
-- Models and states of the database in memory, for the tests.
use speed_test.Base.{ℕ, none, some, true, [], ◌∷◌, pos}
use speed_test.Models.{Pet, PetStatus, Order, OrderStatus, User}
use speed_test.Actix.Pet.{add_pet}
use speed_test.Actix.Store.{place_order}
use speed_test.Actix.User.{create_user}
use speed_test.Tests.Serial.{json, chrono}
use speed_test.Tests.Memory.{Db, memory, fresh}

abbrev pub rex : Pet
rex = record {
  id = none;
  name = "Rex";
  category = some (record { id = some (pos 3); name = some "dogs" });
  photo_urls = "rex.png" ∷ [];
  tags = some (record { id = none; name = some "good" } ∷ []);
  status = some PetStatus.available;
}

-- The pet that the first request without an id stored, sold.
abbrev pub rex_sold : Pet
rex_sold = record rex { id = some (pos 1); status = some PetStatus.sold }

abbrev pub filled : Db
filled = (add_pet json chrono memory rex fresh).1

abbrev pub an_order : Order ℕ
an_order = record {
  id = some (pos 5);
  pet_id = some (pos 1);
  quantity = some (pos 2);
  ship_date = some 1234567;
  status = some OrderStatus.placed;
  complete = some true;
}

abbrev pub ordered : Db
ordered = (place_order chrono memory an_order filled).1

abbrev pub ann : User
ann = record {
  id = none;
  username = some "ann";
  first_name = some "Ann";
  last_name = none;
  email = none;
  password = some "secret";
  phone = none;
  user_status = some (pos 1);
}

abbrev pub bob : User
bob = record ann { username = some "bob"; password = none }

abbrev pub anonymous : User
anonymous = record ann { username = none }

abbrev pub registered : Db
registered = (create_user chrono memory ann fresh).1
