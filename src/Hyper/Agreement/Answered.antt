-- ===== src/Hyper/Agreement/Answered.antt =====
-- Every request to the Actix server is answered, whatever the database does.
use speed_test.Base.{
  ℕ, Option, none, some, Bool, true, false, ◌||◌, ◌==◌, List, [], ◌∷◌, ok, err, Result,
}
use speed_test.Models.{Pet, User}
use speed_test.Serde.{Json, Chrono}
use speed_test.Sql.Postgres.{Postgres}
use speed_test.Actix.Response.{HttpResponse, response, panicked}
use speed_test.Actix.Pet
use speed_test.Actix.Store
use speed_test.Actix.User
use speed_test.Hyper.Agreement.Runs.{Request}

-- The statuses that the handlers write for each request.
abbrev pub statuses : {D : Type 0} → Request D → List ℕ
statuses (Request.add_pet pet) = 200 ∷ 400 ∷ 500 ∷ []
statuses (Request.find_pets_by_status status) = 200 ∷ 500 ∷ []
statuses (Request.find_pets_by_tags tags) = 200 ∷ 500 ∷ []
statuses (Request.update_pet pet) = 200 ∷ 400 ∷ 404 ∷ 500 ∷ []
statuses (Request.delete_pet id api_key) = 200 ∷ 500 ∷ []
statuses (Request.get_pet_by_id id) = 200 ∷ 404 ∷ 500 ∷ []
statuses (Request.update_pet_with_form id name status) = 200 ∷ 400 ∷ 500 ∷ []
statuses (Request.upload_file id metadata body) = 200 ∷ 404 ∷ 500 ∷ []
statuses Request.get_inventory = 200 ∷ 500 ∷ []
statuses (Request.place_order order) = 200 ∷ 500 ∷ []
statuses (Request.delete_order id) = 200 ∷ 404 ∷ 500 ∷ []
statuses (Request.get_order_by_id id) = 200 ∷ 404 ∷ 500 ∷ []
statuses (Request.create_user user) = 200 ∷ 500 ∷ []
statuses (Request.create_users_with_list_input users) = 200 ∷ 400 ∷ 500 ∷ []
statuses (Request.login_user expires username password) = 200 ∷ 400 ∷ 401 ∷ 500 ∷ []
statuses (Request.delete_user username) = 200 ∷ 404 ∷ 500 ∷ []
statuses (Request.get_user_by_name username) = 200 ∷ 404 ∷ 500 ∷ []
statuses (Request.update_user username user) = 200 ∷ 404 ∷ 500 ∷ []

abbrev pub is_answer : {D : Type 0} → List ℕ → HttpResponse D → Bool
is_answer [] r = false
is_answer (n ∷ ns) panicked = false
is_answer (n ∷ ns) (response status body) = status == n || is_answer ns (response status body)

module _ (json : Json) (c : Chrono) (pg : Postgres c.NaiveDateTime) where
  open pg use {State}

  -- The end of the loop: a user was stored, or the answer is 500.
  abbrev has_user : Result (HttpResponse c.DateTime) (Option User) → Bool
  has_user (ok none) = false
  has_user (ok (some u)) = true
  has_user (err answer) = is_answer (500 ∷ []) answer
