-- ===== src/Hyper/Agreement/Invariant/Others.antt =====
-- The handlers of orders and users keep the rows of the pets written for pets.
use speed_test.Base.{String, Option, none, some, List, [], ◌∷◌, ℤ}
use speed_test.Models.{Order, User}
use speed_test.Serde.{Json, Chrono}
use speed_test.Sql.Postgres.{Postgres}
use speed_test.Actix.Response.{HttpResponse}
use speed_test.Actix.User.{LoginQuery}
use speed_test.Actix.Store
use speed_test.Actix.User
use speed_test.Hyper.Agreement.Written.{
  AreWritten, Keeps, assign_id-Keeps, bind-Keeps, respond-Keeps, pure-Keeps, lift-Keeps,
  guard_not-Keeps, query-bind-Keeps,
}

module _ (json : Json) (c : Chrono) (pg : Postgres c.NaiveDateTime) where
  open pg use {State, tables}

  pub get_inventory-AreWritten :
      (s : State)
      → AreWritten json (tables s).pets
      → AreWritten json (tables (Store.get_inventory c pg s).1).pets
  unfolding Store.get_inventory
  get_inventory-AreWritten s h =
      respond-Keeps json c pg {R = HttpResponse c.DateTime} _ s
        (query-bind-Keeps json c pg {D = c.DateTime} _ _ _ tt λ x. pure-Keeps json c pg _ _) h

  pub place_order-AreWritten :
      (order : Order c.DateTime) (s : State)
      → AreWritten json (tables s).pets
      → AreWritten json (tables (Store.place_order c pg order s).1).pets
  unfolding Store.place_order
  place_order-AreWritten order s h =
      respond-Keeps json c pg {R = HttpResponse c.DateTime} _ s
        (bind-Keeps json c pg _ _ (assign_id-Keeps json c pg c.DateTime order.id "order_id_seq")
          λ id. query-bind-Keeps json c pg {D = c.DateTime} _ _ _ tt λ x. pure-Keeps json c pg _ _)
        h

  pub delete_order-AreWritten :
      (id : ℤ) (s : State)
      → AreWritten json (tables s).pets
      → AreWritten json (tables (Store.delete_order c pg id s).1).pets
  unfolding Store.delete_order
  delete_order-AreWritten id s h =
      respond-Keeps json c pg {R = HttpResponse c.DateTime} _ s
        (query-bind-Keeps json c pg {D = c.DateTime} _ _ _ tt λ x.
          bind-Keeps json c pg _ _ (guard_not-Keeps json c pg _ _) λ y. pure-Keeps json c pg _ _)
        h

  pub get_order_by_id-AreWritten :
      (id : ℤ) (s : State)
      → AreWritten json (tables s).pets
      → AreWritten json (tables (Store.get_order_by_id c pg id s).1).pets
  unfolding Store.get_order_by_id
  get_order_by_id-AreWritten id s h =
      respond-Keeps json c pg {R = HttpResponse c.DateTime} _ s
        (query-bind-Keeps json c pg {D = c.DateTime} _ _ _ tt λ x. pure-Keeps json c pg _ _) h

  pub create_user-AreWritten :
      (user : User) (s : State)
      → AreWritten json (tables s).pets
      → AreWritten json (tables (User.create_user c pg user s).1).pets
  unfolding User.create_user
  create_user-AreWritten user s h =
      respond-Keeps json c pg {R = HttpResponse c.DateTime} _ s
        (bind-Keeps json c pg _ _ (assign_id-Keeps json c pg c.DateTime user.id "user_id_seq")
          λ id. query-bind-Keeps json c pg {D = c.DateTime} _ _ _ tt λ x. pure-Keeps json c pg _ _)
        h

  insert_users-Keeps :
      (last_user : Option User) (users : List User)
      → Keeps json c pg (User.insert_users c pg last_user users)
  unfolding User.insert_users
  insert_users-Keeps last_user [] = pure-Keeps json c pg _ _
  insert_users-Keeps last_user (u ∷ users) =
      query-bind-Keeps json c pg {D = c.DateTime} _ _ _ tt λ n. insert_users-Keeps (some u) users

  pub create_users_with_list_input-AreWritten :
      (users : List User) (s : State)
      → AreWritten json (tables s).pets
      → AreWritten json (tables (User.create_users_with_list_input c pg users s).1).pets
  unfolding User.create_users_with_list_input
  create_users_with_list_input-AreWritten users s h =
      respond-Keeps json c pg {R = HttpResponse c.DateTime} _ s
        (bind-Keeps json c pg _ _ (guard_not-Keeps json c pg _ _) λ y.
          bind-Keeps json c pg _ _ (insert_users-Keeps none users) λ o. pure-Keeps json c pg _ _)
        h

  pub login_user-AreWritten :
      (login : LoginQuery) (s : State)
      → AreWritten json (tables s).pets
      → AreWritten json (tables (User.login_user c pg login s).1).pets
  unfolding User.login_user
  login_user-AreWritten login s h =
      respond-Keeps json c pg {R = HttpResponse c.DateTime} _ s
        (bind-Keeps json c pg _ _ (lift-Keeps json c pg _) λ z.
          query-bind-Keeps json c pg {D = c.DateTime} _ _ _ tt λ x.
            bind-Keeps json c pg _ _ (guard_not-Keeps json c pg _ _) λ y. pure-Keeps json c pg _ _)
        h

  pub delete_user-AreWritten :
      (username : String) (s : State)
      → AreWritten json (tables s).pets
      → AreWritten json (tables (User.delete_user c pg username s).1).pets
  unfolding User.delete_user
  delete_user-AreWritten username s h =
      respond-Keeps json c pg {R = HttpResponse c.DateTime} _ s
        (query-bind-Keeps json c pg {D = c.DateTime} _ _ _ tt λ x.
          bind-Keeps json c pg _ _ (guard_not-Keeps json c pg _ _) λ y. pure-Keeps json c pg _ _)
        h

  pub get_user_by_name-AreWritten :
      (username : String) (s : State)
      → AreWritten json (tables s).pets
      → AreWritten json (tables (User.get_user_by_name c pg username s).1).pets
  unfolding User.get_user_by_name
  get_user_by_name-AreWritten username s h =
      respond-Keeps json c pg {R = HttpResponse c.DateTime} _ s
        (query-bind-Keeps json c pg {D = c.DateTime} _ _ _ tt λ x. pure-Keeps json c pg _ _) h

  pub update_user-AreWritten :
      (username : String) (user : User) (s : State)
      → AreWritten json (tables s).pets
      → AreWritten json (tables (User.update_user c pg username user s).1).pets
  unfolding User.update_user
  update_user-AreWritten username user s h =
      respond-Keeps json c pg {R = HttpResponse c.DateTime} _ s
        (query-bind-Keeps json c pg {D = c.DateTime} _ _ _ tt λ x.
          bind-Keeps json c pg _ _ (guard_not-Keeps json c pg _ _) λ y. pure-Keeps json c pg _ _)
        h
