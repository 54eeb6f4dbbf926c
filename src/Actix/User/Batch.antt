-- ===== src/Actix/User/Batch.antt =====
-- `create_users_with_list_input`: the users are stored one by one, each as its own statement, up to
-- the first that fails.
use mathlib.Core.Path.{fun_ext}
use mathlib.Core.List.{◌++◌}
use speed_test.Base.{
  String, Option, none, some, List, [], ◌∷◌, false, Bool, ◌≡◌, ◌≢◌, ap, refl, ◌⊎◌, inl, inr, arith,
  same, string_key, if◌then◌else◌, ok, err, Result,
}
use speed_test.Models.{User}
use speed_test.Serde.{Chrono}
use speed_test.Sql.Schema.{insert_user}
use speed_test.Sql.Postgres.{Postgres}
use speed_test.Rows.{user_values}
use speed_test.Views.{user_view}
use speed_test.Views.Users.{insert_user-UserStored}
use speed_test.Actix.Response.{Body, HttpResponse, ok_json, bad_request, internal_error, query}
use speed_test.Actix.Response.Cases.{query-cases}
use speed_test.Actix.User.{insert_users, create_users_with_list_input}

-- The store after users were written over it in turn.
abbrev pub is_named : User → String → Bool
is_named u k = elim u.username [ none ↦ false | some username ↦ same username k ]

abbrev pub store_one : User → (String → Option User) → String → Option User
store_one u view k = if is_named u k then some u else view k

abbrev pub store_all : List User → (String → Option User) → String → Option User
store_all [] view = view
store_all (u ∷ users) view = store_all users (store_one u view)

abbrev pub last_of : Option User → List User → Option User
last_of last [] = last
last_of last (u ∷ users) = last_of (some u) users

last_of-some : (u : User) (users : List User) → (v : User) × (last_of (some u) users ≡ some v)
last_of-some u [] = (u, refl)
last_of-some u (v ∷ users) = last_of-some v users

module _ (c : Chrono) (pg : Postgres c.NaiveDateTime) where
  open pg use {State, tables, dialect}

  -- Up to where a loop came: through all the users, or to one whose statement failed.
  abbrev pub Stopped : List User → State → HttpResponse c.DateTime → State → Type 0
  Stopped users s r s' =
      (done rest : List User) × (users ≡ done ++ rest)
      × (rest ≢ [])
      × (m : String) × (r ≡ internal_error m)
      × (user_view (tables s') ≡ store_all done (user_view (tables s)))

  insert_one :
      (u : User) (s s' : State)
      → (username : String) × (u.username ≡ some username)
        × ((k : String)
            → user_view (tables s') k
              ≡ (if same username k then some u else user_view (tables s) k))
      → user_view (tables s') ≡ store_one u (user_view (tables s))
  insert_one u s s' (username, given, stored) = fun_ext λ k. ground (arith, stored k)

  abbrev Looped :
      Option User
      → List User
      → State
      → Result (HttpResponse c.DateTime) (Option User) × State
      → Type 0
  Looped last users s (r, s') =
      ((r ≡ ok (last_of last users))
        × (user_view (tables s') ≡ store_all users (user_view (tables s))))
      ⊎ ((e : HttpResponse c.DateTime) × (r ≡ err e) × Stopped users s e s')

  -- A loop that goes on after a stored user.
  Looped-cons :
      (last : Option User) (u : User) (users : List User) (s s₁ : State)
      (p : Result (HttpResponse c.DateTime) (Option User) × State)
      → user_view (tables s₁) ≡ store_one u (user_view (tables s))
      → Looped (some u) users s₁ p
      → Looped last (u ∷ users) s p
  Looped-cons last u users s s₁ p moved (inl (e, stored)) = inl (e, rw (← moved) stored)
  Looped-cons last u users s s₁ p moved (inr (x, e, (done, rest, parts, more, m, failed, stored))) =
      inr (
        x,
        e,
        (u ∷ done, rest, ap (λ (l : List User). u ∷ l) parts, more, m, failed, rw (← moved) stored),
      )

  insert_users-Looped :
      (last : Option User) (users : List User) (s : State)
      → Looped last users s (insert_users c pg last users s)
  insert_users-Looped last [] s = unfold insert_users in inl (refl, refl)
  insert_users-Looped last (u ∷ users) s =
      let q = insert_user u.username (user_values u.id u) in
      let s₁ = (query pg {D = c.DateTime} "DB error creating user in list: " q s).1 in
      elim (query-cases pg {D = c.DateTime} "DB error creating user in list: " q s) [
        | inl (n, e, b, meant, answer) ↦
            let step : insert_users c pg last (u ∷ users) s ≡ insert_users c pg (some u) users s₁ =
              unfold insert_users in ground arith in
            let moved =
              insert_one u s s₁
                (insert_user-UserStored dialect u.id u (tables s) (tables s₁) b meant) in
            rw step (
              Looped-cons last u users s s₁ (insert_users c pg (some u) users s₁) moved
                (insert_users-Looped (some u) users s₁))
        | inr (m, e, same_tables) ↦
            let step : insert_users c pg last (u ∷ users) s ≡ (err (internal_error m), s₁) =
              unfold insert_users in ground arith in
            rw step (
              inr (
                internal_error m,
                refl,
                ([], u ∷ users, refl, (λ h. cc h), m, refl, ap user_view same_tables),
              ))
      ]

  -- No users are answered with 400 and nothing happens. Otherwise the users before the first whose
  -- statement fails are stored, each over those before it, and the answer is 500, or all are
  -- stored and the answer is the last of them.
  pub create_users_with_list_input-refines :
      (users : List User) (s : State)
      → let (r, s') = create_users_with_list_input c pg users s in
        ((users ≡ []) × (r ≡ bad_request "No users provided") × (s' ≡ s))
        ⊎ Stopped users s r s'
        ⊎ ((u : User) × (last_of none users ≡ some u)
            × (r ≡ ok_json (Body.user u))
            × (user_view (tables s') ≡ store_all users (user_view (tables s))))
  create_users_with_list_input-refines [] s =
      unfold create_users_with_list_input in inl (refl, refl, refl)
  create_users_with_list_input-refines (u ∷ users) s =
      let s₁ = (insert_users c pg none (u ∷ users) s).1 in
      elim (insert_users-Looped none (u ∷ users) s) [
        | inl (e, stored) ↦
            let (v, last) = last_of-some u users in
            let run : create_users_with_list_input c pg (u ∷ users) s
                ≡ (ok_json (Body.user v), s₁) =
              unfold create_users_with_list_input in ground (arith, last) in
            rw run (inr (inr (v, last, refl, stored)))
        | inr (x, e, stopped) ↦
            let run : create_users_with_list_input c pg (u ∷ users) s ≡ (x, s₁) =
              unfold create_users_with_list_input in ground arith in
            rw run (inr (inl stopped))
      ]
