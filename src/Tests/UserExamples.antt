-- ===== src/Tests/UserExamples.antt =====
-- The theorems on users at concrete inputs, on the database in memory.
use speed_test.Base.{String, ◌++◌, none, some, true, false, [], ◌∷◌, ℤ, ◌≡◌, ◌≢◌, ◌⊎◌, unwrap_or}
use speed_test.Models.{User}
use speed_test.Views.{user_view}
use speed_test.Views.Users.{UserStored, UserGone}
use speed_test.Actix.Response.{
  Body, response, ok_json, finish, bad_request, unauthorized, not_found, internal_error,
}
use speed_test.Actix.Response.Cases.{Assigned}
use speed_test.Actix.User.{
  LoginQuery, create_user, create_users_with_list_input, login_user, delete_user, get_user_by_name,
  update_user,
}
use speed_test.Actix.User.Accounts.{
  shown, create_user-refines, delete_user-refines, update_user-refines, get_user_by_name-refines,
}
use speed_test.Actix.User.Batch.{Stopped, last_of, store_all, create_users_with_list_input-refines}
use speed_test.Actix.User.Login.{has_password, login_user-refines}
use speed_test.Tests.Serial.{chrono}
use speed_test.Tests.Memory.{memory, fresh}
use speed_test.Tests.Inputs.{ann, bob, anonymous, registered}

abbrev ann_login : LoginQuery
ann_login = record { username = some "ann"; password = some "secret" }

create_users_with_list_input-refines_example :
    let (r, s') = create_users_with_list_input chrono memory (ann ∷ anonymous ∷ bob ∷ []) fresh in
    (((ann ∷ anonymous ∷ bob ∷ []) ≡ []) × (r ≡ bad_request "No users provided") × (s' ≡ fresh))
    ⊎ Stopped chrono memory (ann ∷ anonymous ∷ bob ∷ []) fresh r s'
    ⊎ ((u : User) × (last_of none (ann ∷ anonymous ∷ bob ∷ []) ≡ some u)
        × (r ≡ ok_json (Body.user u))
        × (user_view (memory.tables s')
            ≡ store_all (ann ∷ anonymous ∷ bob ∷ []) (user_view (memory.tables fresh))))
create_users_with_list_input-refines_example =
    create_users_with_list_input-refines chrono memory (ann ∷ anonymous ∷ bob ∷ []) fresh

login_user-refines_example :
    let (r, s') = login_user chrono memory ann_login registered in
    ((ann_login.username ≡ none) × (r ≡ bad_request "Username is required") × (s' ≡ registered))
    ⊎ ((username : String) × (ann_login.username ≡ some username)
        × (memory.tables s' ≡ memory.tables registered)
        × (((m : String) × (r ≡ internal_error m))
            ⊎ (r
                ≡ elim (has_password
                    (user_view (memory.tables registered) username)
                    (unwrap_or ann_login.password "")) [
                      | true ↦ response 200 (Body.text ("logged-in-" ++ username))
                      | false ↦ unauthorized "Invalid username or password"
                    ])))
login_user-refines_example = login_user-refines chrono memory ann_login registered

create_user-refines_example :
    let (r, s') = create_user chrono memory ann fresh in
    ((m : String) × (r ≡ internal_error m) × (memory.tables s' ≡ memory.tables fresh))
    ⊎ ((id : ℤ) × (username : String) × Assigned memory fresh "user_id_seq" ann.id id
        × (ann.username ≡ some username)
        × (r ≡ ok_json (Body.user (record ann { id = some id })))
        × UserStored memory.dialect username
            (record ann { id = some id })
            (memory.tables fresh)
            (memory.tables s'))
create_user-refines_example = create_user-refines chrono memory ann fresh

update_user-refines_example :
    let (r, s') = update_user chrono memory "ann" bob registered in
    ((m : String) × (r ≡ internal_error m) × (memory.tables s' ≡ memory.tables registered))
    ⊎ ((user_view (memory.tables registered) "ann" ≡ none)
        × (r ≡ not_found "User not found")
        × (memory.tables s' ≡ memory.tables registered))
    ⊎ ((user_view (memory.tables registered) "ann" ≢ none)
        × (r ≡ finish)
        × UserStored memory.dialect "ann"
            (record bob { username = some "ann" })
            (memory.tables registered)
            (memory.tables s'))
update_user-refines_example = update_user-refines chrono memory "ann" bob registered

delete_user-refines_example :
    let (r, s') = delete_user chrono memory "ann" registered in
    ((m : String) × (r ≡ internal_error m) × (memory.tables s' ≡ memory.tables registered))
    ⊎ ((user_view (memory.tables registered) "ann" ≡ none)
        × (r ≡ not_found "User not found")
        × (memory.tables s' ≡ memory.tables registered))
    ⊎ ((user_view (memory.tables registered) "ann" ≢ none)
        × (r ≡ finish)
        × UserGone memory.dialect "ann" (memory.tables registered) (memory.tables s'))
delete_user-refines_example = delete_user-refines chrono memory "ann" registered

get_user_by_name-refines_example :
    let (r, s') = get_user_by_name chrono memory "ann" registered in
    (memory.tables s' ≡ memory.tables registered)
    × (((m : String) × (r ≡ internal_error m))
        ⊎ (r ≡ shown chrono memory (user_view (memory.tables registered) "ann")))
get_user_by_name-refines_example = get_user_by_name-refines chrono memory "ann" registered
