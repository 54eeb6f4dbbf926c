-- ===== src/Hyper/Server/Answers/Users.antt =====
-- The handlers of Server/User answer.
use speed_test.Base.{
  ℕ, List, String, ◌≡◌, refl, some, true, lift, respond, ◌>>=◌, inl, inr, Result-cases,
  Option-cases, ok,
}
use speed_test.Hyper.Http.{Request, Wire}
use speed_test.Hyper.Interface.{Api}
use speed_test.Hyper.Paths.{PathId, matched, is_some}
use speed_test.Hyper.Server.Access.{Context, call_api}
use speed_test.Hyper.Server.Params.{first_value, query_params, path_text, read_body, optional_body}
use speed_test.Hyper.Server.Write.{
  write_create_user, write_create_users_with_list_input, write_login_user, write_logout_user,
  write_delete_user, write_get_user_by_name, write_update_user,
}
use speed_test.Hyper.Server.Statuses.{
  IsAnswer, write_create_user-IsAnswer, write_create_users_with_list_input-IsAnswer,
  write_login_user-IsAnswer, write_logout_user-IsAnswer, write_delete_user-IsAnswer,
  write_get_user_by_name-IsAnswer, write_update_user-IsAnswer,
}
use speed_test.Hyper.Server.User.{
  handle_create_user, handle_create_users_with_list_input, handle_login_user, handle_logout_user,
  handle_delete_user, handle_get_user_by_name, handle_update_user, users_param, warn,
}
use speed_test.Hyper.Server.Answers.{
  read_body-ok, started, is_ok, IsTotal, ends_read_body, ends_path_text, finish_answers,
}

module _ {DateTime S : Type 0} (w : Wire DateTime) (api : Api DateTime S) (t : IsTotal api)
    (context : Context) (request : Request)
    (span : is_ok (w.header_value context.span_id) ≡ true) where
  pub create_user_answers : (s : S) → IsAnswer (handle_create_user w api context request s).0
  unfolding handle_create_user
  create_user_answers s = elim (Result-cases (read_body w request)) [
    | inr (answer, e0) ↦ rw (handle_create_user, e0) (rw e0 at (ends_read_body w request))
    | inl (bytes, e0) ↦
        elim (Option-cases (api.create_user (optional_body w w.user_body request bytes) s).0) [
          | inl e ↦
              absurd (let r = t.create_user (optional_body w w.user_body request bytes) s in cc)
          | inr (result, e) ↦
              rw (handle_create_user, e0, respond, ◌>>=◌, lift, call_api, e)
                (finish_answers w context some (write_create_user w) result (λ v. refl) span
                  (write_create_user-IsAnswer w))
        ]
  ]

  pub create_users_with_list_input_answers :
      ((bytes : List ℕ) (v : String)
        → request.body ≡ ok bytes
        → is_some (warn w (users_param w bytes).1 (started v)) ≡ true)
      → (s : S) → IsAnswer (handle_create_users_with_list_input w api context request s).0
  unfolding handle_create_users_with_list_input
  create_users_with_list_input_answers warnings s = elim (Result-cases (read_body w request)) [
    | inr (answer, e0) ↦
        rw (handle_create_users_with_list_input, e0) (rw e0 at (ends_read_body w request))
    | inl (bytes, e0) ↦
        elim (Option-cases (api.create_users_with_list_input (users_param w bytes).0 s).0) [
          | inl e ↦ absurd (let r = t.create_users_with_list_input (users_param w bytes).0 s in cc)
          | inr (result, e) ↦
              rw (handle_create_users_with_list_input, e0, respond, ◌>>=◌, lift, call_api, e)
                (finish_answers w context (warn w (users_param w bytes).1)
                  (write_create_users_with_list_input w) result
                  (λ v. warnings bytes v (read_body-ok w request bytes e0)) span
                  (write_create_users_with_list_input-IsAnswer w))
        ]
  ]

  pub login_user_answers : (s : S) → IsAnswer (handle_login_user w api context request s).0
  unfolding handle_login_user
  login_user_answers s =
      elim (Option-cases
        (api.login_user (first_value "username" (query_params w request.uri))
          (first_value "password" (query_params w request.uri)) s).0) [
            | inl e ↦ absurd (
                let r =
                  t.login_user (first_value "username" (query_params w request.uri))
                    (first_value "password" (query_params w request.uri)) s in
                cc)
            | inr (result, e) ↦
                rw (handle_login_user, respond, ◌>>=◌, call_api, e)
                  (finish_answers w context some (write_login_user w) result (λ v. refl) span
                    (write_login_user-IsAnswer w))
          ]

  pub logout_user_answers : (s : S) → IsAnswer (handle_logout_user w api context request s).0
  unfolding handle_logout_user
  logout_user_answers s = elim (Option-cases (api.logout_user s).0) [
    | inl e ↦ absurd (let r = t.logout_user s in cc)
    | inr (result, e) ↦
        rw (handle_logout_user, respond, ◌>>=◌, call_api, e)
          (finish_answers w context some (write_logout_user w) result (λ v. refl) span
            (write_logout_user-IsAnswer w))
  ]

  pub delete_user_answers :
      matched request.uri.path PathId.user_username ≡ true
      → (s : S) → IsAnswer (handle_delete_user w api context request s).0
  unfolding handle_delete_user
  delete_user_answers path s =
      elim (Result-cases (path_text w PathId.user_username request.uri.path)) [
        | inr (answer, e0) ↦
            rw (handle_delete_user, e0)
              (rw e0 at (ends_path_text w PathId.user_username request.uri.path path))
        | inl (username, e0) ↦ elim (Option-cases (api.delete_user username s).0) [
          | inl e ↦ absurd (let r = t.delete_user username s in cc)
          | inr (result, e) ↦
              rw (handle_delete_user, e0, respond, ◌>>=◌, lift, call_api, e)
                (finish_answers w context some (write_delete_user w) result (λ v. refl) span
                  (write_delete_user-IsAnswer w))
        ]
      ]

  pub get_user_by_name_answers :
      matched request.uri.path PathId.user_username ≡ true
      → (s : S) → IsAnswer (handle_get_user_by_name w api context request s).0
  unfolding handle_get_user_by_name
  get_user_by_name_answers path s =
      elim (Result-cases (path_text w PathId.user_username request.uri.path)) [
        | inr (answer, e0) ↦
            rw (handle_get_user_by_name, e0)
              (rw e0 at (ends_path_text w PathId.user_username request.uri.path path))
        | inl (username, e0) ↦ elim (Option-cases (api.get_user_by_name username s).0) [
          | inl e ↦ absurd (let r = t.get_user_by_name username s in cc)
          | inr (result, e) ↦
              rw (handle_get_user_by_name, e0, respond, ◌>>=◌, lift, call_api, e)
                (finish_answers w context some (write_get_user_by_name w) result (λ v. refl) span
                  (write_get_user_by_name-IsAnswer w))
        ]
      ]

  pub update_user_answers :
      matched request.uri.path PathId.user_username ≡ true
      → (s : S) → IsAnswer (handle_update_user w api context request s).0
  unfolding handle_update_user
  update_user_answers path s =
      elim (Result-cases (path_text w PathId.user_username request.uri.path)) [
        | inr (answer, e0) ↦
            rw (handle_update_user, e0)
              (rw e0 at (ends_path_text w PathId.user_username request.uri.path path))
        | inl (username, e0) ↦ elim (Result-cases (read_body w request)) [
          | inr (answer, e1) ↦
              rw (handle_update_user, e0, respond, ◌>>=◌, lift, e1)
                (rw e1 at (ends_read_body w request))
          | inl (bytes, e1) ↦
              elim (Option-cases
                (api.update_user username (optional_body w w.user_body request bytes) s).0) [
                  | inl e ↦ absurd (
                      let r =
                        t.update_user username (optional_body w w.user_body request bytes) s in
                      cc)
                  | inr (result, e) ↦
                      rw
                        (
                          handle_update_user, e0, respond, ◌>>=◌, lift, e1, respond, ◌>>=◌, lift,
                          call_api, e,
                        )
                        (finish_answers w context some (write_update_user w) result (λ v. refl) span
                          (write_update_user-IsAnswer w))
                ]
        ]
      ]
