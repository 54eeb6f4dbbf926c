-- ===== src/Hyper/Server/Answers/Pets.antt =====
-- The handlers of Server/Pet answer.
use speed_test.Base.{
  ◌≡◌, refl, some, true, lift, respond, ◌>>=◌, inl, inr, Result-cases, Option-cases,
}
use speed_test.Hyper.Http.{Request, Wire}
use speed_test.Hyper.Interface.{Api}
use speed_test.Hyper.Paths.{PathId, matched}
use speed_test.Hyper.Server.Access.{Context, call_api, authorize}
use speed_test.Hyper.Server.Params.{
  first_value, query_params, tags_param, path_i64, status_param, read_body, required_body,
}
use speed_test.Hyper.Server.Write.{
  write_add_pet, write_find_pets_by_status, write_find_pets_by_tags, write_update_pet,
  write_delete_pet, write_get_pet_by_id, write_update_pet_with_form, write_upload_file,
}
use speed_test.Hyper.Server.Statuses.{
  IsAnswer, write_add_pet-IsAnswer, write_find_pets_by_status-IsAnswer,
  write_find_pets_by_tags-IsAnswer, write_update_pet-IsAnswer, write_delete_pet-IsAnswer,
  write_get_pet_by_id-IsAnswer, write_update_pet_with_form-IsAnswer, write_upload_file-IsAnswer,
}
use speed_test.Hyper.Server.Pet.{
  handle_add_pet, handle_find_pets_by_status, handle_find_pets_by_tags, handle_update_pet,
  handle_delete_pet, handle_get_pet_by_id, handle_update_pet_with_form, handle_upload_file,
  api_key_header, byte_array,
}
use speed_test.Hyper.Server.Answers.{
  is_ok, IsTotal, ends_authorize, ends_read_body, ends_required_body, ends_status_param,
  ends_api_key_header, ends_path_i64, finish_answers,
}

module _ {DateTime S : Type 0} (w : Wire DateTime) (api : Api DateTime S) (t : IsTotal api)
    (context : Context) (request : Request)
    (span : is_ok (w.header_value context.span_id) ≡ true) where
  pub add_pet_answers : (s : S) → IsAnswer (handle_add_pet w api context request s).0
  unfolding handle_add_pet
  add_pet_answers s = elim (Result-cases (authorize w context)) [
    | inr (answer, e0) ↦ rw (handle_add_pet, e0) (rw e0 at (ends_authorize w context))
    | inl (u, e0) ↦ elim (Result-cases (read_body w request)) [
      | inr (answer, e1) ↦
          rw (handle_add_pet, e0, respond, ◌>>=◌, lift, e1) (rw e1 at (ends_read_body w request))
      | inl (bytes, e1) ↦ elim (Result-cases (required_body w "Pet" w.pet_body request bytes)) [
        | inr (answer, e2) ↦
            rw (handle_add_pet, e0, respond, ◌>>=◌, lift, e1, respond, ◌>>=◌, lift, e2)
              (rw e2 at (ends_required_body w "Pet" w.pet_body request bytes))
        | inl (pet, e2) ↦ elim (Option-cases (api.add_pet pet s).0) [
          | inl e ↦ absurd (let r = t.add_pet pet s in cc)
          | inr (result, e) ↦
              rw
                (
                  handle_add_pet, e0, respond, ◌>>=◌, lift, e1, respond, ◌>>=◌, lift, e2, respond,
                  ◌>>=◌, lift, call_api, e,
                )
                (finish_answers w context some (write_add_pet w) result (λ v. refl) span
                  (write_add_pet-IsAnswer w))
        ]
      ]
    ]
  ]

  pub find_pets_by_status_answers :
      (s : S) → IsAnswer (handle_find_pets_by_status w api context request s).0
  unfolding handle_find_pets_by_status
  find_pets_by_status_answers s = elim (Result-cases (authorize w context)) [
    | inr (answer, e0) ↦ rw (handle_find_pets_by_status, e0) (rw e0 at (ends_authorize w context))
    | inl (u, e0) ↦ elim (Result-cases (status_param w request.uri)) [
      | inr (answer, e1) ↦
          rw (handle_find_pets_by_status, e0, respond, ◌>>=◌, lift, e1)
            (rw e1 at (ends_status_param w request.uri))
      | inl (status, e1) ↦ elim (Option-cases (api.find_pets_by_status status s).0) [
        | inl e ↦ absurd (let r = t.find_pets_by_status status s in cc)
        | inr (result, e) ↦
            rw
              (
                handle_find_pets_by_status, e0, respond, ◌>>=◌, lift, e1, respond, ◌>>=◌, lift,
                call_api, e,
              )
              (finish_answers w context some (write_find_pets_by_status w) result (λ v. refl) span
                (write_find_pets_by_status-IsAnswer w))
      ]
    ]
  ]

  pub find_pets_by_tags_answers :
      (s : S) → IsAnswer (handle_find_pets_by_tags w api context request s).0
  unfolding handle_find_pets_by_tags
  find_pets_by_tags_answers s = elim (Result-cases (authorize w context)) [
    | inr (answer, e0) ↦ rw (handle_find_pets_by_tags, e0) (rw e0 at (ends_authorize w context))
    | inl (u, e0) ↦ elim (Option-cases (api.find_pets_by_tags (tags_param w request.uri) s).0) [
      | inl e ↦ absurd (let r = t.find_pets_by_tags (tags_param w request.uri) s in cc)
      | inr (result, e) ↦
          rw (handle_find_pets_by_tags, e0, respond, ◌>>=◌, lift, call_api, e)
            (finish_answers w context some (write_find_pets_by_tags w) result (λ v. refl) span
              (write_find_pets_by_tags-IsAnswer w))
    ]
  ]

  pub update_pet_answers : (s : S) → IsAnswer (handle_update_pet w api context request s).0
  unfolding handle_update_pet
  update_pet_answers s = elim (Result-cases (authorize w context)) [
    | inr (answer, e0) ↦ rw (handle_update_pet, e0) (rw e0 at (ends_authorize w context))
    | inl (u, e0) ↦ elim (Result-cases (read_body w request)) [
      | inr (answer, e1) ↦
          rw (handle_update_pet, e0, respond, ◌>>=◌, lift, e1) (rw e1 at (ends_read_body w request))
      | inl (bytes, e1) ↦ elim (Result-cases (required_body w "Pet" w.pet_body request bytes)) [
        | inr (answer, e2) ↦
            rw (handle_update_pet, e0, respond, ◌>>=◌, lift, e1, respond, ◌>>=◌, lift, e2)
              (rw e2 at (ends_required_body w "Pet" w.pet_body request bytes))
        | inl (pet, e2) ↦ elim (Option-cases (api.update_pet pet s).0) [
          | inl e ↦ absurd (let r = t.update_pet pet s in cc)
          | inr (result, e) ↦
              rw
                (
                  handle_update_pet, e0, respond, ◌>>=◌, lift, e1, respond, ◌>>=◌, lift, e2,
                  respond, ◌>>=◌, lift, call_api, e,
                )
                (finish_answers w context some (write_update_pet w) result (λ v. refl) span
                  (write_update_pet-IsAnswer w))
        ]
      ]
    ]
  ]

  pub delete_pet_answers :
      matched request.uri.path PathId.pet_petid ≡ true
      → (s : S) → IsAnswer (handle_delete_pet w api context request s).0
  unfolding handle_delete_pet
  delete_pet_answers path s = elim (Result-cases (authorize w context)) [
    | inr (answer, e0) ↦ rw (handle_delete_pet, e0) (rw e0 at (ends_authorize w context))
    | inl (u, e0) ↦ elim (Result-cases (path_i64 w PathId.pet_petid "petId" request.uri.path)) [
      | inr (answer, e1) ↦
          rw (handle_delete_pet, e0, respond, ◌>>=◌, lift, e1)
            (rw e1 at (ends_path_i64 w PathId.pet_petid "petId" request.uri.path path))
      | inl (id, e1) ↦ elim (Result-cases (api_key_header w request)) [
        | inr (answer, e2) ↦
            rw (handle_delete_pet, e0, respond, ◌>>=◌, lift, e1, respond, ◌>>=◌, lift, e2)
              (rw e2 at (ends_api_key_header w request))
        | inl (api_key, e2) ↦ elim (Option-cases (api.delete_pet id api_key s).0) [
          | inl e ↦ absurd (let r = t.delete_pet id api_key s in cc)
          | inr (result, e) ↦
              rw
                (
                  handle_delete_pet, e0, respond, ◌>>=◌, lift, e1, respond, ◌>>=◌, lift, e2,
                  respond, ◌>>=◌, lift, call_api, e,
                )
                (finish_answers w context some (write_delete_pet w) result (λ v. refl) span
                  (write_delete_pet-IsAnswer w))
        ]
      ]
    ]
  ]

  pub get_pet_by_id_answers :
      matched request.uri.path PathId.pet_petid ≡ true
      → (s : S) → IsAnswer (handle_get_pet_by_id w api context request s).0
  unfolding handle_get_pet_by_id
  get_pet_by_id_answers path s = elim (Result-cases (authorize w context)) [
    | inr (answer, e0) ↦ rw (handle_get_pet_by_id, e0) (rw e0 at (ends_authorize w context))
    | inl (u, e0) ↦ elim (Result-cases (path_i64 w PathId.pet_petid "petId" request.uri.path)) [
      | inr (answer, e1) ↦
          rw (handle_get_pet_by_id, e0, respond, ◌>>=◌, lift, e1)
            (rw e1 at (ends_path_i64 w PathId.pet_petid "petId" request.uri.path path))
      | inl (id, e1) ↦ elim (Option-cases (api.get_pet_by_id id s).0) [
        | inl e ↦ absurd (let r = t.get_pet_by_id id s in cc)
        | inr (result, e) ↦
            rw
              (
                handle_get_pet_by_id, e0, respond, ◌>>=◌, lift, e1, respond, ◌>>=◌, lift, call_api,
                e,
              )
              (finish_answers w context some (write_get_pet_by_id w) result (λ v. refl) span
                (write_get_pet_by_id-IsAnswer w))
      ]
    ]
  ]

  pub update_pet_with_form_answers :
      matched request.uri.path PathId.pet_petid ≡ true
      → (s : S) → IsAnswer (handle_update_pet_with_form w api context request s).0
  unfolding handle_update_pet_with_form
  update_pet_with_form_answers path s = elim (Result-cases (authorize w context)) [
    | inr (answer, e0) ↦ rw (handle_update_pet_with_form, e0) (rw e0 at (ends_authorize w context))
    | inl (u, e0) ↦ elim (Result-cases (path_i64 w PathId.pet_petid "petId" request.uri.path)) [
      | inr (answer, e1) ↦
          rw (handle_update_pet_with_form, e0, respond, ◌>>=◌, lift, e1)
            (rw e1 at (ends_path_i64 w PathId.pet_petid "petId" request.uri.path path))
      | inl (id, e1) ↦
          elim (Option-cases
            (api.update_pet_with_form id (first_value "name" (query_params w request.uri))
              (first_value "status" (query_params w request.uri)) s).0) [
                | inl e ↦ absurd (
                    let r =
                      t.update_pet_with_form id (first_value "name" (query_params w request.uri))
                        (first_value "status" (query_params w request.uri)) s in
                    cc)
                | inr (result, e) ↦
                    rw
                      (
                        handle_update_pet_with_form, e0, respond, ◌>>=◌, lift, e1, respond, ◌>>=◌,
                        lift, call_api, e,
                      )
                      (finish_answers w context some (write_update_pet_with_form w) result
                        (λ v. refl) span (write_update_pet_with_form-IsAnswer w))
              ]
    ]
  ]

  pub upload_file_answers :
      matched request.uri.path PathId.pet_petid_uploadimage ≡ true
      → (s : S) → IsAnswer (handle_upload_file w api context request s).0
  unfolding handle_upload_file
  upload_file_answers path s = elim (Result-cases (authorize w context)) [
    | inr (answer, e0) ↦ rw (handle_upload_file, e0) (rw e0 at (ends_authorize w context))
    | inl (u, e0) ↦
        elim (Result-cases (path_i64 w PathId.pet_petid_uploadimage "petId" request.uri.path)) [
          | inr (answer, e1) ↦
              rw (handle_upload_file, e0, respond, ◌>>=◌, lift, e1)
                (rw e1 at
                  (ends_path_i64 w PathId.pet_petid_uploadimage "petId" request.uri.path path))
          | inl (id, e1) ↦ elim (Result-cases (read_body w request)) [
            | inr (answer, e2) ↦
                rw (handle_upload_file, e0, respond, ◌>>=◌, lift, e1, respond, ◌>>=◌, lift, e2)
                  (rw e2 at (ends_read_body w request))
            | inl (bytes, e2) ↦
                elim (Option-cases
                  (api.upload_file id
                    (first_value "additionalMetadata" (query_params w request.uri))
                    (byte_array bytes) s).0) [
                      | inl e ↦ absurd (
                          let r =
                            t.upload_file id
                              (first_value "additionalMetadata" (query_params w request.uri))
                              (byte_array bytes) s in
                          cc)
                      | inr (result, e) ↦
                          rw
                            (
                              handle_upload_file, e0, respond, ◌>>=◌, lift, e1, respond, ◌>>=◌,
                              lift, e2, respond, ◌>>=◌, lift, call_api, e,
                            )
                            (finish_answers w context some (write_upload_file w) result (λ v. refl)
                              span (write_upload_file-IsAnswer w))
                    ]
          ]
        ]
  ]
