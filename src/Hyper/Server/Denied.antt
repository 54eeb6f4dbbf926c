-- ===== src/Hyper/Server/Denied.antt =====
-- Requests that the server refuses before it calls the implementation.
use speed_test.Base.{
  String, ◌≡◌, refl, none, some, Bool, true, false, ◌&&◌, List, arith, err, inl, inr, Option-cases,
  Bool-cases,
}
use speed_test.Hyper.Http.{Request, Wire}
use speed_test.Hyper.Interface.{Api}
use speed_test.Hyper.Paths.{Operation, handle, dispatch}
use speed_test.Hyper.Server.Access.{
  Scopes, Context, has_scope, missing, list_scopes, authenticate, check_scopes, authorize, plain,
}
use speed_test.Hyper.Server.Service.{run, call}
use speed_test.Hyper.Server.Pet.{
  handle_add_pet, handle_find_pets_by_status, handle_find_pets_by_tags, handle_update_pet,
  handle_delete_pet, handle_get_pet_by_id, handle_update_pet_with_form, handle_upload_file,
}
use speed_test.Hyper.Server.Store.{handle_get_inventory}

-- Both scopes of the API's description, or all of them.
abbrev pub has_scopes : Scopes → Bool
has_scopes Scopes.all = true
has_scopes (Scopes.some_of scopes) = has_scope "read:pets" scopes && has_scope "write:pets" scopes

abbrev pub is_known : Context → Bool
is_known context = elim context.authorization [ none ↦ false | some a ↦ true ]

abbrev pub may_use_pets : Context → Bool
may_use_pets context = elim context.authorization [ none ↦ false | some a ↦ has_scopes a.scopes ]

-- Who may call an operation.
abbrev pub may : Operation → Context → Bool
may Operation.add_pet context = may_use_pets context
may Operation.find_pets_by_status context = may_use_pets context
may Operation.find_pets_by_tags context = may_use_pets context
may Operation.update_pet context = may_use_pets context
may Operation.delete_pet context = may_use_pets context
may Operation.get_pet_by_id context = may_use_pets context
may Operation.update_pet_with_form context = may_use_pets context
may Operation.upload_file context = may_use_pets context
may Operation.get_inventory context = is_known context
may _ context = true

abbrev missing_text : Bool → Bool → String
missing_text true true = "Insufficient authorization, missing scopes"
missing_text true false = "Insufficient authorization, missing scopes write:pets"
missing_text false true = "Insufficient authorization, missing scopes read:pets"
missing_text false false = "Insufficient authorization, missing scopes read:pets write:pets"

abbrev scopes_text : Scopes → String
scopes_text Scopes.all = ""
scopes_text (Scopes.some_of scopes) =
    missing_text (has_scope "read:pets" scopes) (has_scope "write:pets" scopes)

-- What a refused caller is told.
abbrev pub refusal : Context → String
refusal context = elim context.authorization [
  | none ↦ "Unauthenticated"
  | some a ↦ scopes_text a.scopes
]

module _ {DateTime : Type 0} (w : Wire DateTime) where
  check_scopes_refused :
      (scopes : List String)
      → (has_scope "read:pets" scopes && has_scope "write:pets" scopes) ≡ false
      → check_scopes w (Scopes.some_of scopes)
        ≡ err (
            some (
              plain w 403
                (missing_text (has_scope "read:pets" scopes) (has_scope "write:pets" scopes))))
  unfolding check_scopes missing list_scopes
  check_scopes_refused scopes h = elim (Bool-cases (has_scope "read:pets" scopes)) [
    | inl r ↦ elim (Bool-cases (has_scope "write:pets" scopes)) [
      | inl q ↦ absurd (ground arith)
      | inr q ↦ rw (check_scopes, missing, r, q, list_scopes) refl
    ]
    | inr r ↦ elim (Bool-cases (has_scope "write:pets" scopes)) [
      | inl q ↦ rw (check_scopes, missing, r, q, list_scopes) refl
      | inr q ↦ rw (check_scopes, missing, r, q, list_scopes) refl
    ]
  ]

  denied_scopes :
      (scopes : Scopes)
      → has_scopes scopes ≡ false
      → check_scopes w scopes ≡ err (some (plain w 403 (scopes_text scopes)))
  denied_scopes Scopes.all h = absurd (cc)
  denied_scopes (Scopes.some_of scopes) h = check_scopes_refused scopes h

  pub authorize_refused :
      (context : Context)
      → may_use_pets context ≡ false
      → authorize w context ≡ err (some (plain w 403 (refusal context)))
  unfolding authorize authenticate
  authorize_refused context h = elim (Option-cases context.authorization) [
    | inl e ↦ rw (authorize, authenticate, e) refl
    | inr (a, e) ↦
        let lacks : has_scopes a.scopes ≡ false = rw e at h in
        rw (authorize, authenticate, e) (denied_scopes a.scopes lacks)
  ]

  module _ {S : Type 0} (api : Api DateTime S) where
    run_refused :
        (operation : Operation) (context : Context) (request : Request) (s : S)
        → may operation context ≡ false
        → run w api operation context request s ≡ (some (plain w 403 (refusal context)), s)
    unfolding run handle_add_pet handle_find_pets_by_status handle_find_pets_by_tags
        handle_update_pet handle_delete_pet handle_get_pet_by_id handle_update_pet_with_form
        handle_upload_file handle_get_inventory authenticate
    run_refused Operation.add_pet context request s h = rw (authorize_refused context h) refl
    run_refused Operation.find_pets_by_status context request s h =
        rw (authorize_refused context h) refl
    run_refused Operation.find_pets_by_tags context request s h =
        rw (authorize_refused context h) refl
    run_refused Operation.update_pet context request s h = rw (authorize_refused context h) refl
    run_refused Operation.delete_pet context request s h = rw (authorize_refused context h) refl
    run_refused Operation.get_pet_by_id context request s h = rw (authorize_refused context h) refl
    run_refused Operation.update_pet_with_form context request s h =
        rw (authorize_refused context h) refl
    run_refused Operation.upload_file context request s h = rw (authorize_refused context h) refl
    run_refused Operation.get_inventory context request s h =
        elim (Option-cases context.authorization) [
          | inl e ↦ rw e refl
          | inr (a, e) ↦ absurd (ground arith)
        ]
    run_refused Operation.place_order context request s h = absurd (cc)
    run_refused Operation.delete_order context request s h = absurd (cc)
    run_refused Operation.get_order_by_id context request s h = absurd (cc)
    run_refused Operation.create_user context request s h = absurd (cc)
    run_refused Operation.create_users_with_list_input context request s h = absurd (cc)
    run_refused Operation.login_user context request s h = absurd (cc)
    run_refused Operation.logout_user context request s h = absurd (cc)
    run_refused Operation.delete_user context request s h = absurd (cc)
    run_refused Operation.get_user_by_name context request s h = absurd (cc)
    run_refused Operation.update_user context request s h = absurd (cc)

    -- A request that the router finds an operation for, whose caller may not call it (a pet
    -- operation without an authorization, or without one of the scopes read:pets and write:pets
    -- where the scopes are listed; the inventory without an authorization), is answered with 403
    -- and the reason (Unauthenticated, or the missing scopes in order), and the implementation is
    -- not called: the state is as before.
    pub call_refused :
        (operation : Operation) (context : Context) (request : Request) (s : S)
        → dispatch request.method request.uri.path ≡ handle operation
        → may operation context ≡ false
        → call w api context request s ≡ (some (plain w 403 (refusal context)), s)
    unfolding call
    call_refused operation context request s d h = rw d (run_refused operation context request s h)
