-- ===== src/Hyper/Server/Access.antt =====
-- What the handlers of petshop-stacks/rust/hyper/src/server/mod.rs share: responses made from a
-- status and a text, the call of the implementation, and the checks of the authorization.
use speed_test.Base.{
  ℕ, String, ◌++◌, Option, none, some, Bool, false, ◌||◌, List, [], ◌∷◌, same, string_key,
  if◌then◌else◌, and_then, Result, ok, err, Exec,
}
use speed_test.Hyper.Http.{Response, Wire}
use speed_test.Hyper.Interface.{Call}

-- `swagger::auth::Scopes`, `Authorization`, and the context of a request
pub data Scopes : Type 0 where
  all : Scopes
  some_of : List String → Scopes

pub record Authorization : Type 0 where
  pub subject : String
  pub scopes : Scopes
  pub issuer : Option String

pub record Context : Type 0 where
  pub span_id : String
  pub authorization : Option Authorization

-- A handler answers, or panics: then there is no response.
abbrev pub Handler : Type 0 → Type 0
Handler S = S → Option Response × S

-- A step of a handler, which may end it with its answer.
abbrev pub Answer : Type 0 → Type 0
Answer A = Result (Option Response) A

-- A call of the implementation, whose panic is the handler's.
abbrev pub call_api : {S R : Type 0} → Call S R → Exec S (Option Response) (Result String R)
call_api call s = let (r, s') = call s in elim r [ none ↦ (err none, s') | some a ↦ (ok a, s') ]

-- The set is sorted.
abbrev pub required_scopes : List String
required_scopes = "read:pets" ∷ "write:pets" ∷ []

unfoldable pub has_scope : String → List String → Bool
has_scope scope [] = false
has_scope scope (s ∷ scopes) = same scope s || has_scope scope scopes

-- `required_scopes.difference(scopes)`; the required scopes are a subset if it is empty
unfoldable pub missing : List String → List String → List String
unfolding has_scope
missing [] scopes = []
missing (r ∷ required) scopes =
    let rest = missing required scopes in if has_scope r scopes then rest else r ∷ rest

unfoldable pub list_scopes : String → List String → String
list_scopes s [] = s
list_scopes s (scope ∷ scopes) = list_scopes (s ++ " " ++ scope) scopes

module _ {DateTime : Type 0} (w : Wire DateTime) where
  -- `Response::builder().status(…).body(body_from_string(…))`
  abbrev pub plain : ℕ → String → Response
  plain status text = record { status = status; headers = []; body = ok (w.as_bytes text) }

  abbrev pub bad_request : {A : Type 0} → String → Answer A
  bad_request text = err (some (plain 400 text))

  -- The check of `get_inventory`, the first part of the check below
  unfoldable pub authenticate : Context → Answer Authorization
  authenticate context = elim context.authorization [
    | none ↦ err (some (plain 403 "Unauthenticated"))
    | some a ↦ ok a
  ]

  unfoldable pub check_scopes : Scopes → Answer (Unit {0})
  unfolding missing list_scopes
  check_scopes Scopes.all = ok tt
  check_scopes (Scopes.some_of scopes) = elim (missing required_scopes scopes) [
    | [] ↦ ok tt
    | m ∷ ms ↦
        err (some (plain 403 (list_scopes "Insufficient authorization, missing scopes" (m ∷ ms))))
  ]

  -- The check that begins the handlers of the pet operations
  unfoldable pub authorize : Context → Answer (Unit {0})
  unfolding authenticate check_scopes
  authorize context = elim (authenticate context) [
    | err response ↦ err response
    | ok a ↦ check_scopes a.scopes
  ]

  -- The end of a handler: a response with the span id, which `prepare` adds headers to and `write`
  -- fills in. Both may panic, and `write` may replace the response.
  unfoldable pub finish_with :
      {R : Type 0}
      → Context
      → (Response → Option Response)
      → (Response → R → Option Response)
      → Result String R
      → Option Response
  finish_with context prepare write result = elim (w.header_value context.span_id) [
    | err e ↦ none
    | ok span ↦
        and_then
          (prepare (record { status = 200; headers = ("x-span-id", span) ∷ []; body = ok [] }))
          (λ response. elim result [
            | ok rsp ↦ write response rsp
            | err e ↦ some (record response {
              status = 500;
              body = ok (w.as_bytes "An internal error occurred");
            })
          ])
  ]

  abbrev pub finish :
      {R : Type 0} → Context → (Response → R → Option Response) → Result String R → Option Response
  finish context write result = finish_with context some write result
