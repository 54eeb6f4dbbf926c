-- ===== src/Hyper/Agreement.antt =====
-- The two servers do the same: a handler of the Hyper server answers as the handler of the Actix
-- server of its name, in its own words, and leaves the database in the same state. So it also never
-- gives a response of its interface that the Actix server has no words for.
pub mod Pet
pub mod Store
pub mod User
pub mod Runs
pub mod Written
pub mod Invariant
pub mod Answered
pub mod Statuses
use speed_test.Base.{
  String, Option, none, some, Result, ok, err, ◌≡◌, same, string_key, if◌then◌else◌,
}
use speed_test.Actix.Response.{HttpResponse, internal_error, not_found, bad_request}
use speed_test.Hyper.Responses.{Error}

-- A failure is the answer 500 with its message; `say` puts a response into the words of the Actix
-- server, where it has some.
abbrev pub in_actix :
    {R D : Type 0} → (R → Option (HttpResponse D)) → Result String R → Option (HttpResponse D)
in_actix say (ok r) = say r
in_actix say (err e) = some (internal_error e)

-- The code of an `Error` is a status.
abbrev pub say_error : {D : Type 0} → Error → Option (HttpResponse D)
say_error e =
    if same e.code "404"
    then some (not_found e.message)
    else if same e.code "400"
    then some (bad_request e.message)
    else none

-- Two runs with the same answer and the same final state.
abbrev pub Same :
    {R D S : Type 0}
    → (R → Option (HttpResponse D))
    → Result String R × S
    → HttpResponse D × S
    → Type 0
Same say (r, s) (r', s') = (in_actix say r ≡ some r') × (s ≡ s')
