-- ===== src/Hyper/Form/RoundTrip/User.antt =====
-- What `from_str` of `User` makes of the text that `Display` prints.
use speed_test.Base.{
  String, ◌≡◌, refl, ap, ◌∙◌, Option, none, some, [], ◌∷◌, ℤ, ok, List, map_option, show_int, arith,
}
use speed_test.Models.{User}
use speed_test.Hyper.Parse.Printed.{parse_i64-show_int, parse_i32-show_int}
use speed_test.Hyper.Form.{push}
use speed_test.Hyper.Form.User.{
  UserRep, user_fields, user_to_string, push_user, no_user, user_of, user_from_str,
}
use speed_test.Hyper.Form.Split.{OptionHasNoComma}
use speed_test.Hyper.Form.Fields.{Pushes, parse_fields-pairs}
use speed_test.Hyper.Form.RoundTrip.{
  OptionIsI64, OptionIsI32, values, first-values, or_missing, parse_fields-show_fields,
  show_int-HasNoComma,
}

push_user-id :
    (rep : UserRep) (z : Option ℤ)
    → OptionIsI64 z
    → rep.id ≡ []
    → Pushes "User" push_user "id" (map_option show_int z) rep (record rep { id = values z })
unfolding push_user
push_user-id rep none r h = ap (λ x. record rep { id = x }) h
push_user-id rep (some z) r h =
    rw (parse_i64-show_int z r) (ap (λ x. ok (record rep { id = push x z })) h)

push_user-username :
    (rep : UserRep) (v : Option String)
    → rep.username ≡ []
    → Pushes "User" push_user "username" v rep (record rep { username = values v })
unfolding push_user
push_user-username rep none h = ap (λ x. record rep { username = x }) h
push_user-username rep (some v) h = ap (λ x. ok (record rep { username = push x v })) h

push_user-first_name :
    (rep : UserRep) (v : Option String)
    → rep.first_name ≡ []
    → Pushes "User" push_user "firstName" v rep (record rep { first_name = values v })
unfolding push_user
push_user-first_name rep none h = ap (λ x. record rep { first_name = x }) h
push_user-first_name rep (some v) h = ap (λ x. ok (record rep { first_name = push x v })) h

push_user-last_name :
    (rep : UserRep) (v : Option String)
    → rep.last_name ≡ []
    → Pushes "User" push_user "lastName" v rep (record rep { last_name = values v })
unfolding push_user
push_user-last_name rep none h = ap (λ x. record rep { last_name = x }) h
push_user-last_name rep (some v) h = ap (λ x. ok (record rep { last_name = push x v })) h

push_user-email :
    (rep : UserRep) (v : Option String)
    → rep.email ≡ []
    → Pushes "User" push_user "email" v rep (record rep { email = values v })
unfolding push_user
push_user-email rep none h = ap (λ x. record rep { email = x }) h
push_user-email rep (some v) h = ap (λ x. ok (record rep { email = push x v })) h

push_user-password :
    (rep : UserRep) (v : Option String)
    → rep.password ≡ []
    → Pushes "User" push_user "password" v rep (record rep { password = values v })
unfolding push_user
push_user-password rep none h = ap (λ x. record rep { password = x }) h
push_user-password rep (some v) h = ap (λ x. ok (record rep { password = push x v })) h

push_user-phone :
    (rep : UserRep) (v : Option String)
    → rep.phone ≡ []
    → Pushes "User" push_user "phone" v rep (record rep { phone = values v })
unfolding push_user
push_user-phone rep none h = ap (λ x. record rep { phone = x }) h
push_user-phone rep (some v) h = ap (λ x. ok (record rep { phone = push x v })) h

push_user-user_status :
    (rep : UserRep) (z : Option ℤ)
    → OptionIsI32 z
    → rep.user_status ≡ []
    → Pushes "User" push_user "userStatus"
        (map_option show_int z)
        rep
        (record rep { user_status = values z })
unfolding push_user
push_user-user_status rep none r h = ap (λ x. record rep { user_status = x }) h
push_user-user_status rep (some z) r h =
    rw (parse_i32-show_int z r) (ap (λ x. ok (record rep { user_status = push x z })) h)

-- No text of it holds a comma, and its numbers are in their ranges.
abbrev pub IsPlainUser : User → Type 0
IsPlainUser u =
    OptionIsI64 u.id
    × OptionHasNoComma u.username
    × OptionHasNoComma u.first_name
    × OptionHasNoComma u.last_name
    × OptionHasNoComma u.email
    × OptionHasNoComma u.password
    × OptionHasNoComma u.phone
    × OptionIsI32 u.user_status

-- A user whose texts hold no comma, whose id is an i64 and whose status is an i32 is read by
-- from_str from the text that Display prints, as the same user, if it has a field; one that has no
-- field at all is printed as the empty text, which from_str refuses for a missing value.
pub user_from_str-user_to_string :
    (u : User)
    → IsPlainUser u
    → user_from_str (user_to_string u) ≡ or_missing "User" (user_fields u) u
unfolding user_from_str user_to_string
user_from_str-user_to_string u h =
    let r1 : UserRep = record no_user { id = values u.id } in
    let r2 : UserRep = record r1 { username = values u.username } in
    let r3 : UserRep = record r2 { first_name = values u.first_name } in
    let r4 : UserRep = record r3 { last_name = values u.last_name } in
    let r5 : UserRep = record r4 { email = values u.email } in
    let r6 : UserRep = record r5 { password = values u.password } in
    let r7 : UserRep = record r6 { phone = values u.phone } in
    let r8 : UserRep = record r7 { user_status = values u.user_status } in
    let fields_8 : List (String × Option String) =
      ("userStatus", map_option show_int u.user_status) ∷ [] in
    let fields_7 : List (String × Option String) = ("phone", u.phone) ∷ fields_8 in
    let fields_6 : List (String × Option String) = ("password", u.password) ∷ fields_7 in
    let fields_5 : List (String × Option String) = ("email", u.email) ∷ fields_6 in
    let fields_4 : List (String × Option String) = ("lastName", u.last_name) ∷ fields_5 in
    let fields_3 : List (String × Option String) = ("firstName", u.first_name) ∷ fields_4 in
    let fields_2 : List (String × Option String) = ("username", u.username) ∷ fields_3 in
    parse_fields-show_fields "User" push_user no_user r8 user_of (user_fields u) u
      (
        ground arith,
        show_int-HasNoComma u.id,
        (
          ground arith,
          h.1,
          (
            ground arith,
            h.2,
            (
              ground arith,
              h.3,
              (
                ground arith,
                h.4,
                (
                  ground arith,
                  h.5,
                  (ground arith, h.6, (ground arith, show_int-HasNoComma u.user_status, tt)),
                ),
              ),
            ),
          ),
        ),
      )
      (parse_fields-pairs "User" push_user "id" (map_option show_int u.id) fields_2 no_user r1
          (push_user-id no_user u.id h.0 refl)
        ∙ parse_fields-pairs "User" push_user "username" (u.username) fields_3 r1 r2
            (push_user-username r1 u.username refl)
        ∙ parse_fields-pairs "User" push_user "firstName" (u.first_name) fields_4 r2 r3
            (push_user-first_name r2 u.first_name refl)
        ∙ parse_fields-pairs "User" push_user "lastName" (u.last_name) fields_5 r3 r4
            (push_user-last_name r3 u.last_name refl)
        ∙ parse_fields-pairs "User" push_user "email" (u.email) fields_6 r4 r5
            (push_user-email r4 u.email refl)
        ∙ parse_fields-pairs "User" push_user "password" (u.password) fields_7 r5 r6
            (push_user-password r5 u.password refl)
        ∙ parse_fields-pairs "User" push_user "phone" (u.phone) fields_8 r6 r7
            (push_user-phone r6 u.phone refl)
        ∙ parse_fields-pairs "User" push_user "userStatus" (map_option show_int u.user_status) [] r7
            r8 (push_user-user_status r7 u.user_status h.7 refl)
        ∙ refl)
      (rw
        (
          first-values u.id,
          first-values u.username,
          first-values u.first_name,
          first-values u.last_name,
          first-values u.email,
          first-values u.password,
          first-values u.phone,
          first-values u.user_status,
        )
        refl)
