-- ===== src/Hyper/Paths/Matched.antt =====
-- Where `Service::call` finds the handler of an operation, the operation's path has matched.
use speed_test.Base.{
  String, ◌≡◌, Option, none, some, Bool, true, false, List, [], ◌∷◌, arith, inl, inr, ◌&&◌,
  Bool-cases,
}
use mathlib.Core.Path.{subst}
use speed_test.Hyper.Http.{Method}
use speed_test.Hyper.Paths.{
  PathId, Operation, handle, same_method, matched, first_arm, arms, dispatch, route_of, path_ids,
  any_matched,
}

-- The expression whose captures the handler of an operation reads, if it reads any.
abbrev pub path_of : Operation → Option PathId
path_of Operation.delete_pet = some PathId.pet_petid
path_of Operation.get_pet_by_id = some PathId.pet_petid
path_of Operation.update_pet_with_form = some PathId.pet_petid
path_of Operation.upload_file = some PathId.pet_petid_uploadimage
path_of Operation.delete_order = some PathId.store_order_orderid
path_of Operation.get_order_by_id = some PathId.store_order_orderid
path_of Operation.delete_user = some PathId.user_username
path_of Operation.get_user_by_name = some PathId.user_username
path_of Operation.update_user = some PathId.user_username
path_of _ = none

-- The path is one that the operation's handler can read.
abbrev pub Reads : String → Operation → Type 0
Reads path operation = elim (path_of operation) [
  | none ↦ Unit {0}
  | some id ↦ matched path id ≡ true
]

abbrev AllFit : List (Method × PathId × Operation) → Type 0
AllFit [] = Unit {0}
AllFit ((m, id, operation) ∷ l) =
    ((path : String) → matched path id ≡ true → Reads path operation) × AllFit l

arms-AllFit : AllFit arms
arms-AllFit = ground arith

first_arm-Reads :
    (method : Method) (path : String) (l : List (Method × PathId × Operation))
    (operation : Operation)
    → AllFit l
    → first_arm method path l ≡ some operation
    → Reads path operation
unfolding first_arm
first_arm-Reads method path [] operation fit h = absurd (ground arith)
first_arm-Reads method path ((m, id, a) ∷ l) operation fit h =
    elim (Bool-cases (same_method method m && matched path id)) [
      | inl e ↦
          let same_op : a ≡ operation = ground arith in
          subst (λ (o : Operation). Reads path o) (same_op) (fit.0 path (ground arith))
      | inr e ↦ first_arm-Reads method path l operation fit.1 (ground arith)
    ]

found :
    (o : Option Operation) (b : Bool) (operation : Operation)
    → route_of o b ≡ handle operation
    → o ≡ some operation
found none true operation h = absurd (ground arith)
found none false operation h = absurd (ground arith)
found (some a) b operation h = ground arith

pub dispatch-first_arm :
    (method : Method) (path : String) (operation : Operation)
    → dispatch method path ≡ handle operation
    → first_arm method path arms ≡ some operation
unfolding dispatch
dispatch-first_arm method path operation h =
    found (first_arm method path arms) (any_matched path path_ids) operation h

pub dispatch-Reads :
    (method : Method) (path : String) (operation : Operation)
    → dispatch method path ≡ handle operation
    → Reads path operation
dispatch-Reads method path operation h =
    first_arm-Reads method path arms operation arms-AllFit
      (dispatch-first_arm method path operation h)
