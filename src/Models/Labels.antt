-- ===== src/Models/Labels.antt =====
-- The labels of the two status enums: printing and parsing are inverse.
use text.Mathlib.TextEquality.{eq_iff}
use speed_test.Base.{String, ◌≡◌, ◌↔◌, arith, ok}
use speed_test.Models.{
  PetStatus, OrderStatus, pet_status_to_string, parse_pet_status, order_status_to_string,
  parse_order_status,
}

-- A text parses to a pet status exactly when it is the label of that status.
pub parse_pet_status_iff :
    (s : String) (st : PetStatus) → (parse_pet_status s ≡ ok st) ↔ (s ≡ pet_status_to_string st)
unfolding parse_pet_status pet_status_to_string
parse_pet_status_iff s PetStatus.available =
    (λ h. ground (arith, eq_iff s "available", eq_iff s "pending", eq_iff s "sold"), λ p. rw p)
parse_pet_status_iff s PetStatus.pending =
    (λ h. ground (arith, eq_iff s "available", eq_iff s "pending", eq_iff s "sold"), λ p. rw p)
parse_pet_status_iff s PetStatus.sold =
    (λ h. ground (arith, eq_iff s "available", eq_iff s "pending", eq_iff s "sold"), λ p. rw p)

-- A text parses to an order status exactly when it is the label of that status.
pub parse_order_status_iff :
    (s : String) (st : OrderStatus)
    → (parse_order_status s ≡ ok st) ↔ (s ≡ order_status_to_string st)
unfolding parse_order_status order_status_to_string
parse_order_status_iff s OrderStatus.placed =
    (λ h. ground (arith, eq_iff s "placed", eq_iff s "approved", eq_iff s "delivered"), λ p. rw p)
parse_order_status_iff s OrderStatus.approved =
    (λ h. ground (arith, eq_iff s "placed", eq_iff s "approved", eq_iff s "delivered"), λ p. rw p)
parse_order_status_iff s OrderStatus.delivered =
    (λ h. ground (arith, eq_iff s "placed", eq_iff s "approved", eq_iff s "delivered"), λ p. rw p)
