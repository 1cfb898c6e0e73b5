-- ===== src/Decimal/Order.antt =====
-- Python's `min` and `max`, and the strict order, by the laws of the order.
use copytrading_agent.Prelude.{◌≡◌, true, arith}
use copytrading_agent.Decimal.{Decimal, IsOrdered, ◌⩽◌, ◌⋖◌, min, max}

module _ {D : Type 0} ⦃d : Decimal D⦄ (order : IsOrdered D) where
  open order use {le_refl, le_trans, le_total}

  pub le_of_lt : (a b : D) → (a ⋖ b) ≡ true → (a ⩽ b) ≡ true
  le_of_lt a b h = ground (arith, le_total a b)

  pub lt_of_le-lt : (a b c : D) → (a ⩽ b) ≡ true → (b ⋖ c) ≡ true → (a ⋖ c) ≡ true
  lt_of_le-lt a b c h k = ground (arith, le_trans c a b)

  pub lt_of_lt-le : (a b c : D) → (a ⋖ b) ≡ true → (b ⩽ c) ≡ true → (a ⋖ c) ≡ true
  lt_of_lt-le a b c h k = ground (arith, le_trans b c a)

  pub min-le_left : (a b : D) → (min a b ⩽ a) ≡ true
  min-le_left a b = ground (arith, le_total a b, le_refl a)

  pub min-le_right : (a b : D) → (min a b ⩽ b) ≡ true
  min-le_right a b = ground (arith, le_total a b, le_refl b)

  pub le-max_left : (a b : D) → (a ⩽ max a b) ≡ true
  le-max_left a b = ground (arith, le_total a b, le_refl a)

  pub le-max_right : (a b : D) → (b ⩽ max a b) ≡ true
  le-max_right a b = ground (arith, le_total a b, le_refl b)

  pub le-min : (a b c : D) → (c ⩽ a) ≡ true → (c ⩽ b) ≡ true → (c ⩽ min a b) ≡ true
  le-min a b c h k = ground arith

  -- What is capped by a room, and is positive, fits the room.
  pub min-max-le :
      (a b : D) → (d.nought ⋖ min a (max b d.nought)) ≡ true → (min a (max b d.nought) ⩽ b) ≡ true
  min-max-le a b h = ground (arith, le_refl b, le_refl d.nought)
