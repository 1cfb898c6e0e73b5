-- ===== src/Decimal.antt =====
-- What the program does with Python's `decimal.Decimal` (a type of the standard library): its
-- comparisons, its arithmetic and its parser. The values are those on which no operation signals;
-- NaN and the order of signalling are outside. Arithmetic rounds to the context's 28 digits, so the
-- laws are those of rounded arithmetic: no sum is assumed to be exact.
pub mod Order
pub mod Units
use copytrading_agent.Prelude.{
  ℕ, String, ◌≡◌, ◌⊎◌, Bool, true, false, not, Option, ◌&&◌, if◌then◌else◌,
}

pub record Decimal (D : Type 0) : Type 0 where
  pub nought : D
  pub one : D
  pub le : D → D → Bool
  pub add : D → D → D
  pub sub : D → D → D
  pub mul : D → D → D
  pub div : D → D → D
  pub negate : D → D
  pub copy_abs : D → D
  pub of_int : ℕ → D
  pub is_finite : D → Bool
  -- `Decimal(str(value))`; `none` is the exception
  pub parse : String → Option D

module _ {D : Type 0} ⦃d : Decimal D⦄ where
  infix 50 ◌⩽◌ ◌⋖◌
  infixl 65 ◌⊕◌ ◌⊖◌
  infixl 70 ◌⊗◌ ◌⊘◌
  abbrev pub ◌⩽◌ : D → D → Bool
  a ⩽ b = d.le a b

  abbrev pub ◌⋖◌ : D → D → Bool
  a ⋖ b = not (d.le b a)

  abbrev pub ◌⊕◌ : D → D → D
  a ⊕ b = d.add a b

  abbrev pub ◌⊖◌ : D → D → D
  a ⊖ b = d.sub a b

  abbrev pub ◌⊗◌ : D → D → D
  a ⊗ b = d.mul a b

  abbrev pub ◌⊘◌ : D → D → D
  a ⊘ b = d.div a b

  -- Python's `max(a, b)` and `min(a, b)` keep the first of two equal arguments.
  abbrev pub max : D → D → D
  max a b = if d.le b a then a else b

  abbrev pub min : D → D → D
  min a b = if d.le a b then a else b

  -- `a == b`; the truth value of a decimal is `not (a == 0)`
  abbrev pub is_equal : D → D → Bool
  is_equal a b = d.le a b && d.le b a

  abbrev pub is_zero : D → Bool
  is_zero a = d.le a d.nought && d.le d.nought a

-- The comparison of two decimals that are not NaN.
pub record IsOrdered (D : Type 0) ⦃d : Decimal D⦄ : Type 0 where
  pub le_refl : (a : D) → d.le a a ≡ true
  pub le_trans : (a b c : D) → d.le a b ≡ true → d.le b c ≡ true → d.le a c ≡ true
  pub le_total : (a b : D) → (d.le a b ≡ true) ⊎ (d.le b a ≡ true)

-- What rounding keeps: it is monotone, it is the identity at 0, and it keeps signs.
pub record IsRounded (D : Type 0) ⦃d : Decimal D⦄ : Type 0 where
  pub nought-le-one : d.le d.nought d.one ≡ true
  pub nought-le-abs : (a : D) → d.le d.nought (d.copy_abs a) ≡ true
  pub add_nonneg :
      (a b : D) → d.le d.nought a ≡ true → d.le d.nought b ≡ true → d.le d.nought (d.add a b) ≡ true
  pub sub_nonneg : (a b : D) → d.le b a ≡ true → d.le d.nought (d.sub a b) ≡ true
  pub sub_nonpos : (a b : D) → d.le a b ≡ true → d.le (d.sub a b) d.nought ≡ true
  pub negate_nonpos : (a : D) → d.le d.nought a ≡ true → d.le (d.negate a) d.nought ≡ true
  pub negate_nonneg : (a : D) → d.le a d.nought ≡ true → d.le d.nought (d.negate a) ≡ true
  pub mul_nonneg :
      (a b : D) → d.le d.nought a ≡ true → d.le d.nought b ≡ true → d.le d.nought (d.mul a b) ≡ true
  pub div_nonneg :
      (a b : D) → d.le d.nought a ≡ true → d.le d.nought b ≡ true → d.le d.nought (d.div a b) ≡ true
  pub div_nonpos :
      (a b : D) → d.le a d.nought ≡ true → d.le d.nought b ≡ true → d.le (d.div a b) d.nought ≡ true
  pub mul_nonpos :
      (a b : D) → d.le a d.nought ≡ true → d.le d.nought b ≡ true → d.le (d.mul a b) d.nought ≡ true
  pub of_int_nonneg : (n : ℕ) → d.le d.nought (d.of_int n) ≡ true
  pub add_mono : (a b c : D) → d.le a b ≡ true → d.le (d.add c a) (d.add c b) ≡ true
  pub sub_mono : (a b c : D) → d.le a b ≡ true → d.le (d.sub c b) (d.sub c a) ≡ true
  pub mul_mono :
      (a b c : D) → d.le a b ≡ true → d.le d.nought c ≡ true → d.le (d.mul c a) (d.mul c b) ≡ true
  pub div_mono :
      (a b c : D) → d.le a b ≡ true → d.le d.nought c ≡ true → d.le (d.div a c) (d.div b c) ≡ true
  pub add_le_add :
      (a b c e : D) → d.le a b ≡ true → d.le c e ≡ true → d.le (d.add a c) (d.add b e) ≡ true

-- Sums, products and bounds whose results fit in the context's 28 digits are exact: the laws for code
-- whose values do.
pub record IsExact (D : Type 0) ⦃d : Decimal D⦄ : Type 0 where
  pub nought-add : (a : D) → d.add d.nought a ≡ a
  pub add-nought : (a : D) → d.add a d.nought ≡ a
  pub add_assoc : (a b c : D) → d.add (d.add a b) c ≡ d.add a (d.add b c)
  pub add-add_sub : (a b c : D) → d.add (d.add a b) (d.sub c b) ≡ d.add a c
  pub add-mul : (a b c : D) → d.mul (d.add a b) c ≡ d.add (d.mul a c) (d.mul b c)
  pub negate-le : (a b : D) → d.le (d.negate a) (d.negate b) ≡ d.le b a
  pub sub-nought : (a : D) → d.sub a d.nought ≡ a
  pub mul-one : (a : D) → d.mul a d.one ≡ a
  pub nought-mul : (a : D) → d.mul d.nought a ≡ d.nought
  pub div-le :
      (a b c : D) → d.le b d.nought ≡ false → d.le a (d.mul b c) ≡ true → d.le (d.div a b) c ≡ true
  pub le-div :
      (a b c : D) → d.le b d.nought ≡ false → d.le (d.mul b c) a ≡ true → d.le c (d.div a b) ≡ true
