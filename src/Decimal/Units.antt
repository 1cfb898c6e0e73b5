-- ===== src/Decimal/Units.antt =====
-- Whole units as decimals: a type at which the laws hold, for the examples.
use native.Mathlib.Nat.{mul-le-mul_left, div-le_of_le-mul}
use Prim.Native.Char.{code}
use copytrading_agent.Prelude.{
  String, Option, some, leb, ◌&&◌, if◌then◌else◌, ◌-◌, ℕ, suc, ◌+◌, ◌*◌, ◌/◌, ◌<◌, ◌≤◌, ◌≡◌, refl,
  ap, true, false, none, arith,
}
use copytrading_agent.Prelude.Int.{
  ℤ, pos, negsuc, pos_part, neg_part, ◌+ℤ◌, ◌-ℤ◌, ◌*ℤ◌, ◌/ℤ◌, leb_ℤ,
}
use copytrading_agent.Decimal.{Decimal, IsOrdered, IsRounded, IsExact}

abbrev pub magnitude : ℤ → ℤ
magnitude (pos n) = pos n
magnitude (negsuc n) = pos (neg_part (negsuc n))

-- The digits of a text, after the number that was read before them.
abbrev read_digits : String → ℕ → Option ℤ
read_digits String.[] n = some (pos n)
read_digits (String.◌∷◌ c s) n =
    let rest = read_digits s (n * 10 + (code c - 48)) in
    if leb 48 (code c) && leb (code c) 57 then rest else none

-- A text of digits; the empty text is no number.
abbrev pub parse_units : String → Option ℤ
parse_units String.[] = none
parse_units (String.◌∷◌ c s) = read_digits (String.◌∷◌ c s) 0

instance abbrev pub units_decimal : Decimal ℤ
units_decimal = record {
  nought = pos 0;
  one = pos 1;
  le = leb_ℤ;
  add = ◌+ℤ◌;
  sub = ◌-ℤ◌;
  mul = ◌*ℤ◌;
  div = ◌/ℤ◌;
  negate = λ a. pos 0 -ℤ a;
  copy_abs = magnitude;
  of_int = pos;
  is_finite = λ _. true;
  parse = parse_units;
}

pub units-IsOrdered : IsOrdered ℤ
units-IsOrdered = record {
  le_refl = λ a. ground arith;
  le_trans = λ a b c. ground arith;
  le_total = λ a b. ground arith;
}

mul_mono_units :
    (a b c : ℤ) → leb_ℤ a b ≡ true → leb_ℤ (pos 0) c ≡ true → leb_ℤ (c *ℤ a) (c *ℤ b) ≡ true
unfolding ◌*ℤ◌
mul_mono_units (pos a) (pos b) (pos n) h _ =
    let le : a ≤ b = ground arith in ground (arith, mul-le-mul_left n le)
mul_mono_units (negsuc a) (negsuc b) (pos n) h _ =
    let le : suc b ≤ suc a = ground arith in ground (arith, mul-le-mul_left n le)
mul_mono_units a b c h e = ground arith

div-le-div : (a b n : ℕ) → a ≤ b → a / n ≤ b / n
div-le-div a b n h = grind arith

div_mono_units :
    (a b c : ℤ) → leb_ℤ a b ≡ true → leb_ℤ (pos 0) c ≡ true → leb_ℤ (a /ℤ c) (b /ℤ c) ≡ true
unfolding ◌/ℤ◌
div_mono_units (pos a) (pos b) (pos n) h _ =
    let le : a ≤ b = ground arith in ground (arith, div-le-div _ _ n le)
div_mono_units (negsuc a) (negsuc b) (pos n) h _ =
    let le : suc b ≤ suc a = ground arith in ground (arith, div-le-div _ _ n le)
div_mono_units a b c h e = ground arith

pub units-IsRounded : IsRounded ℤ
unfolding ◌+ℤ◌ ◌-ℤ◌ ◌*ℤ◌ ◌/ℤ◌
units-IsRounded = record {
  nought-le-one = refl;
  nought-le-abs = λ a. ground arith;
  add_nonneg = λ a b. ground arith;
  sub_nonneg = λ a b. ground arith;
  sub_nonpos = λ a b. ground arith;
  negate_nonpos = λ a. ground arith;
  negate_nonneg = λ a. ground arith;
  mul_nonneg = λ a b. ground arith;
  div_nonneg = λ a b. ground arith;
  div_nonpos = λ a b. ground arith;
  mul_nonpos = λ a b. ground arith;
  of_int_nonneg = λ n. ground arith;
  add_mono = λ a b c. ground arith;
  sub_mono = λ a b c. ground arith;
  mul_mono = mul_mono_units;
  div_mono = div_mono_units;
  add_le_add = λ a b c e. ground arith;
}

le-div_of_mul-le : (a n c : ℕ) → 0 < n → n * c ≤ a → c ≤ a / n
le-div_of_mul-le a n c p h = grind arith

add_parts :
    (a b : ℤ)
    → pos_part (a +ℤ b) + neg_part a + neg_part b ≡ neg_part (a +ℤ b) + pos_part a + pos_part b
unfolding ◌+ℤ◌
add_parts a b = ground arith

mul_parts :
    (a b : ℤ)
    → pos_part (a *ℤ b) + (pos_part a * neg_part b + neg_part a * pos_part b)
      ≡ neg_part (a *ℤ b) + (pos_part a * pos_part b + neg_part a * neg_part b)
unfolding ◌*ℤ◌
mul_parts a b = ground arith

eq_of_parts : (a b : ℤ) → pos_part a + neg_part b ≡ pos_part b + neg_part a → a ≡ b
eq_of_parts a b h = ground arith

add-mul_units : (a b c : ℤ) → (a +ℤ b) *ℤ c ≡ a *ℤ c +ℤ b *ℤ c
add-mul_units a b c = eq_of_parts ((a +ℤ b) *ℤ c) (a *ℤ c +ℤ b *ℤ c) (
    omega (
      arith,
      add_parts (a *ℤ c) (b *ℤ c),
      mul_parts (a +ℤ b) c,
      mul_parts a c,
      mul_parts b c,
      ap (λ (t : ℕ). t * pos_part c) (add_parts a b),
      ap (λ (t : ℕ). t * neg_part c) (add_parts a b),
    ))

div-le_units :
    (a b c : ℤ) → leb_ℤ b (pos 0) ≡ false → leb_ℤ a (b *ℤ c) ≡ true → leb_ℤ (a /ℤ b) c ≡ true
unfolding ◌*ℤ◌ ◌/ℤ◌
div-le_units (pos a) (pos n) (pos c) p h =
    let le : a ≤ n * c = ground arith in ground (arith, div-le_of_le-mul n le)
div-le_units (pos a) (pos n) (negsuc c) p h = grind arith
div-le_units (negsuc a) (pos n) (pos c) p h = ground arith
div-le_units (negsuc a) (pos n) (negsuc c) p h =
    let le : n * suc c ≤ suc a = ground arith in
    let lt : 0 < n = ground arith in ground (arith, le-div_of_mul-le (suc a) n (suc c) lt le)
div-le_units a (negsuc n) c p h = ground arith

le-div_units :
    (a b c : ℤ) → leb_ℤ b (pos 0) ≡ false → leb_ℤ (b *ℤ c) a ≡ true → leb_ℤ c (a /ℤ b) ≡ true
unfolding ◌*ℤ◌ ◌/ℤ◌
le-div_units (pos a) (pos n) (pos c) p h =
    let le : n * c ≤ a = ground arith in
    let lt : 0 < n = ground arith in ground (arith, le-div_of_mul-le a n c lt le)
le-div_units (pos a) (pos n) (negsuc c) p h = ground arith
le-div_units (negsuc a) (pos n) (pos c) p h = grind arith
le-div_units (negsuc a) (pos n) (negsuc c) p h =
    let le : suc a ≤ n * suc c = ground arith in ground (arith, div-le_of_le-mul n le)
le-div_units a (negsuc n) c p h = ground arith

add_assoc_units : (a b c : ℤ) → (a +ℤ b) +ℤ c ≡ a +ℤ (b +ℤ c)
unfolding ◌+ℤ◌
add_assoc_units a b c = ground arith

pub units-IsExact : IsExact ℤ
unfolding ◌+ℤ◌ ◌-ℤ◌ ◌*ℤ◌ ◌/ℤ◌
units-IsExact = record {
  nought-add = λ a. ground arith;
  add-nought = λ a. ground arith;
  add_assoc = add_assoc_units;
  add-add_sub = λ a b c. ground arith;
  add-mul = add-mul_units;
  negate-le = λ a b. ground arith;
  sub-nought = λ a. ground arith;
  mul-one = λ a. ground arith;
  nought-mul = λ a. ground arith;
  div-le = div-le_units;
  le-div = le-div_units;
}
