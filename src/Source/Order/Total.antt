-- ===== src/Source/Order/Total.antt =====
-- The order of source fills is strict and total:
-- backend/app/services/source_fill_ordering.py.
use Prim.Native.Char.{code}
use text.Mathlib.TextEquality.{Char-path}
use copytrading_agent.Prelude.{String, ◌≡◌, ◌⊎◌, refl, true, false, Option, none, some, arith}
use copytrading_agent.Decimal.{Decimal, IsOrdered}
use copytrading_agent.Source.Order.{text_before, SourceFillOrderKey, fill_id_before, key_before}

pub text_before_irrefl : (s : String) → text_before s s ≡ false
unfolding text_before
text_before_irrefl String.[] = refl
text_before_irrefl (String.◌∷◌ c s) = ground (arith, text_before_irrefl s)

text_before_trans :
    (s t u : String) → text_before s t ≡ true → text_before t u ≡ true → text_before s u ≡ true
unfolding text_before
text_before_trans s String.[] u h k = cc
text_before_trans s (String.◌∷◌ e t) String.[] h k = cc
text_before_trans String.[] (String.◌∷◌ e t) (String.◌∷◌ f u) h k = refl
text_before_trans (String.◌∷◌ c s) (String.◌∷◌ e t) (String.◌∷◌ f u) h k =
    ground (arith, text_before_trans s t u)

text_before_connected : (s t : String) → text_before s t ≡ false → text_before t s ≡ false → s ≡ t
unfolding text_before
text_before_connected String.[] String.[] h k = refl
text_before_connected String.[] (String.◌∷◌ e t) h k = cc
text_before_connected (String.◌∷◌ c s) String.[] h k = cc
text_before_connected (String.◌∷◌ c s) (String.◌∷◌ e t) h k =
    let same_code : code c ≡ code e = ground arith in
    let later : text_before s t ≡ false = ground arith in
    let earlier : text_before t s ≡ false = ground arith in
    cc (Char-path c e same_code, text_before_connected s t later earlier)

text_before_asym : (s t : String) → text_before s t ≡ true → text_before t s ≡ false
text_before_asym s t h = ground (arith, text_before_irrefl s, text_before_trans s t s)

module _ {D : Type 0} ⦃d : Decimal D⦄ (order : IsOrdered D) where
  open order use {le_refl, le_trans, le_total}

  fill_id_before_irrefl : (m : Option D) (s : String) → fill_id_before m m s s ≡ false
  unfolding fill_id_before
  fill_id_before_irrefl none s = text_before_irrefl s
  fill_id_before_irrefl (some m) s = ground (arith, le_refl m, text_before_irrefl s)

  fill_id_before_trans :
      (m n p : Option D) (s t u : String)
      → fill_id_before m n s t ≡ true
      → fill_id_before n p t u ≡ true
      → fill_id_before m p s u ≡ true
  unfolding fill_id_before
  fill_id_before_trans none none none s t u h k = text_before_trans s t u h k
  fill_id_before_trans none none (some p) s t u h k = k
  fill_id_before_trans none (some n) p s t u h k = cc
  fill_id_before_trans (some m) none none s t u h k = refl
  fill_id_before_trans (some m) none (some p) s t u h k = cc
  fill_id_before_trans (some m) (some n) none s t u h k = refl
  fill_id_before_trans (some m) (some n) (some p) s t u h k = ground (
    arith,
    le_trans m n p,
    le_trans n p m,
    le_trans p m n,
    le_total m n,
    le_total n p,
    text_before_trans s t u,
  )

  fill_id_before_connected :
      (m n : Option D) (s t : String)
      → fill_id_before m n s t ≡ false
      → fill_id_before n m t s ≡ false
      → s ≡ t
  unfolding fill_id_before
  fill_id_before_connected none none s t h k = text_before_connected s t h k
  fill_id_before_connected none (some n) s t h k = cc
  fill_id_before_connected (some m) none s t h k = cc
  fill_id_before_connected (some m) (some n) s t h k =
      let first : text_before s t ≡ false = ground arith in
      let second : text_before t s ≡ false = ground arith in text_before_connected s t first second

  pub key_before_irrefl : (a : SourceFillOrderKey D) → key_before a a ≡ false
  unfolding key_before
  key_before_irrefl a = ground (
    arith,
    text_before_irrefl a.coin,
    le_refl a.position_rank,
    fill_id_before_irrefl a.numeric_fill_id a.source_fill_id,
  )

  -- Of two fills one comes before the other, or they have the same identifier, time and coin.
  pub key_before_connected :
      (a b : SourceFillOrderKey D)
      → (key_before a b ≡ true)
        ⊎ ((key_before b a ≡ true)
            ⊎ ((a.source_fill_id ≡ b.source_fill_id)
                × (a.timestamp_ms ≡ b.timestamp_ms)
                × (a.coin ≡ b.coin)))
  unfolding key_before
  key_before_connected a b = ground (
    arith,
    text_before_connected a.coin b.coin,
    fill_id_before_connected a.numeric_fill_id b.numeric_fill_id a.source_fill_id b.source_fill_id,
  )

  key_before-after :
      (a b c : SourceFillOrderKey D)
      → key_before a b ≡ true
      → key_before b c ≡ true
      → key_before a c ≡ true
  unfolding key_before
  key_before-after a b c h k = ground (
    arith,
    le_total a.position_rank b.position_rank,
    le_total b.position_rank c.position_rank,
    text_before_irrefl a.coin,
    text_before_irrefl b.coin,
    text_before_irrefl c.coin,
    text_before_connected a.coin b.coin,
    text_before_connected b.coin c.coin,
    text_before_trans a.coin b.coin c.coin,
    text_before_asym c.coin a.coin,
    text_before_asym a.coin b.coin,
    text_before_asym b.coin c.coin,
    le_trans a.position_rank b.position_rank c.position_rank,
    le_trans b.position_rank c.position_rank a.position_rank,
    le_trans c.position_rank a.position_rank b.position_rank,
    le_trans c.position_rank b.position_rank a.position_rank,
    le_trans b.position_rank a.position_rank c.position_rank,
    le_trans a.position_rank c.position_rank b.position_rank,
    fill_id_before_trans a.numeric_fill_id b.numeric_fill_id c.numeric_fill_id a.source_fill_id
        b.source_fill_id c.source_fill_id,
  )

  -- A fill that comes before a second, which comes before a third, comes before the third, and the
  -- third does not come before it.
  pub key_before_trans :
      (a b c : SourceFillOrderKey D)
      → key_before a b ≡ true
      → key_before b c ≡ true
      → (key_before a c ≡ true) × (key_before c a ≡ false)
  key_before_trans a b c h k =
      let first = key_before-after a b c h k in
      (first, ground (arith, first, key_before-after a c a first, key_before_irrefl a))
