-- ===== src/Paper/Book/Fill.antt =====
-- What the simulated IOC fill promises (backend/app/services/paper_execution_simulator.py).
use copytrading_agent.Prelude.{Bool, true, false, ◌≡◌, some, List, [], ◌∷◌, arith, All}
use copytrading_agent.Decimal.{Decimal, IsOrdered, IsRounded, IsExact, ◌⩽◌, ◌⊕◌, ◌⊖◌, ◌⊗◌, min, max}
use copytrading_agent.Decimal.Order.{min-le_left, le-min, le-max_right}
use copytrading_agent.Paper.Book.{BookLevel, OrderBook, walk, simulate_ioc_fill, opposite_side}

module _ {D : Type 0} ⦃d : Decimal D⦄ where
  -- The sizes of a side of the book are not negative.
  abbrev pub HasSizes : List (BookLevel D) → Type 0
  HasSizes = All (λ level. (d.nought ⩽ level.size) ≡ true)

module _ {D : Type 0} ⦃d : Decimal D⦄ (order : IsOrdered D) (rounded : IsRounded D)
    (exact : IsExact D) where
  open order use {le_refl, le_trans, le_total}
  open rounded use {sub_nonneg, add_le_add, mul_mono, add_mono, nought-le-one}
  open exact use {nought-add, add-nought, add-add_sub, add-mul, nought-mul, div-le, le-div}

  -- A number grows by what is not negative.
  le-add : (a b : D) → (d.nought ⩽ b) ≡ true → (a ⩽ a ⊕ b) ≡ true
  le-add a b h = rw (add-nought a) at (add_mono d.nought b a h)

  module _ (is_buy : Bool) (limit : D) where
    walk_sizes :
        (levels : List (BookLevel D)) (remaining filled cost : D)
        → HasSizes levels
        → (d.nought ⩽ remaining) ≡ true
        → let size = (walk is_buy limit remaining filled cost levels).0 in
          ((filled ⩽ size) ≡ true) × ((size ⩽ filled ⊕ remaining) ≡ true)
    unfolding walk
    walk_sizes [] remaining filled cost s r = (le_refl filled, le-add filled remaining r)
    walk_sizes (level ∷ rest) remaining filled cost (s, ss) r =
        let take = min remaining level.size in
        let left = sub_nonneg remaining take (min-le_left order remaining level.size) in
        let later =
          walk_sizes rest (remaining ⊖ take) (filled ⊕ take) (cost ⊕ take ⊗ level.price) ss left in
        let size =
          (walk is_buy limit (remaining ⊖ take) (filled ⊕ take) (cost ⊕ take ⊗ level.price)
            rest).0 in
        ground (
          arith,
          le_refl filled,
          le-add filled remaining r,
          le-add filled take (le-min order remaining level.size d.nought r s),
          le_trans filled (filled ⊕ take) size,
          later,
          add-add_sub filled take remaining,
        )

  walk_cost_buy :
      (limit : D) (levels : List (BookLevel D)) (remaining filled cost : D)
      → HasSizes levels
      → (d.nought ⩽ remaining) ≡ true
      → (cost ⩽ filled ⊗ limit) ≡ true
      → let done = walk true limit remaining filled cost levels in (done.1 ⩽ done.0 ⊗ limit) ≡ true
  unfolding walk
  walk_cost_buy limit [] remaining filled cost s r h = h
  walk_cost_buy limit (level ∷ rest) remaining filled cost (s, ss) r h =
      let take = min remaining level.size in
      let left = sub_nonneg remaining take (min-le_left order remaining level.size) in
      let taken = le-min order remaining level.size d.nought r s in
      ground (
        arith,
        walk_cost_buy limit rest (remaining ⊖ take) (filled ⊕ take) (cost ⊕ take ⊗ level.price) ss
            left,
        add-mul filled take limit,
        mul_mono level.price limit take,
        taken,
        add_le_add cost (filled ⊗ limit) (take ⊗ level.price) (take ⊗ limit),
      )

  walk_cost_sell :
      (limit : D) (levels : List (BookLevel D)) (remaining filled cost : D)
      → HasSizes levels
      → (d.nought ⩽ remaining) ≡ true
      → (filled ⊗ limit ⩽ cost) ≡ true
      → let done = walk false limit remaining filled cost levels in (done.0 ⊗ limit ⩽ done.1) ≡ true
  unfolding walk
  walk_cost_sell limit [] remaining filled cost s r h = h
  walk_cost_sell limit (level ∷ rest) remaining filled cost (s, ss) r h =
      let take = min remaining level.size in
      let left = sub_nonneg remaining take (min-le_left order remaining level.size) in
      let taken = le-min order remaining level.size d.nought r s in
      ground (
        arith,
        walk_cost_sell limit rest (remaining ⊖ take) (filled ⊕ take) (cost ⊕ take ⊗ level.price) ss
            left,
        add-mul filled take limit,
        mul_mono limit level.price take,
        taken,
        add_le_add (filled ⊗ limit) cost (take ⊗ limit) (take ⊗ level.price),
      )

  -- Where the arithmetic is exact, an IOC order fills no more than it asks for, and never a negative
  -- size.
  pub simulate_ioc_fill_bounds :
      (book : OrderBook D) (is_buy : Bool) (size limit : D)
      → HasSizes (opposite_side book is_buy)
      → let filled = (simulate_ioc_fill book is_buy size limit).filled_size in
        ((d.nought ⩽ filled) ≡ true) × ((filled ⩽ max size d.nought) ≡ true)
  unfolding simulate_ioc_fill
  simulate_ioc_fill_bounds book is_buy size limit sizes =
      let asked = max size d.nought in
      let (low, high) =
        walk_sizes is_buy limit (opposite_side book is_buy) asked d.nought d.nought sizes
          (le-max_right order size d.nought) in
      (low, rw (nought-add asked) at high)

  -- Where the arithmetic is exact, the average price of a fill respects the limit: a buy pays at most
  -- the limit price, and a sell receives at least it.
  pub simulate_ioc_fill-limit :
      (book : OrderBook D) (is_buy : Bool) (size limit : D) {price : D}
      → HasSizes (opposite_side book is_buy)
      → (simulate_ioc_fill book is_buy size limit).average_price ≡ some price
      → (is_buy ≡ true → (price ⩽ limit) ≡ true) × (is_buy ≡ false → (limit ⩽ price) ≡ true)
  unfolding simulate_ioc_fill
  simulate_ioc_fill-limit book true size limit sizes h =
      let asked = max size d.nought in
      let done = walk true limit asked d.nought d.nought book.asks in
      let start : (d.nought ⩽ d.nought ⊗ limit) ≡ true = rw (nought-mul limit) (le_refl d.nought) in
      let cost =
        walk_cost_buy limit book.asks asked d.nought d.nought sizes
          (le-max_right order size d.nought) start in
      ground (arith, cost, div-le done.1 done.0 limit)
  simulate_ioc_fill-limit book false size limit sizes h =
      let asked = max size d.nought in
      let done = walk false limit asked d.nought d.nought book.bids in
      let start : (d.nought ⊗ limit ⩽ d.nought) ≡ true = rw (nought-mul limit) (le_refl d.nought) in
      let cost =
        walk_cost_sell limit book.bids asked d.nought d.nought sizes
          (le-max_right order size d.nought) start in
      ground (arith, cost, le-div done.1 done.0 limit)
