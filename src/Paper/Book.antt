-- ===== src/Paper/Book.antt =====
-- The order book and the simulated IOC fill: backend/app/services/paper_execution_simulator.py.
pub mod Fill
pub mod Sorted
use copytrading_agent.Prelude.{
  ℕ, String, Bool, true, false, not, ◌&&◌, ◌||◌, Option, none, some, List, [], ◌∷◌, if◌then◌else◌,
}
use copytrading_agent.Decimal.{Decimal, ◌⩽◌, ◌⋖◌, ◌⊕◌, ◌⊖◌, ◌⊗◌, ◌⊘◌, min, max}
use copytrading_agent.Signal.Parts.{decimal_or_none}

pub record BookLevel (D : Type 0) : Type 0 where
  pub price : D
  pub size : D

pub record OrderBook (D : Type 0) : Type 0 where
  pub bids : List (BookLevel D)
  pub asks : List (BookLevel D)

pub record IocFill (D : Type 0) : Type 0 where
  pub requested_size : D
  pub filled_size : D
  pub average_price : Option D
  pub limit_price : D

-- A level of an l2Book response: `px` and `sz`, if they are there.
pub record RawLevel : Type 0 where
  pub px : Option String
  pub sz : Option String

-- `levels` of a response, `none` where it is no list; so for each side, and for each level that is no
-- dictionary.
abbrev pub RawSide : Type 0
RawSide = Option (List (Option RawLevel))

module _ {D : Type 0} ⦃d : Decimal D⦄ where
  unfoldable pub partial : IocFill D → Bool
  partial fill = d.nought ⋖ fill.filled_size && fill.filled_size ⋖ fill.requested_size

  unfoldable pub unfilled : IocFill D → Bool
  unfilled fill = fill.filled_size ⩽ d.nought

  parse_level : Option RawLevel → Option (BookLevel D)
  parse_level none = none
  parse_level (some raw) = elim (decimal_or_none raw.px) [
    | none ↦ none
    | some price ↦ elim (decimal_or_none raw.sz) [
      | none ↦ none
      | some size ↦
          if d.nought ⋖ price && d.nought ⋖ size
          then some (record { price = price; size = size })
          else none
    ]
  ]

  parse_listed : List (Option RawLevel) → List (BookLevel D)
  unfolding parse_level
  parse_listed [] = []
  parse_listed (raw ∷ rest) =
      let levels = parse_listed rest in
      elim (parse_level raw) [ none ↦ levels | some level ↦ level ∷ levels ]

  unfoldable pub parse_levels : RawSide → List (BookLevel D)
  unfolding parse_listed
  parse_levels none = []
  parse_levels (some raw_levels) = parse_listed raw_levels

  -- Python's `sorted` by price: stable, also when reversed. `before x y` keeps `x` ahead of `y`.
  insert_level :
      (BookLevel D → BookLevel D → Bool) → BookLevel D → List (BookLevel D) → List (BookLevel D)
  insert_level before x [] = x ∷ []
  insert_level before x (y ∷ ys) =
      let later = y ∷ insert_level before x ys in if before x y then x ∷ y ∷ ys else later

  pub sort_levels : (BookLevel D → BookLevel D → Bool) → List (BookLevel D) → List (BookLevel D)
  unfolding insert_level
  sort_levels before [] = []
  sort_levels before (x ∷ xs) = insert_level before x (sort_levels before xs)

  abbrev pub price_ascending : BookLevel D → BookLevel D → Bool
  price_ascending x y = x.price ⩽ y.price

  abbrev pub price_descending : BookLevel D → BookLevel D → Bool
  price_descending x y = y.price ⩽ x.price

  abbrev pub book_of : List (BookLevel D) → List (BookLevel D) → Option (OrderBook D)
  book_of [] [] = none
  book_of (b ∷ bids) asks = some (record { bids = b ∷ bids; asks = asks })
  book_of [] (a ∷ asks) = some (record { bids = []; asks = a ∷ asks })

  -- The payload's `levels`, `none` where there is no such list.
  unfoldable pub parse_order_book : Option (List RawSide) → Option (OrderBook D)
  unfolding parse_levels sort_levels
  parse_order_book (some (raw_bids ∷ raw_asks ∷ rest)) =
      book_of (sort_levels price_descending (parse_levels raw_bids))
        (sort_levels price_ascending (parse_levels raw_asks))
  parse_order_book _ = none

  unfoldable pub ioc_limit_price : D → Bool → D → D
  ioc_limit_price observed_price is_buy slippage_bps =
      let offset = observed_price ⊗ slippage_bps ⊘ d.of_int 10_000 in
      if is_buy then observed_price ⊕ offset else observed_price ⊖ offset

  -- The level is beyond the limit price.
  abbrev pub is_beyond : Bool → D → BookLevel D → Bool
  is_beyond is_buy limit_price level =
      is_buy && limit_price ⋖ level.price || not is_buy && level.price ⋖ limit_price

  -- The loop of `simulate_ioc_fill`: the filled size and its cost.
  walk : Bool → D → D → D → D → List (BookLevel D) → D × D
  walk is_buy limit_price remaining filled cost [] = (filled, cost)
  walk is_buy limit_price remaining filled cost (level ∷ rest) =
      let take = min remaining level.size in
      let further =
        walk is_buy limit_price (remaining ⊖ take) (filled ⊕ take) (cost ⊕ take ⊗ level.price)
          rest in
      if remaining ⩽ d.nought || is_beyond is_buy limit_price level then (filled, cost) else further

  abbrev pub opposite_side : OrderBook D → Bool → List (BookLevel D)
  opposite_side book is_buy = if is_buy then book.asks else book.bids

  unfoldable pub simulate_ioc_fill : OrderBook D → Bool → D → D → IocFill D
  unfolding walk
  simulate_ioc_fill book is_buy size limit_price =
      let (filled, cost) =
        walk is_buy limit_price (max size d.nought) d.nought d.nought (opposite_side book is_buy) in
      record {
        requested_size = size;
        filled_size = filled;
        average_price = if d.nought ⋖ filled then some (cost ⊘ filled) else none;
        limit_price = limit_price;
      }
