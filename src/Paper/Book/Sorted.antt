-- ===== src/Paper/Book/Sorted.antt =====
-- What the parsed order book promises (backend/app/services/paper_execution_simulator.py).
use mathlib.Core.List.{Perm}
use mathlib.Core.List.Perm
use copytrading_agent.Prelude.{
  Bool, true, ◌≡◌, ◌⊎◌, Option, none, some, List, [], ◌∷◌, arith, All, Bool-cases, inl, inr,
}
use copytrading_agent.Decimal.{Decimal, IsOrdered, ◌⋖◌}
use copytrading_agent.Paper.Book.{
  BookLevel, OrderBook, RawLevel, RawSide, parse_listed, parse_levels, insert_level, sort_levels,
  book_of, parse_order_book, price_ascending, price_descending,
}

module _ {D : Type 0} ⦃d : Decimal D⦄ where
  -- Each level stands before the next.
  abbrev pub IsSorted : (BookLevel D → BookLevel D → Bool) → List (BookLevel D) → Type 0
  IsSorted before [] = Unit
  IsSorted before (x ∷ []) = Unit
  IsSorted before (x ∷ y ∷ rest) = (before x y ≡ true) × IsSorted before (y ∷ rest)

  -- A level that can be traded with: a positive price and a positive size.
  abbrev pub IsTradable : BookLevel D → Type 0
  IsTradable level = ((d.nought ⋖ level.price) ≡ true) × ((d.nought ⋖ level.size) ≡ true)

  insert_level-All :
      (before : BookLevel D → BookLevel D → Bool) (P : BookLevel D → Type 0) (x : BookLevel D)
      (xs : List (BookLevel D))
      → P x
      → All P xs
      → All P (insert_level before x xs)
  unfolding insert_level
  insert_level-All before P x [] h hs = (h, tt)
  insert_level-All before P x (y ∷ ys) h (k, ks) = elim (Bool-cases (before x y)) [
    | inl e ↦ rw e (h, (k, ks))
    | inr e ↦ rw e (k, insert_level-All before P x ys h ks)
  ]

  sort_levels-All :
      (before : BookLevel D → BookLevel D → Bool) (P : BookLevel D → Type 0)
      (xs : List (BookLevel D))
      → All P xs
      → All P (sort_levels before xs)
  unfolding sort_levels
  sort_levels-All before P [] hs = tt
  sort_levels-All before P (x ∷ xs) (h, hs) =
      insert_level-All before P x (sort_levels before xs) h (sort_levels-All before P xs hs)

  insert_level-perm :
      (before : BookLevel D → BookLevel D → Bool) (x : BookLevel D) (xs : List (BookLevel D))
      → Perm (insert_level before x xs) (x ∷ xs)
  unfolding insert_level
  insert_level-perm before x [] = Perm.refl (x ∷ [])
  insert_level-perm before x (y ∷ ys) = elim (Bool-cases (before x y)) [
    | inl e ↦ rw e (Perm.refl (x ∷ y ∷ ys))
    | inr e ↦ rw e (Perm.trans (Perm.cons y (insert_level-perm before x ys)) (Perm.swap x y ys))
  ]

  pub sort_levels-perm :
      (before : BookLevel D → BookLevel D → Bool) (xs : List (BookLevel D))
      → Perm (sort_levels before xs) xs
  unfolding sort_levels
  sort_levels-perm before [] = Perm.refl []
  sort_levels-perm before (x ∷ xs) =
      Perm.trans (insert_level-perm before x (sort_levels before xs))
        (Perm.cons x (sort_levels-perm before xs))

  module _ (before : BookLevel D → BookLevel D → Bool)
      (total : (x y : BookLevel D) → (before x y ≡ true) ⊎ (before y x ≡ true)) where
    insert_level-IsSorted :
        (x : BookLevel D) (xs : List (BookLevel D))
        → IsSorted before xs
        → IsSorted before (insert_level before x xs)
    unfolding insert_level
    insert_level-IsSorted x [] s = tt
    insert_level-IsSorted x (y ∷ []) s = ground (arith, total x y)
    insert_level-IsSorted x (y ∷ z ∷ rest) (b, s) =
        ground (arith, total x y, insert_level-IsSorted x (z ∷ rest) s)

    sort_levels-IsSorted : (xs : List (BookLevel D)) → IsSorted before (sort_levels before xs)
    unfolding sort_levels
    sort_levels-IsSorted [] = tt
    sort_levels-IsSorted (x ∷ xs) =
        insert_level-IsSorted x (sort_levels before xs) (sort_levels-IsSorted xs)

module _ (D : Type 0) ⦃d : Decimal D⦄ where
  parse_listed-IsTradable :
      (raw : List (Option RawLevel)) → All (IsTradable {D = D}) (parse_listed raw)
  unfolding parse_listed
  parse_listed-IsTradable [] = tt
  parse_listed-IsTradable (raw ∷ rest) = ground (arith, parse_listed-IsTradable rest)

  parse_levels-IsTradable : (raw : RawSide) → All (IsTradable {D = D}) (parse_levels raw)
  unfolding parse_levels
  parse_levels-IsTradable none = tt
  parse_levels-IsTradable (some raw) = parse_listed-IsTradable raw

module _ {D : Type 0} ⦃d : Decimal D⦄ (order : IsOrdered D) where
  open order use {le_total}

  -- A side of a book: sorted, tradable, and the parsed levels of the response in another order.
  pub record IsSide (before : BookLevel D → BookLevel D → Bool) (raw : RawSide)
      (levels : List (BookLevel D)) : Type 0 where
    pub sorted : IsSorted before levels
    pub tradable : All IsTradable levels
    pub same : Perm levels (parse_levels raw)

  sort_levels-IsSide :
      (before : BookLevel D → BookLevel D → Bool) (raw : RawSide)
      → ((x y : BookLevel D) → (before x y ≡ true) ⊎ (before y x ≡ true))
      → IsSide before raw (sort_levels before (parse_levels raw))
  sort_levels-IsSide before raw total = record {
    sorted = sort_levels-IsSorted before total (parse_levels raw);
    tradable = sort_levels-All before IsTradable (parse_levels raw) (parse_levels-IsTradable D raw);
    same = sort_levels-perm before (parse_levels raw);
  }

  book_of-sides :
      (bids asks : List (BookLevel D)) (book : OrderBook D)
      → book_of bids asks ≡ some book
      → (book.bids ≡ bids) × (book.asks ≡ asks)
  book_of-sides [] [] book h = cc
  book_of-sides [] (a ∷ asks) book h = ground arith
  book_of-sides (b ∷ bids) asks book h = ground arith

  -- Whatever a response holds, the bids of its book fall and its asks rise in price, every level has a
  -- positive price and size, and each side holds just the levels of the response that can be read.
  pub parse_order_book-IsSide :
      (raw_bids raw_asks : RawSide) (more : List RawSide) (book : OrderBook D)
      → parse_order_book (some (raw_bids ∷ raw_asks ∷ more)) ≡ some book
      → IsSide price_descending raw_bids book.bids × IsSide price_ascending raw_asks book.asks
  unfolding parse_order_book
  parse_order_book-IsSide raw_bids raw_asks more book h =
      let (bids, asks) =
        book_of-sides (sort_levels price_descending (parse_levels raw_bids))
          (sort_levels price_ascending (parse_levels raw_asks)) book h in
      (
        rw bids (sort_levels-IsSide price_descending raw_bids λ x y. le_total y.price x.price),
        rw asks (sort_levels-IsSide price_ascending raw_asks λ x y. le_total x.price y.price),
      )
