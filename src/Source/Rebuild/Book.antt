-- ===== src/Source/Rebuild/Book.antt =====
-- What the books hold after any fills:
-- backend/app/services/source_trade_reconstruction_service.py.
use mathlib.Core.Path.{subst}
use text.Mathlib.Text.{◌==◌ as str_eq}
use copytrading_agent.Prelude.{
  ℕ, sym, ap, not, String, ◌≡◌, true, some, List, [], ◌∷◌, arith, if◌then◌else◌, Bool-cases,
  Option-cases, inl, inr,
}
use copytrading_agent.Decimal.{Decimal, IsOrdered, IsRounded, IsExact, ◌⩽◌, ◌⋖◌}
use copytrading_agent.Trade.{TradeSide, long, short}
use copytrading_agent.Source.Trade.{OpenSourceTrade, is_closed, new_trade}
use copytrading_agent.Source.Trade.Sizes.{IsOpen, add_entry-IsOpen, add_close-IsOpen}
use copytrading_agent.Signal.Pricing.{is_preexisting_source_add}
use copytrading_agent.Source.Wallet.{
  new_wallet_trades, unmatched_close, preexisting_open, ReconstructedWalletTrades, IgnoreReason,
}
use copytrading_agent.Source.Wallet.Totals.{
  IsSound, new_wallet_trades-IsSound, record_ignored_fill-IsSound, record_closed_trade-IsSound,
  record_open_trade-IsSound,
}
use copytrading_agent.Source.Rebuild.{
  TradeFillRow, FillParts, TradeKey, TradeBooks, get_trade, put_trade, pop_trade, on_wallet, key_of,
  apply_open, apply_close, after_close, ignore, apply_flip, split_flip_size, proportional_fill,
  opening_of, process_trade_fill, apply_direction, fill_of, key_eq, process_all,
  reconstruct_wallet_trades, record_all_open, empty_books, entered,
}

abbrev pub AllValues : {K V : Type 0} → (V → Type 0) → List (K × V) → Type 0
AllValues P [] = Unit
AllValues P ((k, v) ∷ rest) = P v × AllValues P rest

module _ {V : Type 0} (P : V → Type 0) where
  get_trade-All :
      (key : TradeKey) (trades : List (TradeKey × V)) (t : V)
      → AllValues P trades
      → get_trade key trades ≡ some t
      → P t
  unfolding get_trade
  get_trade-All key [] t h e = absurd (ground arith)
  get_trade-All key ((k, u) ∷ rest) t h e = elim (Bool-cases (key_eq k key)) [
    | inl b ↦ let q : u ≡ t = ground arith in subst P q h.0
    | inr b ↦ get_trade-All key rest t h.1 (ground arith)
  ]

  put_trade-All :
      (key : TradeKey) (t : V) (trades : List (TradeKey × V))
      → P t
      → AllValues P trades
      → AllValues P (put_trade key t trades)
  unfolding put_trade
  put_trade-All key t [] p h = (p, tt)
  put_trade-All key t ((k, u) ∷ rest) p h = elim (Bool-cases (key_eq k key)) [
    | inl b ↦ rw b (p, h.1)
    | inr b ↦ rw b (h.0, put_trade-All key t rest p h.1)
  ]

  pop_trade-All :
      (key : TradeKey) (trades : List (TradeKey × V))
      → AllValues P trades
      → AllValues P (pop_trade key trades)
  unfolding pop_trade
  pop_trade-All key [] h = tt
  pop_trade-All key ((k, u) ∷ rest) h = elim (Bool-cases (key_eq k key)) [
    | inl b ↦ rw b h.1
    | inr b ↦ rw b (h.0, pop_trade-All key rest h.1)
  ]

module _ {D : Type 0} ⦃d : Decimal D⦄ where
  -- Every open trade is balanced, and every wallet's totals agree.
  pub record IsBook (books : TradeBooks D) : Type 0 where
    pub trades : AllValues IsOpen books.open_trades
    pub sound : AllValues IsSound books.wallets

module _ {D : Type 0} ⦃d : Decimal D⦄ (order : IsOrdered D) (rounded : IsRounded D)
    (exact : IsExact D) where
  open order use {le_refl, le_trans, le_total}
  open rounded use {sub_nonpos}

  on_wallet-All :
      (key : String) (f : ReconstructedWalletTrades D → ReconstructedWalletTrades D)
      (wallets : List (String × ReconstructedWalletTrades D))
      → ((w : ReconstructedWalletTrades D) → IsSound w → IsSound (f w))
      → AllValues IsSound wallets
      → AllValues IsSound (on_wallet key f wallets)
  unfolding on_wallet
  on_wallet-All key f [] keep h = (
    keep (new_wallet_trades key) (
        new_wallet_trades-IsSound order rounded key
          (sub_nonpos d.nought d.nought (le_refl d.nought))),
    tt,
  )
  on_wallet-All key f ((k, w) ∷ rest) keep h = elim (Bool-cases (str_eq k key)) [
    | inl b ↦ rw b (keep w h.0, h.1)
    | inr b ↦ rw b (h.0, on_wallet-All key f rest keep h.1)
  ]

  ignore-All :
      (fill : FillParts D) (reason : IgnoreReason)
      (wallets : List (String × ReconstructedWalletTrades D))
      → AllValues IsSound wallets
      → AllValues IsSound (ignore fill reason wallets)
  ignore-All fill reason wallets h =
      on_wallet-All fill.wallet_address _ wallets
        (λ w s. record_ignored_fill-IsSound order rounded _ s) h

  apply_open-IsBook :
      (fill : FillParts D) (side : TradeSide) (books : TradeBooks D)
      → (d.nought ⋖ fill.size) ≡ true
      → IsBook books
      → IsBook (apply_open fill side books)
  unfolding apply_open
  apply_open-IsBook fill side books p b =
      let key = key_of fill side in
      elim (Option-cases (get_trade key books.open_trades)) [
        | inr (trade, e) ↦
            let t = get_trade-All IsOpen key books.open_trades trade b.trades e in
            rw (e, apply_open)
              (record {
                trades =
                    put_trade-All IsOpen key (entered fill trade) books.open_trades
                      (add_entry-IsOpen order rounded exact trade fill.size fill.notional_usd
                        fill.fee_usd fill.timestamp_ms p t.balanced t.closed t.remaining)
                      b.trades;
                sound = b.sound;
              })
        | inl e ↦
            rw (e, apply_open)
              (elim (Bool-cases (is_preexisting_source_add fill.start_position side)) [
                | inl q ↦ rw q (record {
                  trades = b.trades;
                  sound = ignore-All fill preexisting_open books.wallets b.sound;
                })
                | inr q ↦ rw q (record {
                  trades =
                      put_trade-All IsOpen key
                        (entered fill
                          (new_trade fill.wallet_address fill.coin side fill.timestamp_ms))
                        books.open_trades
                        (add_entry-IsOpen order rounded exact
                          (new_trade fill.wallet_address fill.coin side fill.timestamp_ms) fill.size
                          fill.notional_usd fill.fee_usd fill.timestamp_ms p
                          (sym (exact.nought-add d.nought)) (le_refl d.nought) (le_refl d.nought))
                        b.trades;
                  sound = b.sound;
                })
              ])
      ]

  after_close-IsBook :
      (fill : FillParts D) (side : TradeSide) (start_24h_ms start_7d_ms : ℕ)
      (trade : OpenSourceTrade D) (closed_size : D) (books : TradeBooks D)
      → IsOpen trade
      → IsBook books
      → IsBook (after_close fill side start_24h_ms start_7d_ms (trade, closed_size) books)
  after_close-IsBook fill side start_24h_ms start_7d_ms trade closed_size books t b =
      let noted : AllValues IsSound (
          if closed_size ⋖ fill.size
          then ignore fill unmatched_close books.wallets
          else on_wallet fill.wallet_address (λ w. w) books.wallets) =
        elim (Bool-cases (closed_size ⋖ fill.size)) [
          | inl q ↦ rw q (ignore-All fill unmatched_close books.wallets b.sound)
          | inr q ↦
              rw q (on_wallet-All fill.wallet_address (λ w. w) books.wallets (λ w s. s) b.sound)
        ] in
      elim (Bool-cases (is_closed trade)) [
        | inl q ↦ rw q (record {
          trades = pop_trade-All IsOpen (key_of fill side) books.open_trades b.trades;
          sound =
              on_wallet-All fill.wallet_address _ _
                (λ w s.
                  record_closed_trade-IsSound order rounded trade fill.timestamp_ms start_24h_ms
                    start_7d_ms s)
                noted;
        })
        | inr q ↦ rw q (record {
          trades = put_trade-All IsOpen (key_of fill side) trade books.open_trades t b.trades;
          sound = noted;
        })
      ]

  apply_close-IsBook :
      (fill : FillParts D) (side : TradeSide) (start_24h_ms start_7d_ms : ℕ) (books : TradeBooks D)
      → IsBook books
      → IsBook (apply_close fill side start_24h_ms start_7d_ms books)
  unfolding apply_close
  apply_close-IsBook fill side start_24h_ms start_7d_ms books b =
      elim (Option-cases (get_trade (key_of fill side) books.open_trades)) [
        | inl e ↦
            rw (e, apply_close)
              (record {
                trades = b.trades;
                sound = ignore-All fill unmatched_close books.wallets b.sound;
              })
        | inr (trade, e) ↦
            rw (e, apply_close)
              (after_close-IsBook fill side start_24h_ms start_7d_ms _ _ books
                (add_close-IsOpen order rounded exact trade fill.size fill.notional_usd fill.pnl_usd
                  fill.fee_usd fill.is_liquidation
                  (get_trade-All IsOpen (key_of fill side) books.open_trades trade b.trades e))
                b)
      ]

  apply_flip-IsBook :
      (fill : FillParts D) (close_side open_side : TradeSide) (start_24h_ms start_7d_ms : ℕ)
      (books : TradeBooks D)
      → IsBook books
      → IsBook (apply_flip fill close_side open_side start_24h_ms start_7d_ms books)
  unfolding apply_flip proportional_fill
  apply_flip-IsBook fill close_side open_side start_24h_ms start_7d_ms books b =
      let sizes = split_flip_size fill close_side in
      let closes = proportional_fill fill sizes.0 in
      let after : TradeBooks D =
        (if d.nought ⋖ sizes.0
          then apply_close closes close_side start_24h_ms start_7d_ms books
          else books) in
      let kept : IsBook after = elim (Bool-cases (d.nought ⋖ sizes.0)) [
        | inl q ↦ rw q (apply_close-IsBook closes close_side start_24h_ms start_7d_ms books b)
        | inr q ↦ rw q b
      ] in
      elim (Bool-cases (d.nought ⋖ sizes.1)) [
        | inl q ↦
            rw q (
              apply_open-IsBook (proportional_fill (opening_of fill) sizes.1) open_side after q
                kept)
        | inr q ↦ rw q kept
      ]

  apply_direction-IsBook :
      (direction : String) (fill : FillParts D) (start_24h_ms start_7d_ms : ℕ)
      (books : TradeBooks D)
      → (d.nought ⋖ fill.size) ≡ true
      → IsBook books
      → IsBook (apply_direction direction fill start_24h_ms start_7d_ms books)
  unfolding apply_direction
  apply_direction-IsBook direction fill start_24h_ms start_7d_ms books p b = ground (
    arith,
    b,
    apply_open-IsBook fill long books p b,
    apply_open-IsBook fill short books p b,
    apply_close-IsBook fill long start_24h_ms start_7d_ms books b,
    apply_close-IsBook fill short start_24h_ms start_7d_ms books b,
    apply_flip-IsBook fill long short start_24h_ms start_7d_ms books b,
    apply_flip-IsBook fill short long start_24h_ms start_7d_ms books b,
  )

  process_trade_fill-IsBook :
      (start_24h_ms start_7d_ms : ℕ) (row : TradeFillRow D) (books : TradeBooks D)
      → IsBook books
      → IsBook (process_trade_fill start_24h_ms start_7d_ms row books)
  unfolding process_trade_fill
  process_trade_fill-IsBook start_24h_ms start_7d_ms row books b =
      let fill = fill_of row in
      elim (Bool-cases (fill.size ⩽ d.nought)) [
        | inl q ↦ rw q b
        | inr q ↦
            rw q (
              apply_direction-IsBook row.direction fill start_24h_ms start_7d_ms books (ap not q) b)
      ]

  -- Where sums are exact, fills of any directions, in any order, keep the books: every open trade is balanced (what was
  -- entered is what was closed and what remains, neither of which is negative), and every wallet's
  -- totals agree with one another.
  pub process_all-IsBook :
      (start_24h_ms start_7d_ms : ℕ) (rows : List (TradeFillRow D)) (books : TradeBooks D)
      → IsBook books
      → IsBook (process_all start_24h_ms start_7d_ms rows books)
  unfolding process_all
  process_all-IsBook start_24h_ms start_7d_ms [] books b = b
  process_all-IsBook start_24h_ms start_7d_ms (row ∷ rows) books b =
      process_all-IsBook start_24h_ms start_7d_ms rows _
        (process_trade_fill-IsBook start_24h_ms start_7d_ms row books b)

  record_all_open-All :
      (trades : List (TradeKey × OpenSourceTrade D))
      (wallets : List (String × ReconstructedWalletTrades D))
      → AllValues IsSound wallets
      → AllValues IsSound (record_all_open trades wallets)
  record_all_open-All [] wallets h = h
  record_all_open-All ((key, trade) ∷ rest) wallets h = record_all_open-All rest _ (
      on_wallet-All trade.wallet_address _ wallets
        (λ w s. record_open_trade-IsSound order rounded trade s) h)

  -- Where sums are exact, what a reconstruction returns for a wallet agrees with itself, whatever fills it reads: every
  -- trade is counted once as closed or as open, no more trades are won and lost than are closed, gross
  -- profit and gross loss are not negative, and the largest drawdown is at least the present one.
  pub reconstruct_wallet_trades-AllValues :
      (start_24h_ms start_7d_ms : ℕ) (rows : List (TradeFillRow D))
      → AllValues IsSound (reconstruct_wallet_trades start_24h_ms start_7d_ms rows)
  unfolding reconstruct_wallet_trades
  reconstruct_wallet_trades-AllValues start_24h_ms start_7d_ms rows =
      let b =
        process_all-IsBook start_24h_ms start_7d_ms rows empty_books
          (record { trades = tt; sound = tt }) in
      record_all_open-All (process_all start_24h_ms start_7d_ms rows empty_books).open_trades _
        b.sound
