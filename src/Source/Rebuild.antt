-- ===== src/Source/Rebuild.antt =====
-- How fills open, close and flip source trades:
-- backend/app/services/source_trade_reconstruction_service.py. The two dictionaries are lists in the
-- order of insertion.
pub mod Book
pub mod Others
use text.Mathlib.Text.{◌==◌ as str_eq}
use copytrading_agent.Prelude.{
  ℕ, String, Bool, true, false, ◌&&◌, Option, none, some, List, [], ◌∷◌, if◌then◌else◌, get_or,
}
use copytrading_agent.Decimal.{Decimal, ◌⩽◌, ◌⋖◌, ◌⊖◌, ◌⊗◌, ◌⊘◌, min, max}
use copytrading_agent.Trade.{TradeSide, long, short, side_eq}
use copytrading_agent.Signal.Pricing.{is_preexisting_source_add}
use copytrading_agent.Source.Trade.{OpenSourceTrade, new_trade, add_entry, add_close, is_closed}
use copytrading_agent.Source.Wallet.{
  ReconstructedWalletTrades, new_wallet_trades, IgnoreReason, unmatched_close, preexisting_open,
  ignored_fill, record_ignored_fill, record_closed_trade, record_open_trade,
}

-- A row of the query: `size` may be null, and the start position is a text.
pub record TradeFillRow (D : Type 0) : Type 0 where
  pub wallet_address : String
  pub external_fill_id : String
  pub coin : String
  pub direction : String
  pub timestamp_ms : ℕ
  pub size : Option D
  pub notional_usd : D
  pub fee_usd : D
  pub pnl_usd : D
  pub start_position : Option String
  pub is_liquidation : Bool

pub record FillParts (D : Type 0) : Type 0 where
  pub wallet_address : String
  pub external_fill_id : String
  pub coin : String
  pub timestamp_ms : ℕ
  pub size : D
  pub notional_usd : D
  pub fee_usd : D
  pub pnl_usd : D
  pub start_position : Option D
  pub is_liquidation : Bool

pub record TradeKey : Type 0 where
  pub wallet_address : String
  pub coin : String
  pub side : TradeSide

-- `trades_by_wallet` and `open_trades`.
pub record TradeBooks (D : Type 0) : Type 0 where
  pub wallets : List (String × ReconstructedWalletTrades D)
  pub open_trades : List (TradeKey × OpenSourceTrade D)

unfoldable pub key_eq : TradeKey → TradeKey → Bool
key_eq a b =
    str_eq a.wallet_address b.wallet_address && (str_eq a.coin b.coin && side_eq a.side b.side)

module _ {V : Type 0} where
  unfoldable pub get_trade : TradeKey → List (TradeKey × V) → Option V
  get_trade key [] = none
  get_trade key ((k, t) ∷ rest) = if key_eq k key then some t else get_trade key rest

  unfoldable pub put_trade : TradeKey → V → List (TradeKey × V) → List (TradeKey × V)
  put_trade key t [] = (key, t) ∷ []
  put_trade key t ((k, u) ∷ rest) =
      if key_eq k key then (k, t) ∷ rest else (k, u) ∷ put_trade key t rest

  unfoldable pub pop_trade : TradeKey → List (TradeKey × V) → List (TradeKey × V)
  pop_trade key [] = []
  pop_trade key ((k, u) ∷ rest) = if key_eq k key then rest else (k, u) ∷ pop_trade key rest

module _ {D : Type 0} ⦃d : Decimal D⦄ where
  -- `get_wallet_trades`, whose result is then changed in place.
  unfoldable pub on_wallet :
      String
      → (ReconstructedWalletTrades D → ReconstructedWalletTrades D)
      → List (String × ReconstructedWalletTrades D)
      → List (String × ReconstructedWalletTrades D)
  on_wallet key f [] = (key, f (new_wallet_trades key)) ∷ []
  on_wallet key f ((k, w) ∷ rest) =
      if str_eq k key then (k, f w) ∷ rest else (k, w) ∷ on_wallet key f rest

  abbrev pub key_of : FillParts D → TradeSide → TradeKey
  key_of fill side = record { wallet_address = fill.wallet_address; coin = fill.coin; side = side }

  abbrev pub ignore :
      FillParts D
      → IgnoreReason
      → List (String × ReconstructedWalletTrades D)
      → List (String × ReconstructedWalletTrades D)
  ignore fill reason = on_wallet fill.wallet_address (
      record_ignored_fill
        (ignored_fill fill.wallet_address fill.external_fill_id fill.timestamp_ms reason))

  abbrev pub entered : FillParts D → OpenSourceTrade D → OpenSourceTrade D
  entered fill trade = add_entry trade fill.size fill.notional_usd fill.fee_usd fill.timestamp_ms

  unfoldable pub apply_open : FillParts D → TradeSide → TradeBooks D → TradeBooks D
  apply_open fill side books =
      let key = key_of fill side in
      elim (get_trade key books.open_trades) [
        | some trade ↦ record books {
          open_trades = put_trade key (entered fill trade) books.open_trades;
        }
        | none ↦
            if is_preexisting_source_add fill.start_position side
            then record books { wallets = ignore fill preexisting_open books.wallets }
            else record books {
              open_trades =
                  put_trade key
                    (entered fill (new_trade fill.wallet_address fill.coin side fill.timestamp_ms))
                    books.open_trades;
            }
      ]

  -- What follows `add_close`: the rest of the fill is unmatched, and a trade that is closed is
  -- recorded and leaves the book.
  abbrev pub after_close :
      FillParts D → TradeSide → ℕ → ℕ → OpenSourceTrade D × D → TradeBooks D → TradeBooks D
  after_close fill side start_24h_ms start_7d_ms (trade, closed_size) books =
      let key = key_of fill side in
      let noted =
        if closed_size ⋖ fill.size
        then ignore fill unmatched_close books.wallets
        else on_wallet fill.wallet_address (λ w. w) books.wallets in
      if is_closed trade
      then record {
        wallets =
            on_wallet fill.wallet_address
              (record_closed_trade trade fill.timestamp_ms start_24h_ms start_7d_ms) noted;
        open_trades = pop_trade key books.open_trades;
      }
      else record { wallets = noted; open_trades = put_trade key trade books.open_trades }

  unfoldable pub apply_close : FillParts D → TradeSide → ℕ → ℕ → TradeBooks D → TradeBooks D
  apply_close fill side start_24h_ms start_7d_ms books =
      elim (get_trade (key_of fill side) books.open_trades) [
        | none ↦ record books { wallets = ignore fill unmatched_close books.wallets }
        | some trade ↦
            after_close fill side start_24h_ms start_7d_ms
              (add_close trade fill.size fill.notional_usd fill.pnl_usd fill.fee_usd
                fill.is_liquidation)
              books
      ]

  abbrev pub flip_close_size : D → TradeSide → D → D
  flip_close_size size long start_position = min size (max start_position d.nought)
  flip_close_size size short start_position = min size (max (d.copy_abs start_position) d.nought)

  abbrev pub split_size : D → TradeSide → Option D → D × D
  split_size size close_side none = (size, d.nought)
  split_size size close_side (some start_position) =
      let close_size = flip_close_size size close_side start_position in
      (close_size, max (size ⊖ close_size) d.nought)

  unfoldable pub split_flip_size : FillParts D → TradeSide → D × D
  split_flip_size fill close_side = split_size fill.size close_side fill.start_position

  unfoldable pub proportional_fill : FillParts D → D → FillParts D
  proportional_fill fill size =
      let ratio = if fill.size ⩽ d.nought then d.nought else size ⊘ fill.size in
      record fill {
        size = size;
        notional_usd = fill.notional_usd ⊗ ratio;
        fee_usd = fill.fee_usd ⊗ ratio;
        pnl_usd = fill.pnl_usd ⊗ ratio;
      }

  -- The fill without its profit, from no position.
  abbrev pub opening_of : FillParts D → FillParts D
  opening_of fill = record fill {
    pnl_usd = d.nought;
    start_position = some d.nought;
    is_liquidation = false;
  }

  unfoldable pub apply_flip :
      FillParts D → TradeSide → TradeSide → ℕ → ℕ → TradeBooks D → TradeBooks D
  apply_flip fill close_side open_side start_24h_ms start_7d_ms books =
      let sizes = split_flip_size fill close_side in
      let after =
        if d.nought ⋖ sizes.0
        then apply_close (proportional_fill fill sizes.0) close_side start_24h_ms start_7d_ms books
        else books in
      if d.nought ⋖ sizes.1
      then apply_open (proportional_fill (opening_of fill) sizes.1) open_side after
      else after

  -- `decimal_or_none` of a text.
  abbrev pub parsed : Option String → Option D
  parsed none = none
  parsed (some value) = d.parse value

  abbrev pub fill_of : TradeFillRow D → FillParts D
  fill_of row = record {
    wallet_address = row.wallet_address;
    external_fill_id = row.external_fill_id;
    coin = row.coin;
    timestamp_ms = row.timestamp_ms;
    size = get_or row.size d.nought;
    notional_usd = row.notional_usd;
    fee_usd = row.fee_usd;
    pnl_usd = row.pnl_usd;
    start_position = parsed row.start_position;
    is_liquidation = row.is_liquidation;
  }

  -- The branch of the fill's direction.
  unfoldable pub apply_direction : String → FillParts D → ℕ → ℕ → TradeBooks D → TradeBooks D
  apply_direction direction fill start_24h_ms start_7d_ms books =
      if str_eq direction "Open Long"
      then apply_open fill long books
      else if str_eq direction "Open Short"
      then apply_open fill short books
      else if str_eq direction "Close Long"
      then apply_close fill long start_24h_ms start_7d_ms books
      else if str_eq direction "Close Short"
      then apply_close fill short start_24h_ms start_7d_ms books
      else if str_eq direction "Long > Short"
      then apply_flip fill long short start_24h_ms start_7d_ms books
      else if str_eq direction "Short > Long"
      then apply_flip fill short long start_24h_ms start_7d_ms books
      else books

  unfoldable pub process_trade_fill : ℕ → ℕ → TradeFillRow D → TradeBooks D → TradeBooks D
  process_trade_fill start_24h_ms start_7d_ms row books =
      let fill = fill_of row in
      if fill.size ⩽ d.nought
      then books
      else apply_direction row.direction fill start_24h_ms start_7d_ms books

  unfoldable pub process_all : ℕ → ℕ → List (TradeFillRow D) → TradeBooks D → TradeBooks D
  process_all start_24h_ms start_7d_ms [] books = books
  process_all start_24h_ms start_7d_ms (row ∷ rows) books =
      process_all start_24h_ms start_7d_ms rows
        (process_trade_fill start_24h_ms start_7d_ms row books)

  abbrev pub record_all_open :
      List (TradeKey × OpenSourceTrade D)
      → List (String × ReconstructedWalletTrades D)
      → List (String × ReconstructedWalletTrades D)
  record_all_open [] wallets = wallets
  record_all_open ((key, trade) ∷ rest) wallets =
      record_all_open rest (on_wallet trade.wallet_address (record_open_trade trade) wallets)

  abbrev pub empty_books : TradeBooks D
  empty_books = record { wallets = []; open_trades = [] }

  -- The rows that the query streams, in its order.
  unfoldable pub reconstruct_wallet_trades :
      ℕ → ℕ → List (TradeFillRow D) → List (String × ReconstructedWalletTrades D)
  reconstruct_wallet_trades start_24h_ms start_7d_ms rows =
      let books = process_all start_24h_ms start_7d_ms rows empty_books in
      record_all_open books.open_trades books.wallets
