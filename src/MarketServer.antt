-- ===== src/MarketServer.antt =====
-- internal/marketprice/server/server.go: what the price service computes from a market for its
-- answers.
pub mod Latest
mod Tests
use mathlib.Core.List.{reverse}
use exchange_server.Base.{
  ℕ, ◌+◌, Bool, true, false, Option, none, some, List, [], ◌∷◌, if◌then◌else◌, ◌==◌, ◌&&◌, not, map,
  filter,
}
use exchange_server.Int.{ℤ, pos, negsuc, ◌-ℤ◌, ltb_ℤ}
use exchange_server.Text.{Text}
use exchange_server.Dict.{Dict}
use exchange_server.Decimal.{Decimals, greater_than}
use exchange_server.MarketInfo.{Deal, KlineInfo, MarketInfo}

pub record MarketStatus (D : Type 0) : Type 0 where
  pub period : ℤ
  pub last : D
  pub open_price : D
  pub close : D
  pub high : D
  pub low : D
  pub volume : D
  pub deal : D

-- The variables of the loop of `calculateMarketStatus`.
pub record Seen (D : Type 0) : Type 0 where
  pub first : Bool
  pub open_price : D
  pub close : D
  pub high : D
  pub low : D
  pub volume : D
  pub deal : D

pub record MarketTotals (D : Type 0) : Type 0 where
  pub market : Text
  pub open_price : Text
  pub close : Text
  pub high : Text
  pub low : Text
  pub volume : Text
  pub deal : Text

-- `ts >= start && ts <= end`
abbrev within : ℤ → ℤ → ℕ → Bool
within start end ts = not (ltb_ℤ (pos ts) start) && not (ltb_ℤ end (pos ts))

module _ {D : Type 0} where
  -- The `switch` of `getKlinesForInterval`: minutes are the default.
  abbrev pub klines_by : ℤ → MarketInfo D → Dict ℕ (KlineInfo D)
  klines_by (negsuc n) info = info.min_klines
  klines_by (pos n) info =
      if n == 1
      then info.sec_klines
      else if n == 60
      then info.min_klines
      else if n == 3600
      then info.hour_klines
      else if n == 86400
      then info.day_klines
      else info.min_klines

  unfoldable pub get_klines_for_interval : MarketInfo D → ℤ → ℤ → ℤ → List (KlineInfo D)
  get_klines_for_interval info interval start end =
      map (λ (ts, k). k) (filter (λ (ts, k). within start end ts) (klines_by interval info))

  -- The first loop of `getDealsAfterID`, from the last deal on: it stops at the limit.
  unfoldable pub collect_after : ℤ → ℤ → ℕ → List (Deal D) → List (Deal D)
  collect_after last_id limit count [] = []
  collect_after last_id limit count (d ∷ deals) =
      let found = d ∷ collect_after last_id limit (count + 1) deals in
      let passed = collect_after last_id limit count deals in
      if ltb_ℤ (pos count) limit then (if ltb_ℤ last_id (pos d.id) then found else passed) else []

  -- The second loop turns the result around.
  unfoldable pub get_deals_after_id : MarketInfo D → ℤ → ℤ → List (Deal D)
  unfolding collect_after
  get_deals_after_id info last_id limit =
      reverse (collect_after last_id limit 0 (reverse info.deals))

module _ ⦃d : Decimals⦄ where
  open d use {D, zero as nothing, mul, less_than}

  abbrev pub not_seen : Seen D
  not_seen = record {
    first = true;
    open_price = nothing;
    close = nothing;
    high = nothing;
    low = nothing;
    volume = nothing;
    deal = nothing;
  }

  -- One round of the loop of `calculateMarketStatus` on a deal that is not too old.
  unfoldable pub see_deal : Deal D → Seen D → Seen D
  see_deal item s =
      let high = if s.first then item.price else s.high in
      let low = if s.first then item.price else s.low in
      record {
        first = false;
        open_price = if s.first then item.price else s.open_price;
        close = item.price;
        high = if greater_than item.price high then item.price else high;
        low = if less_than item.price low then item.price else low;
        volume = d.add s.volume item.amount;
        deal = d.add s.deal (mul item.price item.amount);
      }

  unfoldable pub see_deals : ℤ → List (Deal D) → Seen D → Seen D
  unfolding see_deal
  see_deals start_time [] s = s
  see_deals start_time (item ∷ deals) s =
      see_deals start_time deals (if ltb_ℤ (pos item.time) start_time then s else see_deal item s)

  unfoldable pub calculate_market_status : ℕ → MarketInfo D → ℤ → MarketStatus D
  unfolding see_deals
  calculate_market_status now info period =
      let s = see_deals (pos now -ℤ period) info.deals not_seen in
      record {
        period = period;
        last = info.last_price;
        open_price = if s.first then info.last_price else s.open_price;
        close = if s.first then info.last_price else s.close;
        high = if s.first then info.last_price else s.high;
        low = if s.first then info.last_price else s.low;
        volume = s.volume;
        deal = s.deal;
      }

  -- The loops of `calculateMarketSummary`: the volumes of the days, and the extremes of the deals.
  unfoldable pub add_days : Dict ℕ (KlineInfo D) → D × D → D × D
  add_days [] totals = totals
  add_days ((ts, k) ∷ klines) (volume, deal) =
      add_days klines (d.add volume k.volume, d.add deal k.deal)

  unfoldable pub extremes : List (Deal D) → D × D → D × D
  extremes [] found = found
  extremes (item ∷ deals) (high, low) = extremes deals (
    if greater_than item.price high then item.price else high,
    if less_than item.price low then item.price else low,
  )

  unfoldable pub calculate_market_summary : MarketInfo D → MarketTotals D
  unfolding add_days extremes
  calculate_market_summary info =
      let (volume, deal) = add_days info.day_klines (nothing, nothing) in
      let first : D = elim info.deals [ [] ↦ nothing | item ∷ deals ↦ item.price ] in
      let (high, low) = extremes info.deals (first, first) in
      record {
        market = info.name;
        open_price = d.to_text first;
        close = d.to_text info.last_price;
        high = d.to_text high;
        low = d.to_text low;
        volume = d.to_text volume;
        deal = d.to_text deal;
      }
