-- ===== src/Kline.antt =====
-- internal/marketprice/kline: the candles that the manager keeps in memory. A time stamp is a
-- number of seconds from 1970 on.
pub mod Deals
pub mod Bounds
pub mod Tests
use exchange_server.Base.{
  ℕ, ◌+◌, ◌-◌, ◌*◌, ◌/◌, Bool, true, false, Option, none, some, List, [], ◌∷◌, ◌++◌, if◌then◌else◌,
  ◌==◌, ◌&&◌, ◌||◌, not, ltb, nat_eq,
}
use exchange_server.Text.{Text, codes, text_beq, text_eq}
use exchange_server.Dict.{Dict, lookup, insert}
use exchange_server.Decimal.{Decimals, max, min, greater_than}

-- `Interval`, a string: its values in the order of `AddDeal`'s loop.
abbrev pub Interval : Type 0
Interval = Text

abbrev pub interval_day : Interval
interval_day = codes "1d"

abbrev pub interval_week : Interval
interval_week = codes "1w"

abbrev pub interval_month : Interval
interval_month = codes "1M"

-- Each interval up to a day, with its length.
abbrev pub short_lengths : Dict Interval ℕ
short_lengths =
    (codes "1s", 1)
    ∷ (codes "1m", 60)
    ∷ (codes "5m", 300)
    ∷ (codes "15m", 900)
    ∷ (codes "30m", 1800)
    ∷ (codes "1h", 3600)
    ∷ (codes "2h", 7200)
    ∷ (codes "4h", 14400)
    ∷ (codes "6h", 21600)
    ∷ (codes "12h", 43200)
    ∷ (interval_day, 86400)
    ∷ []

abbrev pub long_lengths : Dict Interval ℕ
long_lengths = (interval_week, 604800) ∷ (interval_month, 2592000) ∷ []

abbrev pub length_in : Interval → Dict Interval ℕ → Option ℕ
length_in i [] = none
length_in i ((j, n) ∷ l) = if text_beq i j then some n else length_in i l

-- `Seconds`: an unknown interval counts as a minute.
unfoldable pub seconds : Interval → ℕ
seconds i = elim (length_in i short_lengths) [
  | some n ↦ n
  | none ↦ elim (length_in i long_lengths) [ some n ↦ n | none ↦ 60 ]
]

unfoldable pub to_timestamp : Interval → ℕ → ℕ
unfolding seconds
to_timestamp i ts = ts / seconds i * seconds i

-- `IsValid`
unfoldable pub is_valid : Interval → Bool
is_valid i = elim (length_in i short_lengths) [
  | some n ↦ true
  | none ↦ elim (length_in i long_lengths) [ some n ↦ true | none ↦ false ]
]

abbrev pub names : Dict Interval ℕ → List Interval
names [] = []
names ((i, n) ∷ l) = i ∷ names l

abbrev pub all_intervals : List Interval
all_intervals = names (short_lengths ++ long_lengths)

pub record Kline (D : Type 0) : Type 0 where
  pub market : Text
  pub interval : Interval
  pub open_price : D
  pub high : D
  pub low : D
  pub close : D
  pub volume : D
  pub deal_amount : D
  pub timestamp : ℕ

abbrev pub KlineManager : Type 0 → Type 0
KlineManager D = Dict Text (Dict Interval (Kline D))

module _ {D : Type 0} where
  -- `km.current[market]`, where a missing map reads as an empty one.
  abbrev pub candles : Text → KlineManager D → Dict Interval (Kline D)
  candles market km = elim (lookup market km) [ none ↦ [] | some l ↦ l ]

  -- `GetKline`, which does not look at its time stamp.
  unfoldable pub get_kline : Text → Interval → ℕ → KlineManager D → Option (Kline D)
  get_kline market i ts km = lookup i (candles market km)

module _ ⦃d : Decimals⦄ where
  open d use {D, less_than}

  -- A candle of one deal, and a candle with one more deal.
  abbrev pub new_kline : Text → Interval → D → D → ℕ → Kline D
  new_kline market i price amount bucket = record {
    market = market;
    interval = i;
    open_price = price;
    high = price;
    low = price;
    close = price;
    volume = amount;
    deal_amount = d.mul price amount;
    timestamp = bucket;
  }

  abbrev pub with_deal : D → D → Kline D → Kline D
  with_deal price amount k = record k {
    high = max k.high price;
    low = min k.low price;
    close = price;
    volume = d.add k.volume amount;
    deal_amount = d.add k.deal_amount (d.mul price amount);
  }

  -- What the loop of `AddDeal` puts under an interval.
  unfoldable pub next_kline : Text → D → D → ℕ → Interval → Option (Kline D) → Kline D
  unfolding to_timestamp
  next_kline market price amount ts i none = new_kline market i price amount (to_timestamp i ts)
  next_kline market price amount ts i (some k) =
      if k.timestamp == to_timestamp i ts
      then with_deal price amount k
      else new_kline market i price amount (to_timestamp i ts)

  unfoldable pub add_to : List Interval → Text → D → D → ℕ → KlineManager D → KlineManager D
  unfolding next_kline
  add_to [] market price amount ts km = km
  add_to (i ∷ l) market price amount ts km =
      let current = candles market km in
      add_to l market price amount ts (
        insert market (insert i (next_kline market price amount ts i (lookup i current)) current)
          km)

  unfoldable pub add_deal : Text → D → D → ℕ → KlineManager D → KlineManager D
  unfolding add_to
  add_deal market price amount ts km = add_to all_intervals market price amount ts km

  -- `getAggregatedKline`: the loop over the market's candles, those of a week or a month left out.
  abbrev pub is_short : Interval → Bool
  is_short i = elim (length_in i short_lengths) [ some n ↦ true | none ↦ false ]

  abbrev pub joined : Kline D → Kline D → Kline D
  joined result k = record result {
    high = if greater_than k.high result.high then k.high else result.high;
    low = if less_than k.low result.low then k.low else result.low;
    close = k.close;
    volume = d.add result.volume k.volume;
    deal_amount = d.add result.deal_amount k.deal_amount;
  }

  unfoldable pub aggregate :
      Interval → ℕ → ℕ → Dict Interval (Kline D) → Option (Kline D) → Option (Kline D)
  aggregate i start end [] result = result
  aggregate i start end ((j, k) ∷ l) result = aggregate i start end l (
      if not (is_short k.interval) || (ltb k.timestamp start || ltb end k.timestamp)
      then result
      else elim result [
        | none ↦ some (record k { interval = i; timestamp = start })
        | some r ↦ some (joined r k)
      ])

  unfoldable pub get_aggregated_kline : Text → Interval → ℕ → ℕ → KlineManager D → Option (Kline D)
  unfolding aggregate
  get_aggregated_kline market i start end km = aggregate i start end (candles market km) none

  -- `GetWeekKline` and `GetMonthKline`: the time package says when the week and the month of a
  -- time stamp begin, and when the next month does.
  unfoldable pub get_week_kline : (ℕ → ℕ) → Text → ℕ → KlineManager D → Option (Kline D)
  unfolding get_aggregated_kline
  get_week_kline week_start market ts km =
      get_aggregated_kline market interval_week (week_start ts) (week_start ts + 604800 - 1) km

  unfoldable pub get_month_kline : (ℕ → ℕ) → (ℕ → ℕ) → Text → ℕ → KlineManager D → Option (Kline D)
  unfolding get_aggregated_kline
  get_month_kline month_start next_month market ts km =
      get_aggregated_kline market interval_month (month_start ts) (next_month ts - 1) km
