-- ===== src/MarketInfo.antt =====
-- internal/marketprice/market/market.go and model: what the price service keeps of a market, and
-- the manager's operations on it. Times are numbers of seconds from 1970 on.
pub mod Deals
pub mod Klines
pub mod Tests
use exchange_server.Base.{
  ℕ, ◌+◌, ◌-◌, ◌*◌, ◌/◌, Bool, true, false, Option, none, some, List, [], ◌∷◌, ◌++◌, if◌then◌else◌,
  ◌==◌, ◌&&◌, not, ltb, nat_eq, Eq, length, drop, filter, map,
}
use exchange_server.Text.{Text, codes, text_eq}
use exchange_server.Dict.{Dict, lookup, insert}
use exchange_server.Decimal.{Decimals, greater_than}

abbrev pub kline_type_sec : ℕ
kline_type_sec = 0

abbrev pub kline_type_min : ℕ
kline_type_min = 1

abbrev pub kline_type_hour : ℕ
kline_type_hour = 2

abbrev pub kline_type_day : ℕ
kline_type_day = 3

pub record KlineInfo (D : Type 0) : Type 0 where
  pub open_price : D
  pub close : D
  pub high : D
  pub low : D
  pub volume : D
  pub deal : D

pub record Deal (D : Type 0) : Type 0 where
  pub id : ℕ
  pub time : ℕ
  pub price : D
  pub amount : D
  pub side : ℕ
  pub type : Text

-- The keys of the update map are a list of pairs: a kind of candle and its time.
pub record MarketInfo (D : Type 0) : Type 0 where
  pub name : Text
  pub last_price : D
  pub sec_klines : Dict ℕ (KlineInfo D)
  pub min_klines : Dict ℕ (KlineInfo D)
  pub hour_klines : Dict ℕ (KlineInfo D)
  pub day_klines : Dict ℕ (KlineInfo D)
  pub deals : List (Deal D)
  pub update_map : List (ℕ × ℕ)
  pub update_time : ℕ

abbrev pub max_deals : ℕ
max_deals = 100

abbrev pub interval_of : ℕ → ℕ
interval_of kline_type =
    if kline_type == kline_type_sec
    then 1
    else if kline_type == kline_type_min
    then 60
    else if kline_type == kline_type_hour
    then 3600
    else if kline_type == kline_type_day
    then 86400
    else 0

-- `info.UpdateMap[key] = true`
abbrev pub same_key : ℕ × ℕ → ℕ × ℕ → Bool
same_key (a, s) (b, t) = (a == b) && (s == t)

abbrev pub mark : ℕ × ℕ → List (ℕ × ℕ) → List (ℕ × ℕ)
mark key [] = key ∷ []
mark key (k ∷ l) = if same_key k key then k ∷ l else k ∷ mark key l

-- `AddDeal` keeps the latest deals.
abbrev pub keep_last : {A : Type 0} → ℕ → List A → List A
keep_last n l = if ltb n (length l) then drop (length l - n) l else l

-- One call of `cache.FlushKline`: the interval's name, the time, the candle.
pub record Flush (D : Type 0) : Type 0 where
  pub market : Text
  pub interval : Text
  pub timestamp : ℕ
  pub kline : KlineInfo D

abbrev pub interval_name : ℕ → Text
interval_name kline_type =
    if kline_type == kline_type_sec
    then codes "1s"
    else if kline_type == kline_type_min
    then codes "1m"
    else if kline_type == kline_type_hour
    then codes "1h"
    else if kline_type == kline_type_day
    then codes "1d"
    else codes ""

module _ {D : Type 0} where
  -- The `switch` on the kind of a candle; an unknown kind has a nil map.
  abbrev pub klines_of : ℕ → MarketInfo D → Dict ℕ (KlineInfo D)
  klines_of kline_type info =
      if kline_type == kline_type_sec
      then info.sec_klines
      else if kline_type == kline_type_min
      then info.min_klines
      else if kline_type == kline_type_hour
      then info.hour_klines
      else if kline_type == kline_type_day
      then info.day_klines
      else []

  abbrev pub set_klines : ℕ → Dict ℕ (KlineInfo D) → MarketInfo D → MarketInfo D
  set_klines kline_type klines info = record info {
    sec_klines = if kline_type == kline_type_sec then klines else info.sec_klines;
    min_klines = if kline_type == kline_type_min then klines else info.min_klines;
    hour_klines = if kline_type == kline_type_hour then klines else info.hour_klines;
    day_klines = if kline_type == kline_type_day then klines else info.day_klines;
  }

  unfoldable pub add_deal : Deal D → MarketInfo D → MarketInfo D
  add_deal deal info = record info {
    deals = keep_last max_deals (info.deals ++ deal ∷ []);
    last_price = deal.price;
    update_time = deal.time;
  }

  -- The candles of one kind that are not older than `max`.
  unfoldable pub keep_recent : ℕ → ℕ → Dict ℕ (KlineInfo D) → Dict ℕ (KlineInfo D)
  keep_recent now max klines = filter (λ (ts, k). not (ltb (ts + max) now)) klines

  -- The body of `ClearOldKlines`, for one market: the candles of days stay.
  unfoldable pub clear_old_klines : ℕ → ℕ → ℕ → ℕ → MarketInfo D → MarketInfo D
  unfolding keep_recent
  clear_old_klines now sec_max min_max hour_max info = record info {
    sec_klines = keep_recent now sec_max info.sec_klines;
    min_klines = keep_recent now min_max info.min_klines;
    hour_klines = keep_recent now hour_max info.hour_klines;
  }

  -- The inner loop of `FlushDirty`: a candle that is gone is passed over.
  unfoldable pub flush_keys : List (ℕ × ℕ) → MarketInfo D → List (Flush D)
  flush_keys [] info = []
  flush_keys ((kline_type, ts) ∷ keys) info =
      let rest = flush_keys keys info in
      elim (lookup ts (klines_of kline_type info)) [
        | none ↦ rest
        | some k ↦
            record {
              market = info.name;
              interval = interval_name kline_type;
              timestamp = ts;
              kline = k;
            }
            ∷ rest
      ]

  -- The body of `FlushDirty`, for one market.
  unfoldable pub flush_dirty : MarketInfo D → List (Flush D) × MarketInfo D
  unfolding flush_keys
  flush_dirty info = (flush_keys info.update_map info, record info { update_map = [] })

module _ ⦃d : Decimals⦄ where
  open d use {D, less_than}

  abbrev pub kline_with : D → D → KlineInfo D → KlineInfo D
  kline_with price amount k = record k {
    close = price;
    high = if greater_than price k.high then price else k.high;
    low = if less_than price k.low then price else k.low;
    volume = d.add k.volume amount;
  }

  abbrev pub first_kline : D → KlineInfo D
  first_kline price = record {
    open_price = price;
    close = price;
    high = price;
    low = price;
    volume = d.zero;
    deal = d.zero;
  }

  -- `UpdateKline`: an unknown kind divides by zero, which panics, `none` here.
  unfoldable pub update_kline : ℕ → ℕ → D → D → MarketInfo D → Option (MarketInfo D)
  update_kline kline_type timestamp price amount info =
      let interval = interval_of kline_type in
      let ts = timestamp / interval * interval in
      let klines = klines_of kline_type info in
      let kline : KlineInfo D = elim (lookup ts klines) [ none ↦ first_kline price | some k ↦ k ] in
      let updated = set_klines kline_type (insert ts (kline_with price amount kline) klines) info in
      if interval == 0
      then none
      else some (record updated { update_map = mark (kline_type, ts) info.update_map })

  -- `GetOrCreate`
  unfoldable pub get_or_create :
      Text → Dict Text (MarketInfo D) → MarketInfo D × Dict Text (MarketInfo D)
  get_or_create market markets =
      let fresh : MarketInfo D = record {
        name = market;
        last_price = d.zero;
        sec_klines = [];
        min_klines = [];
        hour_klines = [];
        day_klines = [];
        deals = [];
        update_map = [];
        update_time = 0;
      } in
      elim (lookup market markets) [
        | some info ↦ (info, markets)
        | none ↦ (fresh, insert market fresh markets)
      ]
