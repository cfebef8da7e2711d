-- ===== src/MarketInfo/Tests.antt =====
-- Runs of a market's operations at a concrete market.
use mathlib.Core.List.{Mem}
use exchange_server.Base.{ℕ, nat_eq, some, [], ◌∷◌, ◌≡◌, ◌&&◌, ◌==◌, if◌then◌else◌, arith}
use exchange_server.Int.{ℤ, pos}
use exchange_server.Text.{codes}
use exchange_server.Dict.{Dict, lookup}
use exchange_server.Decimal.Integer.{integers}
use exchange_server.MarketInfo.{
  MarketInfo, KlineInfo, Deal, klines_of, first_kline, update_kline, flush_dirty,
}
use exchange_server.MarketInfo.Klines.{bucket, updated, flush_of, update_kline_lem}

abbrev deal : ℕ → Deal ℤ
deal id = record { id = id; time = id; price = pos 5; amount = pos 1; side = 1; type = codes "buy" }

abbrev minutes : Dict ℕ (KlineInfo ℤ)
minutes = (60, first_kline (pos 4)) ∷ (120, first_kline (pos 6)) ∷ []

abbrev info : MarketInfo ℤ
info = record {
  name = codes "BTCUSDT";
  last_price = pos 0;
  sec_klines = [];
  min_klines = minutes;
  hour_klines = [];
  day_klines = [];
  deals = deal 1 ∷ [];
  update_map = [];
  update_time = 0;
}

update_kline_lem_example :
    (changed : MarketInfo ℤ) × (update_kline 1 125 (pos 9) (pos 2) info ≡ some changed)
    × ((other ts : ℕ)
        → lookup ts (klines_of other changed) ≡ (
            if (1 == other) && (bucket 1 125 (pos 9) (pos 2) info == ts)
            then some (updated 1 125 (pos 9) (pos 2) info)
            else lookup ts (klines_of other info)))
    × Mem
        (flush_of info 1 (bucket 1 125 (pos 9) (pos 2) info) (updated 1 125 (pos 9) (pos 2) info))
        (flush_dirty changed).0
update_kline_lem_example = update_kline_lem 1 125 (pos 9) (pos 2) info (omega arith)
