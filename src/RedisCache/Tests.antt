-- ===== src/RedisCache/Tests.antt =====
-- Runs of the store of candles with concrete candles.
use exchange_server.Base.{
  ℕ, ◌≡◌, refl, true, some, [], ◌∷◌, if◌then◌else◌, ◌==◌, ◌&&◌, ltb, not, nat_eq, All, arith,
}
use exchange_server.Int.{ℤ, pos}
use exchange_server.Text.{codes, text_eq, print_nat}
use exchange_server.Dict.{Dict, lookup, IsMap}
use exchange_server.Decimal.Integer.{integers}
use exchange_server.MarketInfo.{KlineInfo}
use exchange_server.RedisCache.{
  Redis, hash_key, fields_of, flush_kline, load_klines, load_last_price,
}
use exchange_server.RedisCache.Values.{IsPrintable}
use exchange_server.RedisCache.Klines.{IsTime, load_klines-flush_kline}

abbrev redis : Redis
redis = record {
  answers = true;
  hashes = (codes "k:BTC:1m", (print_nat 60, codes "1,2,3,1,9,9") ∷ []) ∷ [];
  strings = [];
}

abbrev kline : KlineInfo ℤ
kline = record {
  open_price = pos 5;
  close = pos 6;
  high = pos 7;
  low = pos 4;
  volume = pos 8;
  deal = pos 9;
}

redis-IsMap : IsMap (fields_of (hash_key (codes "BTC") (codes "1m")) redis)
unfolding lookup
redis-IsMap = (refl, tt)

redis-IsTime : All IsTime (fields_of (hash_key (codes "BTC") (codes "1m")) redis)
unfolding lookup
redis-IsTime = ((60, refl, omega arith), tt)

kline-IsPrintable : IsPrintable kline
unfolding print_nat
kline-IsPrintable = (
  (λ e. omega (arith, e), tt),
  (λ e. omega (arith, e), tt),
  (λ e. omega (arith, e), tt),
  (λ e. omega (arith, e), tt),
  (λ e. omega (arith, e), tt),
  (λ e. omega (arith, e), tt),
)

load_klines-flush_kline_example :
    (after : Redis) × (before loaded : Dict ℕ (KlineInfo ℤ)) × (flush_kline
        (codes "BTC")
        (codes "1m")
        120
        kline
        redis
      ≡ some after)
    × (load_klines (codes "BTC") (codes "1m") 0 redis ≡ some before)
    × (load_klines (codes "BTC") (codes "1m") 0 after ≡ some loaded)
    × (lookup 120 loaded
        ≡ (if (120 == 120) && not (ltb 120 0) then some kline else lookup 120 before))
load_klines-flush_kline_example =
    load_klines-flush_kline (codes "BTC") (codes "1m") 0 120 120 kline redis refl redis-IsMap
      redis-IsTime (omega arith) kline-IsPrintable

no_price : load_last_price (codes "BTC") redis ≡ some (pos 0)
unfolding load_last_price lookup
no_price = refl
