-- ===== src/MarketServer/Tests.antt =====
-- Runs of the price service's computations at a concrete market.
use exchange_server.Base.{◌≡◌, refl, [], ◌∷◌, map, filter}
use exchange_server.Int.{ℤ, pos, negsuc, ◌-ℤ◌, ◌+ℤ◌}
use exchange_server.Text.{codes, print_nat}
use exchange_server.Decimal.Integer.{integers}
use exchange_server.MarketInfo.{Deal, MarketInfo, keep_last}
use exchange_server.MarketServer.{
  get_deals_after_id, calculate_market_status, calculate_market_summary,
}
use exchange_server.MarketServer.Latest.{is_after, get_deals_after_id_lem}

abbrev deal : Deal ℤ
deal = record { id = 1; time = 100; price = pos 5; amount = pos 1; side = 1; type = codes "buy" }

abbrev info : MarketInfo ℤ
info = record {
  name = codes "BTCUSDT";
  last_price = pos 8;
  sec_klines = [];
  min_klines = [];
  hour_klines = [];
  day_klines = [];
  deals =
      deal
      ∷ record deal { id = 2; time = 200; price = pos 9 }
      ∷ record deal { id = 3; time = 300; price = pos 8 }
      ∷ [];
  update_map = [];
  update_time = 0;
}

get_deals_after_id_lem_example :
    (get_deals_after_id info (pos 1) (pos 1) ≡ keep_last 1 (filter (is_after (pos 1)) info.deals))
    × (get_deals_after_id info (pos 1) (negsuc 1) ≡ [])
get_deals_after_id_lem_example = get_deals_after_id_lem info (pos 1) 1

latest_deal : map (λ d. d.id) (get_deals_after_id info (pos 1) (pos 1)) ≡ 3 ∷ []
unfolding get_deals_after_id
latest_deal = refl

-- The deals of the last 150 seconds.
recent_status : (calculate_market_status 350 info (pos 150)).volume ≡ pos 2
unfolding calculate_market_status ◌-ℤ◌ ◌+ℤ◌
recent_status = refl

summary_high : (calculate_market_summary info).high ≡ codes "9"
unfolding calculate_market_summary print_nat
summary_high = refl
