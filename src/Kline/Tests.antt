-- ===== src/Kline/Tests.antt =====
-- Runs of the candles at concrete deals.
use mathlib.Core.Option
use exchange_server.Base.{List, some, [], ◌∷◌, ◌≡◌, ◌≢◌, ◌⊎◌, false, true, refl}
use exchange_server.Int.{ℤ, pos, ◌+ℤ◌}
use exchange_server.Text.{Text, codes}
use exchange_server.Dict.{lookup, insert}
use exchange_server.Decimal.Integer.{integers}
use exchange_server.Kline.{
  Kline, get_kline, add_deal, add_to, next_kline, to_timestamp, seconds, is_valid,
}
use exchange_server.Kline.Deals.{Follows, add_deal_lem}
use exchange_server.Kline.Bounds.{Deal, add_deals, AreSound, add_deals-AreSound}

abbrev btc : Text
btc = codes "BTCUSDT"

abbrev deals : List (Deal ℤ)
deals =
    record { market = btc; price = pos 10; amount = pos 2; ts = 61 }
    ∷ record { market = btc; price = pos 7; amount = pos 1; ts = 119 }
    ∷ record { market = btc; price = pos 9; amount = pos 1; ts = 3600 }
    ∷ []

minute : Option.map Kline.low (get_kline btc (codes "1m") 0 (add_deals deals [])) ≡ some (pos 9)
unfolding add_deals add_deal add_to next_kline to_timestamp seconds get_kline lookup insert
minute = refl

hour : Option.map Kline.volume (get_kline btc (codes "1d") 0 (add_deals deals [])) ≡ some (pos 4)
unfolding add_deals add_deal add_to next_kline to_timestamp seconds get_kline lookup insert ◌+ℤ◌
hour = refl

none-AreSound : AreSound ⦃d = integers⦄ []
unfolding get_kline lookup
none-AreSound market i k found = absurd cc

add_deals-AreSound_example : AreSound (add_deals deals [])
add_deals-AreSound_example = add_deals-AreSound deals [] none-AreSound

add_deal_lem_example :
    let before = get_kline btc (codes "1h") 0 (add_deals deals []) in
    let after =
      get_kline btc (codes "1h") 0 (add_deal btc (pos 9) (pos 1) 3600 (add_deals deals [])) in
    (((btc ≢ btc) ⊎ (is_valid (codes "1h") ≡ false)) × (after ≡ before))
    ⊎ ((btc ≡ btc)
        × (is_valid (codes "1h") ≡ true)
        × ((k : Kline ℤ) × (after ≡ some k)
            × Follows btc (pos 9) (pos 1) 3600 (codes "1h") before k))
add_deal_lem_example = add_deal_lem btc (pos 9) (pos 1) 3600 btc (codes "1h") 0 (add_deals deals [])
