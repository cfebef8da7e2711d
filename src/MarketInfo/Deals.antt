-- ===== src/MarketInfo/Deals.antt =====
-- The deals that a market keeps.
use exchange_server.Base.{List, [], ◌∷◌}
use exchange_server.MarketInfo.{MarketInfo, Deal, add_deal}

module _ {D : Type 0} where
  abbrev pub add_deals : List (Deal D) → MarketInfo D → MarketInfo D
  add_deals [] info = info
  add_deals (deal ∷ deals) info = add_deals deals (add_deal deal info)
