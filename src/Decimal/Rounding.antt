-- ===== src/Decimal/Rounding.antt =====
-- github.com/shopspring/decimal: the calls that round, which only the handlers use.
use exchange_server.Base.{ℕ}
use exchange_server.Decimal.{Decimals}

pub record Rounding (d : Decimals) : Type 0 where
  -- `Floor`, `Mod` and `NewFromInt`; `Mod` panics where the divisor is zero.
  pub floor : d.D → d.D
  pub mod_of : d.D → d.D → d.D
  pub of_nat : ℕ → d.D
