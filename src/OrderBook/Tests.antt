-- ===== src/OrderBook/Tests.antt =====
-- Runs of the order book at a concrete queue.
use exchange_server.Base.{ℕ, [], ◌∷◌, ◌≡◌, refl, ◌==◌, if◌then◌else◌}
use exchange_server.Int.{ℤ, pos, ◌+ℤ◌}
use exchange_server.Text.{codes, print_nat}
use exchange_server.Dict.{lookup, insert}
use exchange_server.Decimal.Integer.{integers}
use exchange_server.Order.{Order, blank, side_bid}
use exchange_server.OrderBook.{add_levels, level_at}

-- Two bids at 10, and one at 9.
abbrev memory : ℕ → Order ℤ
memory p = record blank { side = side_bid; price = if p == 2 then pos 9 else pos 10; left = pos p }

level_at-memory : level_at memory (codes "10") (add_levels memory (1 ∷ 2 ∷ 3 ∷ []) []) ≡ pos 4
unfolding add_levels lookup insert print_nat ◌+ℤ◌
level_at-memory = refl
