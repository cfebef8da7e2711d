-- ===== src/PriceQueue/Tests.antt =====
-- Runs of one side of the book at a concrete queue.
use mathlib.Core.List.{Mem, Perm}
use exchange_server.Base.{ℕ, zero, suc, List, [], ◌∷◌, ◌≡◌, refl, arith, get_or}
use exchange_server.Int.{ℤ, pos}
use exchange_server.Decimal.{Le}
use exchange_server.Decimal.Integer.{integers}
use exchange_server.PriceQueue.{
  push, pop, push_last, pop_last, up_fuel, down_fuel, less, first_child, swap,
}
use exchange_server.PriceQueue.Up.{IsHeap}
use exchange_server.PriceQueue.Order.{push_restores, pop_restores}

-- The order behind the pointer `p` has the price `p`.
abbrev price : ℕ → ℤ
price p = pos p

abbrev queue : List ℕ
queue = 9 ∷ 5 ∷ 8 ∷ 1 ∷ []

push-queue : push price 7 queue ≡ 9 ∷ 7 ∷ 8 ∷ 1 ∷ 5 ∷ []
unfolding push push_last up_fuel less swap
push-queue = refl

pop-queue : pop price queue ≡ (9, 8 ∷ 5 ∷ 1 ∷ [])
unfolding pop pop_last down_fuel less first_child swap
pop-queue = refl

queue-IsHeap : IsHeap price queue
queue-IsHeap zero p s = absurd (omega arith)
queue-IsHeap (suc zero) p s = refl
queue-IsHeap (suc (suc zero)) p s = refl
queue-IsHeap (suc (suc (suc zero))) p s = refl
queue-IsHeap (suc (suc (suc (suc c)))) p s = absurd (omega arith)

push_restores_example : IsHeap price (push price 7 queue) × Perm (push price 7 queue) (7 ∷ queue)
push_restores_example = push_restores price 7 queue queue-IsHeap

pop_restores_example :
    ((pop price queue).0 ≡ get_or queue 0)
    × IsHeap price (pop price queue).1
    × Perm ((pop price queue).0 ∷ (pop price queue).1) queue
    × ((x : ℕ) → Mem x queue → Le (price x) (price (pop price queue).0))
pop_restores_example = pop_restores price queue queue-IsHeap (omega arith)
