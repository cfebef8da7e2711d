-- ===== src/DealConsumer/Tests.antt =====
-- Runs of the consumer of deals.
use exchange_server.Base.{ℕ, ◌≡◌, refl, true, none, some, List, [], ◌∷◌, ◌++◌, arith}
use exchange_server.Int.{pos}
use exchange_server.DealConsumer.{Read, message, read_error, at_offset, Consumed, start}
use exchange_server.DealConsumer.Resumed.{deals_from, InOrder, start_resumes}

abbrev reads : List (Read ℕ)
reads = message 3 (some 30) ∷ message 4 (some 40) ∷ message 5 none ∷ message 6 (some 60) ∷ []

abbrev nothing : Consumed ℕ
nothing = record { handled = []; saved = none }

reads-InOrder : InOrder reads
reads-InOrder = (
  (omega arith, (omega arith, (omega arith, tt))),
  ((omega arith, (omega arith, tt)), ((omega arith, tt), (tt, tt))),
)

start_resumes_example :
    (start (λ n. true) (at_offset (pos 4)) reads nothing).handled ≡ [] ++ deals_from 4 reads
start_resumes_example = start_resumes (λ n. true) 4 reads nothing reads-InOrder

later_deals : (start (λ n. true) (at_offset (pos 4)) reads nothing).handled ≡ 40 ∷ 60 ∷ []
unfolding start
later_deals = refl

-- After an error in the first loop the deals before the stored offset are handled again.
handled_again :
    (start (λ n. true) (at_offset (pos 9)) (read_error ∷ message 3 (some 30) ∷ []) nothing).handled
    ≡ 30 ∷ []
unfolding start
handled_again = refl
