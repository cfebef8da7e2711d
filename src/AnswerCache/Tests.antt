-- ===== src/AnswerCache/Tests.antt =====
-- Runs of the cache at concrete events.
use exchange_server.Base.{List, [], ◌∷◌, ◌≡◌, arith}
use exchange_server.Text.{codes}
use exchange_server.AnswerCache.{get}
use exchange_server.AnswerCache.Aging.{Event, sets, cleans, run, run_sets, get-run}

abbrev events : List Event
events = sets (codes "a") (1 ∷ []) 5 ∷ cleans 70 ∷ sets (codes "b") (2 ∷ []) 71 ∷ cleans 130 ∷ []

get-run_example :
    get 60 (codes "b") 130 (run 60 events []) ≡ get 60 (codes "b") 130 (run_sets 60 events [])
get-run_example = get-run 60 events 130 (codes "b") (omega arith, (omega arith, tt))
