-- ===== src/Balance/Tests.antt =====
-- Runs of the balance methods at concrete inputs.
use exchange_server.Base.{List, ◌≡◌, refl, none, some, [], ◌∷◌, arith, inl}
use exchange_server.Int.{ℤ, pos, negsuc, ◌+ℤ◌, ◌-ℤ◌}
use exchange_server.Text.{Text, codes, print_nat, text_eq}
use exchange_server.Dict.{lookup, insert}
use exchange_server.Decimal.Integer.{integers}
use exchange_server.Balance.{
  Book, Balance, insufficient_balance, balance_not_found, key, get_balance, freeze, unfreeze, sub,
  add, change, set_balance, Op, freezes, unfreezes, subtracts, adds, changes, sets, apply, run,
  list_assets,
}
use exchange_server.Balance.Keyed.{IsKeyed}
use exchange_server.Balance.Solvency.{IsSolvent, run-IsSolvent}
use exchange_server.Balance.Holdings.{total, inflows, total-run}
use exchange_server.Balance.Accounts.{apply_atomic, apply_others}

abbrev btc : Text
btc = codes "BTC"

abbrev usdt : Text
usdt = codes "USDT"

abbrev held : Balance ℤ
held = record { user_id = 7; asset = btc; available = pos 50; frozen = pos 5 }

abbrev cash : Balance ℤ
cash = record { user_id = 7; asset = usdt; available = pos 900; frozen = pos 0 }

abbrev other_user : Balance ℤ
other_user = record { user_id = 77; asset = btc; available = pos 3; frozen = pos 0 }

abbrev book : Book ℤ
book = (codes "7:BTC", held) ∷ (codes "7:USDT", cash) ∷ (codes "77:BTC", other_user) ∷ []

-- The fourth call and the fifth fail.
abbrev session : List (Op ℤ)
session =
    freezes 7 btc (pos 20)
    ∷ adds 8 btc (pos 4)
    ∷ changes 7 usdt (negsuc 99)
    ∷ subtracts 77 btc (pos 9)
    ∷ unfreezes 77 btc (pos 1)
    ∷ sets 77 btc (pos 1) (pos 1)
    ∷ []

errors :
    ((freeze 7 btc (pos 51) book).1 ≡ some insufficient_balance)
    × ((sub 9 btc (pos 1) book).1 ≡ some balance_not_found)
    × ((freeze 7 btc (pos 50) book).1 ≡ none)
unfolding freeze sub key lookup insert print_nat
errors = (refl, refl, refl)

assets : list_assets book ≡ btc ∷ usdt ∷ []
unfolding list_assets insert
assets = refl

run-session : get_balance 7 btc (run session book) ≡ (pos 30, pos 25)
unfolding run apply freeze add change sub unfreeze key lookup insert print_nat get_balance
    set_balance ◌+ℤ◌ ◌-ℤ◌
run-session = refl

book-IsSolvent : IsSolvent book
book-IsSolvent = ground arith

book-IsKeyed : IsKeyed book
unfolding key print_nat
book-IsKeyed = (refl, (refl, (refl, tt)))

run-IsSolvent_example : IsSolvent (run session book)
run-IsSolvent_example = run-IsSolvent session book (ground arith) book-IsSolvent

total-run_example : total btc (run session book) ≡ total btc book +ℤ inflows btc session book
total-run_example = total-run btc session book book-IsKeyed

apply_atomic_example : (apply (freezes 7 btc (pos 51)) book).0 ≡ book
unfolding apply freeze key lookup insert print_nat
apply_atomic_example = apply_atomic (freezes 7 btc (pos 51)) book insufficient_balance refl

apply_others_example :
    get_balance 77 btc (apply (freezes 7 btc (pos 20)) book).0 ≡ get_balance 77 btc book
apply_others_example = apply_others (freezes 7 btc (pos 20)) 77 btc book (inl (omega arith))
