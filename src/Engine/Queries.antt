-- ===== src/Engine/Queries.antt =====
-- internal/matchengine/engine/engine.go: the engine's queries, and the loading of saved orders and
-- balances. A map is read in the order of its list, where Go gives any order.
use mathlib.Core.Option
use exchange_server.Base.{
  Bool, false, ℕ, ◌-◌, ◌^◌, ◌%◌, Option, none, some, List, [], ◌∷◌, if◌then◌else◌, nat_eq, leb,
  length, take, drop, map,
}
use exchange_server.Int.{ℤ, pos, negsuc, ◌+ℤ◌, ltb_ℤ}
use exchange_server.Text.{Text, text_eq, split, colon, parse_uint}
use exchange_server.Dict.{Dict, lookup}
use exchange_server.Decimal.{Decimals}
use exchange_server.Order.{Order, is_active}
use exchange_server.OrderBook.{OrderBook, get_orders, put_order}
use exchange_server.Balance.{Balance, Book, set_balance}
use exchange_server.OperLog.{OperLogWriter}
use exchange_server.Engine.Stops.{check_stop_orders}
use exchange_server.Engine.State.{
  Event, pure, ◌>>=◌, Trade, AssetConfig, Engine, returns, panic, M, ◌>>=◌, ◌>>◌, lock, unlock,
  read_lock, modify, gets, book_of, set_book, get_or_create_order_book,
}

-- `trades[offset:end]` panics, `none` here, unless `0 <= offset <= end`: the bounds are signed.
abbrev pub slice : {A : Type 0} → List A → ℤ → ℤ → Option (List A)
slice l (negsuc i) end = none
slice l (pos i) (negsuc j) = none
slice l (pos i) (pos j) = if leb i j then some (take (j - i) (drop i l)) else none

-- The body of `GetOrderTrades` on the trades of the order.
unfoldable pub page : {A : Type 0} → List A → ℤ → ℤ → Option (List A × ℕ)
page trades offset limit =
    let total = length trades in
    let sum = offset +ℤ limit in
    let end = if ltb_ℤ (pos total) sum then pos total else sum in
    if ltb_ℤ offset (pos total)
    then Option.map (λ l. (l, total)) (slice trades offset end)
    else some ([], total)

module _ ⦃d : Decimals⦄ where
  open d use {D, zero as nothing}

  unfoldable pub get_order_book : Text → M (Option OrderBook)
  get_order_book market = do read_lock; gets (λ e. lookup market e.order_books)

  unfoldable pub get_order : ℕ → M (Option ℕ)
  get_order order_id = do read_lock; gets (λ e. lookup order_id e.order_index)

  unfoldable pub get_user_order : ℕ → ℕ → M (Option ℕ)
  get_user_order user order_id = do
    read_lock
    gets (λ e. elim (lookup user e.user_orders) [ none ↦ none | some own ↦ lookup order_id own ])

  unfoldable pub get_user_orders : ℕ → M (List ℕ)
  get_user_orders user = do
    read_lock
    gets (λ e. elim (lookup user e.user_orders) [
      | none ↦ []
      | some own ↦ map (λ (order_id, p). p) own
    ])

  unfoldable pub list_markets : M (List Text)
  list_markets = do read_lock; gets (λ e. map (λ (market, ob). market) e.order_books)

  unfoldable pub get_all_assets : M (List AssetConfig)
  get_all_assets = do read_lock; gets (λ e. map (λ (name, asset). asset) e.assets)

  unfoldable pub get_all_orders : M (Dict Text (List ℕ))
  get_all_orders = do
    read_lock
    gets (λ e. map (λ (market, ob). (market, get_orders ob)) e.order_books)

  -- `orders[len(orders)-1].Price`
  abbrev pub last_price : (ℕ → Order D) → List ℕ → D
  last_price memory [] = nothing
  last_price memory (p ∷ []) = (memory p).price
  last_price memory (p ∷ q ∷ rest) = last_price memory (q ∷ rest)

  unfoldable pub get_last_price : Text → M D
  get_last_price market = do
    read_lock
    gets (λ e. elim (lookup market e.order_books) [
      | none ↦ nothing
      | some ob ↦ last_price e.memory (get_orders ob)
    ])

  abbrev pub or_panic : {A : Type 0} → Option A → M A
  or_panic none e = panic
  or_panic (some a) e = returns (a, e)

  unfoldable pub get_order_trades : ℕ → ℤ → ℤ → M (List (Trade D) × ℕ)
  unfolding page
  get_order_trades order_id offset limit = do
    read_lock
    found ← gets (λ e. lookup order_id e.order_trades)
    or_panic (page (elim found [ none ↦ [] | some l ↦ l ]) offset limit)

  unfoldable pub check_and_trigger_stop_orders : Text → D → M (List (Order D))
  check_and_trigger_stop_orders market price = do
    lock
    r ← gets (λ e. check_stop_orders market price e.stops)
    modify (λ e. record e { stops = r.1 })
    unlock
    pure r.0

  -- Without a writer the log is not blocked, and its queue is empty.
  unfoldable pub is_oper_log_blocked : Engine D → Bool
  is_oper_log_blocked e = elim e.oper_log [ none ↦ false | some w ↦ w.blocked ]

  unfoldable pub get_oper_log_queue_length : Engine D → ℕ
  get_oper_log_queue_length e = elim e.oper_log [ none ↦ 0 | some w ↦ length w.logs ]

  unfoldable pub set_producer : Option (List (Event D)) → Engine D → Engine D
  set_producer producer e = record e { producer = producer }

  unfoldable pub set_oper_log_writer : Option OperLogWriter → Engine D → Engine D
  set_oper_log_writer writer e = record e { oper_log = writer }

  -- `LoadOrdersToEngine`: the inner loop, and the outer one.
  unfoldable pub put_orders : (ℕ → Order D) → List ℕ → OrderBook → OrderBook
  put_orders memory [] ob = ob
  put_orders memory (p ∷ l) ob =
      put_orders memory l (if is_active (memory p) then put_order memory p ob else ob)

  unfoldable pub put_markets : List (Text × List ℕ) → Engine D → Engine D
  unfolding put_orders get_or_create_order_book
  put_markets [] e = e
  put_markets ((market, l) ∷ rest) e =
      let opened = get_or_create_order_book market e in
      put_markets rest (set_book market (put_orders e.memory l (book_of market opened)) opened)

  unfoldable pub load_orders_to_engine : List (Text × List ℕ) → M (Unit {0})
  unfolding put_markets
  load_orders_to_engine orders = do lock; modify (put_markets orders); unlock

  -- `LoadBalancesToEngine`: a key that is not two fields is passed over, the user id that does not
  -- parse reads as what `ParseUint` returns beside the error.
  unfoldable pub load_balance : Text → Balance D → Book D → Book D
  load_balance k b bm = elim (split colon k) [
    | [] ↦ bm
    | user ∷ [] ↦ bm
    | user ∷ asset ∷ [] ↦
        set_balance ((parse_uint (2 ^ 32 - 1) user).0 % 2 ^ 32) b.asset b.available b.frozen bm
    | user ∷ asset ∷ more ∷ rest ↦ bm
  ]

  unfoldable pub load_balances : Book D → Book D → Book D
  unfolding load_balance
  load_balances [] bm = bm
  load_balances ((k, b) ∷ saved) bm = load_balances saved (load_balance k b bm)

  unfoldable pub load_balances_to_engine : Book D → M (Unit {0})
  unfolding load_balances
  load_balances_to_engine saved = do
    lock
    modify (λ e. record e { balances = load_balances saved e.balances })
    unlock
