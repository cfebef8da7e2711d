-- ===== src/Engine/State.antt =====
-- internal/matchengine/engine/engine.go and model/types.go: the engine's state, what a call can
-- come to, and the calls as state passing.
use exchange_server.Base.{
  ℕ, suc, ◌+◌, ◌%◌, ◌^◌, Bool, true, false, Option, none, some, List, [], ◌∷◌, ◌++◌, if◌then◌else◌,
  nat_eq,
}
use exchange_server.Text.{Text, text_eq}
use exchange_server.Dict.{Dict, lookup, insert, erase}
use exchange_server.Decimal.{Decimals}
use exchange_server.Order.{Order, write}
use exchange_server.OrderBook.{OrderBook, new_order_book}
use exchange_server.OperLog.{OperLogWriter, LogData, new_oper_log, write_log}
use exchange_server.Balance.{Book}

pub record MarketConfig : Type 0 where
  pub name : Text
  pub stock : Text
  pub money : Text
  pub stock_prec : ℕ
  pub money_prec : ℕ
  pub fee_prec : ℕ
  pub min_amount : Text

pub record AssetConfig : Type 0 where
  pub name : Text
  pub prec : ℕ
  pub prec_show : ℕ

pub record Trade (D : Type 0) : Type 0 where
  pub id : ℕ
  pub taker_order_id : ℕ
  pub maker_order_id : ℕ
  pub taker_user_id : ℕ
  pub maker_user_id : ℕ
  pub market : Text
  pub side : ℕ
  pub price : D
  pub amount : D
  pub taker_fee : D
  pub maker_fee : D
  pub created_at : ℕ

pub record StopOrder (D : Type 0) : Type 0 where
  pub order : Order D
  pub trigger_price : D
  pub triggered : Bool

-- What the producer is handed, each in a goroutine of its own.
pub data Event (D : Type 0) : Type 0 where
  order_event : ℕ → ℕ → Event D
  deal_event : Trade D → Event D
  balance_update : ℕ → Text → D → Event D

-- `locked` is the state of the engine's mutex; a component that may be nil is an option.
pub record Engine (D : Type 0) : Type 0 where
  pub locked : Bool
  pub memory : ℕ → Order D
  pub next_address : ℕ
  pub order_books : Dict Text OrderBook
  pub balances : Book D
  pub id_value : ℕ
  pub markets : Dict Text MarketConfig
  pub assets : Dict Text AssetConfig
  pub order_trades : Dict ℕ (List (Trade D))
  pub stops : Dict Text (List (StopOrder D))
  pub user_orders : Dict ℕ (Dict ℕ ℕ)
  pub order_index : Dict ℕ ℕ
  pub producer : Option (List (Event D))
  pub oper_log : Option OperLogWriter
  pub history : Option (List (Order D))

-- What a call comes to: it returns, it waits for ever on a mutex that its own goroutine holds, it
-- panics, or the model's fuel ends.
pub data Run (A : Type 0) : Type 0 where
  returns : A → Run A
  deadlock panic no_fuel : Run A

module _ ⦃d : Decimals⦄ where
  open d use {D}

  abbrev pub M : Type 0 → Type 0
  M A = Engine D → Run (A × Engine D)

  abbrev pub pure : {A : Type 0} → A → M A
  pure a e = returns (a, e)

  infixl 5 ◌>>=◌ ◌>>◌
  abbrev pub ◌>>=◌ : {A B : Type 0} → M A → (A → M B) → M B
  ◌>>=◌ m f e = elim (m e) [
    | returns r ↦ f r.0 r.1
    | deadlock ↦ deadlock
    | panic ↦ panic
    | no_fuel ↦ no_fuel
  ]

  abbrev pub ◌>>◌ : {B : Type 0} → M (Unit {0}) → M B → M B
  m >> k = m >>= λ _. k

  abbrev pub gets : {A : Type 0} → (Engine D → A) → M A
  gets f e = returns (f e, e)

  abbrev pub modify : (Engine D → Engine D) → M (Unit {0})
  modify f e = returns (tt, f e)

  -- Go's mutexes are not reentrant: `Lock` and `RLock` wait while `Lock` is held.
  abbrev pub lock : M (Unit {0})
  lock e = if e.locked then deadlock else returns (tt, record e { locked = true })

  abbrev pub unlock : M (Unit {0})
  unlock e = returns (tt, record e { locked = false })

  abbrev pub read_lock : M (Unit {0})
  read_lock e = if e.locked then deadlock else returns (tt, e)

  -- `IDGenerator.NextID`, a 64-bit counter.
  unfoldable pub next_id : M ℕ
  next_id e = let v = (e.id_value + 1) % 2 ^ 64 in returns (v, record e { id_value = v })

  abbrev pub set_order : ℕ → Order D → Engine D → Engine D
  set_order p o e = record e { memory = write e.memory p o }

  -- A new order in memory.
  unfoldable pub alloc : Order D → M ℕ
  alloc o e =
      let p = e.next_address in
      returns (p, record e { memory = write e.memory p o; next_address = suc p })

  -- `if e.producer != nil { … }`
  unfoldable pub send : Event D → Engine D → Engine D
  send event e = record e {
    producer = elim e.producer [ none ↦ none | some sent ↦ some (sent ++ event ∷ []) ];
  }

  -- `WriteOperLog`
  unfoldable pub write_oper_log : LogData → ℕ → Engine D → Engine D
  write_oper_log content now e = record e {
    oper_log = elim e.oper_log [
      | none ↦ none
      | some w ↦ some (write_log (new_oper_log content now) w)
    ];
  }

  -- `AppendOrderHistory`, with the order as it stands at the call.
  unfoldable pub append_order_history : ℕ → Engine D → Engine D
  append_order_history p e = record e {
    history = elim e.history [ none ↦ none | some h ↦ some (h ++ e.memory p ∷ []) ];
  }

  -- `getMarketLocked`
  abbrev pub get_market_locked : Text → Engine D → Option MarketConfig
  get_market_locked name e = lookup name e.markets

  -- `GetMarket` and `GetAsset`
  unfoldable pub get_market : Text → M (Option MarketConfig)
  get_market name = do read_lock; gets (get_market_locked name)

  unfoldable pub get_asset : Text → M (Option AssetConfig)
  get_asset name = do read_lock; gets (λ e. lookup name e.assets)

  -- The book of a market, which its name stands for, as pointers do in the source.
  abbrev pub book_of : Text → Engine D → OrderBook
  book_of market e = elim (lookup market e.order_books) [ none ↦ new_order_book | some ob ↦ ob ]

  abbrev pub set_book : Text → OrderBook → Engine D → Engine D
  set_book market ob e = record e { order_books = insert market ob e.order_books }

  -- `getOrCreateOrderBookLocked`
  unfoldable pub get_or_create_order_book : Text → Engine D → Engine D
  get_or_create_order_book market e = record e {
    order_books = elim (lookup market e.order_books) [
      | none ↦ insert market new_order_book e.order_books
      | some ob ↦ e.order_books
    ];
  }

  -- `orderTrades[id] = append(orderTrades[id], trade)`
  abbrev pub append_trade : ℕ → Trade D → Dict ℕ (List (Trade D)) → Dict ℕ (List (Trade D))
  append_trade order_id trade m =
      insert order_id ((elim (lookup order_id m) [ none ↦ [] | some l ↦ l ]) ++ trade ∷ []) m

  -- `AddTradeToOrder`
  unfoldable pub add_trade_to_order : Trade D → M (Unit {0})
  add_trade_to_order trade = do
    lock
    modify (λ e. record e {
      order_trades =
          append_trade trade.maker_order_id trade
            (append_trade trade.taker_order_id trade e.order_trades);
    })
    unlock

  -- `addToUserIndex`
  unfoldable pub add_to_user_index : ℕ → Engine D → Engine D
  add_to_user_index p e =
      let o = e.memory p in
      let own : Dict ℕ ℕ = elim (lookup o.user_id e.user_orders) [ none ↦ [] | some m ↦ m ] in
      record e {
        user_orders = insert o.user_id (insert o.id p own) e.user_orders;
        order_index = insert o.id p e.order_index;
      }

  -- A user whose last order goes leaves the index.
  abbrev pub drop_user_order : ℕ → ℕ → Dict ℕ (Dict ℕ ℕ) → Dict ℕ ℕ → Dict ℕ (Dict ℕ ℕ)
  drop_user_order user order_id users own = elim (erase order_id own) [
    | [] ↦ erase user users
    | entry ∷ rest ↦ insert user (entry ∷ rest) users
  ]

  -- `removeFromUserIndex`
  unfoldable pub remove_from_user_index : ℕ → ℕ → Engine D → Engine D
  remove_from_user_index user order_id e = record e {
    user_orders = elim (lookup user e.user_orders) [
      | none ↦ e.user_orders
      | some own ↦ drop_user_order user order_id e.user_orders own
    ];
    order_index = erase order_id e.order_index;
  }
