-- ===== src/Engine/Placing.antt =====
-- What `ProcessOrder` comes to on its branches.
use exchange_server.Base.{
  ℕ, suc, ◌≡◌, refl, ap, ◌∙◌, true, false, none, some, List, [], ◌∷◌, arith, nat_eq,
}
use exchange_server.Text.{text_eq}
use exchange_server.Dict.{lookup, beq_self}
use exchange_server.Decimal.{Decimals}
use exchange_server.Decimal.Laws.{le_refl}
use exchange_server.Order.{Order, status_finished}
use exchange_server.OrderBook.{queue_of}
use exchange_server.OperLog.{order_create}
use exchange_server.Balance.{BalanceError, lock_balance, freeze}
use exchange_server.Engine.State.{
  MarketConfig, Engine, returns, deadlock, order_event, append_order_history, send, write_oper_log,
  ◌>>=◌, book_of, get_or_create_order_book,
}
use exchange_server.Engine.Matching.{taker_queue, match_as_taker, match_with, rest_or_finish}
use exchange_server.Engine.Start.{
  Crosses, Idle, match_stops, match_locked, book_of-get_or_create_order_book,
}
use exchange_server.Engine.Commands.{
  balance_error, lock_funds, process_order, admit_in, admit_funded, admit_order, record_closed,
  log_of, order_event_put,
}

module _ ⦃d : Decimals⦄ (now : ℕ) where
  open d use {D}

  -- The freeze of an order looks at the balances alone.
  lock_funds_of :
      (config : MarketConfig) (o : Order D) (e f : Engine D)
      → f.balances ≡ e.balances
      → lock_funds now config o f ≡ (
        record f { balances = (lock_funds now config o e).0.balances },
        (lock_funds now config o e).1,
      )
  unfolding lock_funds
  lock_funds_of config o e f h = rw h

  lock_funds_failed :
      (config : MarketConfig) (o : Order D) (e : Engine D) (failed : BalanceError)
      → (lock_funds now config o e).1 ≡ some failed
      → (lock_funds now config o e).0.balances ≡ e.balances
  unfolding lock_funds lock_balance freeze
  lock_funds_failed config o e failed h = ground arith

  -- The engine once an order is announced to the producer and to the log.
  abbrev pub announced : ℕ → Engine D → Engine D
  announced p e =
      write_oper_log (order_create (log_of now (e.memory p))) now
        (send (order_event order_event_put p) e)

  admit_locked :
      (f p maker : ℕ) (e : Engine D) (q : List ℕ)
      → queue_of (taker_queue (e.memory p)) (book_of (e.memory p).market e) ≡ maker ∷ q
      → Crosses (e.memory p) (e.memory maker)
      → e.locked ≡ true
      → admit_order now (match_as_taker now (suc f)) p e ≡ deadlock
  unfolding admit_order match_with send write_oper_log
  admit_locked f p maker e q h c locked = rw (
    match_locked now f p (taker_queue (e.memory p)) maker (e.memory p).market (announced p e) q h c
        locked,
    ◌>>=◌,
  )

  -- What is left of the engine by an order that found nothing to trade with.
  abbrev pub finish_unmatched : ℕ → Engine D → Engine D
  finish_unmatched p e =
      record_closed now p (rest_or_finish now p (e.memory p).market (announced p e))

  admit_unmatched :
      (f p : ℕ) (e : Engine D) (q : List ℕ)
      → queue_of (taker_queue (e.memory p)) (book_of (e.memory p).market e) ≡ q
      → Idle (e.memory p) e.memory q
      → admit_order now (match_as_taker now (suc f)) p e ≡ returns ([], finish_unmatched p e)
  unfolding admit_order match_with send write_oper_log
  admit_unmatched f p e q h i = rw (
    match_stops now f p (taker_queue (e.memory p)) (e.memory p).market (announced p e) q h i,
    ◌>>=◌,
  )

  -- A fresh order that traded nothing ends as finished, and outside of the books.
  pub finish_unmatched-status :
      (p : ℕ) (e : Engine D)
      → (e.memory p).left ≡ (e.memory p).amount
      → ((finish_unmatched p e).memory p).status ≡ status_finished
  unfolding rest_or_finish record_closed send write_oper_log append_order_history
  finish_unmatched-status p e fresh = ground (arith, fresh, le_refl (e.memory p).amount, beq_self p)

  finish_unmatched-order_books :
      (p : ℕ) (e : Engine D)
      → (e.memory p).left ≡ (e.memory p).amount
      → (finish_unmatched p e).order_books ≡ e.order_books
  unfolding rest_or_finish record_closed send write_oper_log append_order_history
  finish_unmatched-order_books p e fresh = ground (arith, fresh, le_refl (e.memory p).amount)

  pub finish_unmatched-balances :
      (p : ℕ) (e : Engine D) → (finish_unmatched p e).balances ≡ e.balances
  unfolding rest_or_finish record_closed send write_oper_log append_order_history
  finish_unmatched-balances p e = ground arith

  pub finish_unmatched-left :
      (p : ℕ) (e : Engine D)
      → (e.memory p).left ≡ (e.memory p).amount
      → ((finish_unmatched p e).memory p).left ≡ (e.memory p).left
  unfolding rest_or_finish record_closed send write_oper_log append_order_history
  finish_unmatched-left p e fresh = ground (arith, fresh, le_refl (e.memory p).amount, beq_self p)

  finish_unmatched-order_index :
      (p : ℕ) (e : Engine D) → (finish_unmatched p e).order_index ≡ e.order_index
  unfolding rest_or_finish record_closed send write_oper_log append_order_history
  finish_unmatched-order_index p e = ground arith

  finish_unmatched-user_orders :
      (p : ℕ) (e : Engine D) → (finish_unmatched p e).user_orders ≡ e.user_orders
  unfolding rest_or_finish record_closed send write_oper_log append_order_history
  finish_unmatched-user_orders p e = ground arith

  -- The engine once the funds of an order are frozen, the lock held.
  abbrev pub funded_engine : MarketConfig → ℕ → Engine D → Engine D
  funded_engine config p e =
      record (get_or_create_order_book (e.memory p).market (record e { locked = true })) {
        balances = (lock_funds now config (e.memory p) e).0.balances;
      }

  -- `ProcessOrder` of an order whose funds are frozen.
  process_order_funded :
      (fuel p : ℕ) (e : Engine D) (config : MarketConfig)
      → e.locked ≡ false
      → lookup (e.memory p).market e.markets ≡ some config
      → (lock_funds now config (e.memory p) e).1 ≡ none
      → process_order now fuel p e ≡ admit_funded now fuel p (funded_engine config p e, none)
  unfolding process_order admit_in get_or_create_order_book lock_funds
  process_order_funded fuel p e config free known funded =
      rw (free, process_order)
        (rw (known, admit_in)
          (rw
            (
              lock_funds_of config (e.memory p) e
                  (get_or_create_order_book (e.memory p).market (record e { locked = true })) refl,
              funded,
            )
            refl))

  funded_queue :
      (config : MarketConfig) (p : ℕ) (e : Engine D) (q : List ℕ)
      → queue_of (taker_queue (e.memory p)) (book_of (e.memory p).market e) ≡ q
      → queue_of (taker_queue (e.memory p)) (book_of (e.memory p).market (funded_engine config p e))
        ≡ q
  unfolding get_or_create_order_book
  funded_queue config p e q h =
      ap (queue_of (taker_queue (e.memory p)))
        (book_of-get_or_create_order_book (e.memory p).market e)
      ∙ h

module _ ⦃d : Decimals⦄ (now fuel p : ℕ) (e : Engine d.D) (free : e.locked ≡ false) where
  open d use {D}

  module _ (config : MarketConfig)
      (known : lookup (e.memory p).market e.markets ≡ some config) where
    -- On an engine whose lock is free, an order of a configured market whose funds cannot be frozen
    -- is refused: the error comes back, the balances are as they were, and at most an empty order
    -- book was made.
    pub process_order_no_funds :
        (failed : BalanceError)
        → (lock_funds now config (e.memory p) e).1 ≡ some failed
        → process_order now fuel p e
          ≡ returns
              (([], some (balance_error failed)), get_or_create_order_book (e.memory p).market e)
    unfolding process_order admit_in admit_funded get_or_create_order_book
    process_order_no_funds failed h =
        rw (free, process_order)
          (rw (known, admit_in)
            (rw
              (
                lock_funds_of now config (e.memory p) e
                    (get_or_create_order_book (e.memory p).market (record e { locked = true }))
                    refl,
                lock_funds_failed now config (e.memory p) e failed h,
                h,
              )
              refl))

    -- On an engine whose lock is free, an order of a configured market whose funds are frozen, and
    -- which crosses the first maker of the other side, never returns: `ProcessOrder` holds the
    -- engine's lock while it matches, and the settlement of the first trade waits for that lock.
    pub process_order_deadlocks :
        (maker : ℕ) (q : List ℕ)
        → (lock_funds now config (e.memory p) e).1 ≡ none
        → queue_of (taker_queue (e.memory p)) (book_of (e.memory p).market e) ≡ maker ∷ q
        → Crosses (e.memory p) (e.memory maker)
        → process_order now (suc fuel) p e ≡ deadlock
    unfolding admit_funded get_or_create_order_book
    process_order_deadlocks maker q funded h c =
        process_order_funded now (suc fuel) p e config free known funded
        ∙ rw (
          admit_locked now fuel p maker (funded_engine now config p e) q
              (funded_queue now config p e (maker ∷ q) h) c refl,
          ◌>>=◌,
        )

    -- Where `ProcessOrder` of a fresh order that finds nothing to trade with ends.
    pub process_order_rests :
        (q : List ℕ)
        → (lock_funds now config (e.memory p) e).1 ≡ none
        → queue_of (taker_queue (e.memory p)) (book_of (e.memory p).market e) ≡ q
        → Idle (e.memory p) e.memory q
        → process_order now (suc fuel) p e
          ≡ returns (
            ([], none),
            record (finish_unmatched now p (funded_engine now config p e)) { locked = false },
          )
    unfolding admit_funded get_or_create_order_book
    process_order_rests q funded h i =
        process_order_funded now (suc fuel) p e config free known funded
        ∙ rw (
          admit_unmatched now fuel p (funded_engine now config p e) q
              (funded_queue now config p e q h) i,
          ◌>>=◌,
        )

    -- On an engine whose lock is free, a fresh order of a configured market whose funds are frozen,
    -- and which finds nothing to trade with, is not put into the book: it comes back finished, with
    -- no trade and no error, while its funds stay frozen. The books are as they
    -- were, but for an empty one that may have been made, the indexes of the orders by id and by
    -- user are as they were, and the lock is free.
    pub process_order_unmatched :
        (q : List ℕ)
        → (lock_funds now config (e.memory p) e).1 ≡ none
        → (e.memory p).left ≡ (e.memory p).amount
        → queue_of (taker_queue (e.memory p)) (book_of (e.memory p).market e) ≡ q
        → Idle (e.memory p) e.memory q
        → (f : Engine D) × (process_order now (suc fuel) p e ≡ returns (([], none), f))
          × ((f.memory p).status ≡ status_finished)
          × (f.order_books ≡ (get_or_create_order_book (e.memory p).market e).order_books)
          × (f.balances ≡ (lock_funds now config (e.memory p) e).0.balances)
          × (f.order_index ≡ e.order_index)
          × (f.user_orders ≡ e.user_orders)
          × (f.locked ≡ false)
    unfolding get_or_create_order_book
    process_order_unmatched q funded fresh h i = (
      record (finish_unmatched now p (funded_engine now config p e)) { locked = false },
      process_order_rests q funded h i,
      finish_unmatched-status now p (funded_engine now config p e) fresh,
      finish_unmatched-order_books now p (funded_engine now config p e) fresh,
      finish_unmatched-balances now p (funded_engine now config p e),
      finish_unmatched-order_index now p (funded_engine now config p e),
      finish_unmatched-user_orders now p (funded_engine now config p e),
      refl,
    )
