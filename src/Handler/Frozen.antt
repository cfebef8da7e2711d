-- ===== src/Handler/Frozen.antt =====
-- What the handlers freeze, and what they give back.
use exchange_server.Base.{
  ℕ, suc, ◌+◌, ◌%◌, ◌^◌, ◌≡◌, refl, sym, ap, ◌∙◌, Bool-cases, Option-cases, false, none, some, inl,
  inr, List, [], arith, nat_eq,
}
use exchange_server.Text.{Text, text_eq}
use exchange_server.Dict.{lookup, insert-lookup, beq_self}
use exchange_server.Decimal.{Decimals, is_zero}
use exchange_server.Decimal.Laws.{sub_zero, sub_self}
use exchange_server.Order.{status_finished, write}
use exchange_server.OrderBook.{queue_of}
use exchange_server.Balance.{Book, key, unfreeze, lock_balance, unlock_balance}
use exchange_server.Engine.State.{
  MarketConfig, Engine, returns, ◌>>=◌, next_id, alloc, book_of, get_or_create_order_book,
}
use exchange_server.Engine.Matching.{taker_queue}
use exchange_server.Engine.Start.{Idle}
use exchange_server.Engine.Commands.{lock_funds, process_order}
use exchange_server.Engine.Placing.{
  process_order_rests, finish_unmatched, funded_engine, finish_unmatched-left,
  finish_unmatched-balances, finish_unmatched-status,
}
use exchange_server.Handler.Params.{ok}
use exchange_server.Handler.Info.{order_to_info, trades_to_infos}
use exchange_server.Handler.Puts.{PutLimit}
use exchange_server.Handler.Placing.{
  PutReply, cost, unspent, limit_order_of, limit_processed, limit_funded, put_limit,
}

module _ ⦃d : Decimals⦄ where
  open d use {D, zero, add, sub, mul, add_zero}

  -- Giving nothing back leaves the book as it was, whatever is frozen.
  unlock_zero : (u : ℕ) (a : Text) (bm : Book D) → (unlock_balance u a zero bm).0 ≡ bm
  unfolding unlock_balance unfreeze
  unlock_zero u a bm = elim (Option-cases (lookup (key u a) bm)) [
    | inl e ↦ ground arith
    | inr (b, e) ↦
        ground (arith, sub_zero b.frozen, add_zero b.available, insert-lookup (key u a) b bm e)
  ]

  unspent_all : (side : ℕ) (price amount : D) → unspent side price amount amount ≡ zero
  unspent_all side price amount = ground (arith, sub_self (mul price amount), sub_self amount)

  unlock_unspent :
      (u side : ℕ) (market : Text) (price amount left : D) (bm : Book D)
      → left ≡ amount
      → (unlock_balance u market (unspent side price amount left) bm).0 ≡ bm
  unlock_unspent u side market price amount left bm h =
      ap (λ x. (unlock_balance u market (unspent side price amount x) bm).0) h
      ∙ ap (λ x. (unlock_balance u market x bm).0) (unspent_all side price amount)
      ∙ unlock_zero u market bm

module _ ⦃d : Decimals⦄ (now : ℕ) where
  open d use {D}

  -- The engine once the handler has frozen the cost of the order, and the order stands in memory.
  abbrev pub placed : PutLimit D → Engine D → Engine D
  placed a e =
      let id = (e.id_value + 1) % 2 ^ 64 in
      record e {
        balances = (lock_balance a.user a.market (cost a.side a.price a.amount) e.balances).0;
        id_value = id;
        memory = write e.memory e.next_address (limit_order_of now a id);
        next_address = suc e.next_address;
      }

  -- A fresh order that the engine did not touch gets an answer with no trade, and nothing back.
  limit_processed_unspent :
      (a : PutLimit D) (p : ℕ) (g : Engine D)
      → (g.memory p).left ≡ a.amount
      → limit_processed now a p ([], none) g
        ≡ returns (ok (record { order = order_to_info now (g.memory p); trades = [] }), g)
  unfolding limit_processed trades_to_infos
  limit_processed_unspent a p g h = elim (Bool-cases (is_zero (g.memory p).left)) [
    | inl nothing_left ↦ rw nothing_left refl
    | inr some_left ↦ rw some_left (
        ap
          (λ b. returns (
            ok (record { order = order_to_info now (g.memory p); trades = [] }),
            record g { balances = b },
          ))
          (unlock_unspent a.user a.side a.market a.price a.amount (g.memory p).left g.balances h))
  ]

  put_limit_start :
      (fuel : ℕ) (a : PutLimit D) (e : Engine D)
      → (lock_balance a.user a.market (cost a.side a.price a.amount) e.balances).1 ≡ none
      → put_limit now fuel a e
        ≡ (process_order now fuel e.next_address >>= limit_processed now a e.next_address)
            (placed a e)
  unfolding put_limit limit_funded next_id alloc
  put_limit_start fuel a e h = rw (h, limit_funded) refl

  -- A limit order in a configured market, on an engine whose lock is free, with enough under the
  -- market's own name for the handler's freeze and enough money or stock for the engine's, that
  -- finds nothing to trade with: the handler answers with no trade and with the order as finished,
  -- and the balances are left with both freezes; neither is given back.
  pub put_limit_unmatched :
      (fuel : ℕ) (a : PutLimit D) (e : Engine D) (config : MarketConfig) (q : List ℕ)
      → e.locked ≡ false
      → lookup a.market e.markets ≡ some config
      → (lock_balance a.user a.market (cost a.side a.price a.amount) e.balances).1 ≡ none
      → (lock_funds now config ((placed a e).memory e.next_address) (placed a e)).1 ≡ none
      → queue_of (taker_queue ((placed a e).memory e.next_address)) (book_of a.market e) ≡ q
      → Idle ((placed a e).memory e.next_address) (placed a e).memory q
      → (reply : PutReply D) × (f : Engine D) × (put_limit now (suc fuel) a e
          ≡ returns (ok reply, f))
        × (reply.trades ≡ [])
        × (reply.order.status ≡ status_finished)
        × (f.balances
            ≡ (lock_funds now config ((placed a e).memory e.next_address) (placed a e)).0.balances)
  unfolding order_to_info get_or_create_order_book
  put_limit_unmatched fuel a e config q free known frozen funded h i =
      let p = e.next_address in
      let own : (placed a e).memory p ≡ limit_order_of now a (placed a e).id_value =
        rw (beq_self p) refl in
      let fresh : ((placed a e).memory p).left ≡ ((placed a e).memory p).amount =
        ap (λ o. o.left) own ∙ sym (ap (λ o. o.amount) own) in
      let funded_now = funded_engine now config p (placed a e) in
      let rested = finish_unmatched now p (funded_engine now config p (placed a e)) in
      let g = record rested { locked = false } in
      (
        record { order = order_to_info now (g.memory p); trades = [] },
        g,
        put_limit_start (suc fuel) a e frozen
            ∙ rw
                (
                  process_order_rests now fuel p (placed a e) free config
                      (ap (λ o. lookup o.market e.markets) own ∙ known) q funded
                      (ap (λ o. queue_of (taker_queue ((placed a e).memory p)) (book_of o.market e))
                          own
                        ∙ h)
                      i,
                  ◌>>=◌,
                )
                (limit_processed_unspent a p g
                  (finish_unmatched-left now p funded_now fresh ∙ ap (λ o. o.left) own)),
        refl,
        finish_unmatched-status now p funded_now fresh,
        finish_unmatched-balances now p (funded_engine now config p (placed a e)),
      )
