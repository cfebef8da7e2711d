-- ===== src/Engine/Settling.antt =====
-- What `settleTrade` and one round of `matchAsTaker` leave of an engine whose lock is free, in a
-- market where no stop order waits.
use exchange_server.Base.{
  ℕ, ◌≡◌, refl, false, Option, none, some, [], Option-cases, inl, inr, arith, nat_eq, ◌%◌, ◌^◌, ◌+◌,
}
use exchange_server.Text.{Text, text_eq}
use exchange_server.Dict.{lookup, insert, lookup-insert, beq_self}
use exchange_server.Decimal.{Decimals}
use exchange_server.Engine.State.{
  MarketConfig, Trade, Engine, returns, deal_event, ◌>>=◌, send, next_id, set_order, append_trade,
  add_trade_to_order, get_market,
}
use exchange_server.Engine.Stops.{get_stop_orders, check_stop_orders, check_list}
use exchange_server.Engine.Matching.{
  Matcher, settle_balances, settle_in, settle_trade, check_stop_orders_after_trade, run_triggered,
  drop_filled, make_trade, trade_round,
}

module _ ⦃d : Decimals⦄ where
  open d use {D, sub}

  -- An order with less left.
  abbrev pub take_amount : ℕ → D → Engine D → Engine D
  take_amount p amount e =
      set_order p (record (e.memory p) { left = sub (e.memory p).left amount }) e

module _ ⦃d : Decimals⦄ (now : ℕ) where
  open d use {D}

  -- The engine after the settlement.
  pub settled : Trade D → Option MarketConfig → Engine D → Engine D
  settled t none e = e
  settled t (some config) e =
      let noted = record (send (deal_event t) e) {
        locked = false;
        order_trades =
            append_trade t.maker_order_id t (append_trade t.taker_order_id t e.order_trades);
      } in
      let moved = settle_balances config t noted in
      record moved { stops = insert t.market [] moved.stops }

  pub settle_trade-settled :
      (matcher : Matcher) (t : Trade D) (e : Engine D)
      → e.locked ≡ false
      → get_stop_orders t.market e.stops ≡ []
      → settle_trade now matcher t e ≡ returns (tt, settled t (lookup t.market e.markets) e)
  unfolding settle_trade get_market settled settle_in add_trade_to_order send settle_balances
      check_stop_orders_after_trade check_stop_orders check_list run_triggered
  settle_trade-settled matcher t e free calm = elim (Option-cases (lookup t.market e.markets)) [
    | inl unknown ↦ rw (free, settle_trade, get_market) (rw unknown)
    | inr (config, known) ↦ rw (free, settle_trade, get_market) (rw known (rw calm))
  ]

  -- What the settlement leaves alone.
  pub settled-memory :
      (t : Trade D) (found : Option MarketConfig) (e : Engine D)
      → (settled t found e).memory ≡ e.memory
  unfolding settled settle_balances send
  settled-memory t none e = refl
  settled-memory t (some config) e = refl

  pub settled-order_books :
      (t : Trade D) (found : Option MarketConfig) (e : Engine D)
      → (settled t found e).order_books ≡ e.order_books
  unfolding settled settle_balances send
  settled-order_books t none e = refl
  settled-order_books t (some config) e = refl

  pub settled-locked :
      (t : Trade D) (found : Option MarketConfig) (e : Engine D)
      → e.locked ≡ false
      → (settled t found e).locked ≡ false
  unfolding settled settle_balances send
  settled-locked t none e free = free
  settled-locked t (some config) e free = refl

  pub settled-stops :
      (t : Trade D) (found : Option MarketConfig) (e : Engine D)
      → get_stop_orders t.market e.stops ≡ []
      → get_stop_orders t.market (settled t found e).stops ≡ []
  unfolding settled settle_balances send get_stop_orders
  settled-stops t none e calm = calm
  settled-stops t (some config) e calm =
      ground (arith, lookup-insert t.market t.market [] e.stops, beq_self t.market)

  -- The trade of a round, and the engine with both orders changed.
  abbrev pub round_trade : ℕ → ℕ → Engine D → Trade D
  round_trade p maker e = make_trade now ((e.id_value + 1) % 2 ^ 64) (e.memory p) (e.memory maker)

  abbrev pub amounts_taken : ℕ → ℕ → Engine D → Engine D
  amounts_taken p maker e =
      let t = round_trade p maker e in
      take_amount maker t.amount (take_amount p t.amount (record e { id_value = t.id }))

  -- The engine after a round.
  abbrev pub traded : ℕ → ℕ → ℕ → Text → Engine D → Engine D
  traded p maker side market e =
      let t = round_trade p maker e in
      drop_filled maker side market
        (settled t (lookup t.market e.markets) (amounts_taken p maker e))

  pub trade_round-traded :
      (matcher : Matcher) (p maker side : ℕ) (market : Text) (e : Engine D)
      → e.locked ≡ false
      → get_stop_orders (e.memory p).market e.stops ≡ []
      → trade_round now matcher p maker side market e
        ≡ returns (round_trade p maker e, traded p maker side market e)
  unfolding trade_round next_id
  trade_round-traded matcher p maker side market e free calm = rw (
    settle_trade-settled matcher (round_trade p maker e) (amounts_taken p maker e) free calm,
    ◌>>=◌,
  )
