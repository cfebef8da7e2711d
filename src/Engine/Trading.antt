-- ===== src/Engine/Trading.antt =====
-- The loop of `matchAsTaker` as a whole, on an engine whose lock is free.
use mathlib.Core.List.{Mem, Subset, mem-cons_self, mem-cons_of_mem}
use mathlib.Core.List.Perm
use exchange_server.Base.{
  ℕ, zero, suc, ◌<◌, ◌≡◌, ◌≢◌, refl, sym, ap, subst, ◌∙◌, false, List, [], ◌∷◌, Bool-cases, inl,
  inr, arith, nat_eq, All, length, ◌==◌, not,
}
use exchange_server.Text.{Text, text_eq}
use exchange_server.Decimal.{Decimals, is_positive, Le}
use exchange_server.Decimal.Laws.{sub_self, le_refl, zero_add, add_sub_total}
use exchange_server.Order.{Order, side_bid, side_ask}
use exchange_server.OrderBook.{queue_of}
use exchange_server.PriceQueue.{pop}
use exchange_server.PriceQueue.Up.{IsHeap}
use exchange_server.PriceQueue.Order.{pop_restores, first_best, length-pop}
use exchange_server.Engine.State.{Trade, Engine, returns, ◌>>=◌, book_of}
use exchange_server.Engine.Stops.{get_stop_orders}
use exchange_server.Engine.Matching.{is_market, price_stops, trade_amount, match_as_taker}
use exchange_server.Engine.Start.{match_stops, match_step, Crosses, Idle}
use exchange_server.Engine.Settling.{round_trade, traded, trade_round-traded}
use exchange_server.Engine.Filling.{
  prices, is_filled, traded-taker, traded-prices, traded-locked, traded-stops, traded-queue,
  traded-resting,
}

module _ ⦃d : Decimals⦄ where
  open d use {D, zero as nothing, add, sub}

  -- What the trades took in all.
  pub traded_amount : List (Trade D) → D
  traded_amount [] = nothing
  traded_amount (t ∷ ts) = add t.amount (traded_amount ts)

  -- The engine is ready to match the limit order at `p` against the queue `q` of the other side.
  pub record Ready (p side : ℕ) (market : Text) (e : Engine D) (q : List ℕ) : Type 0 where
    pub free : e.locked ≡ false
    pub calm : get_stop_orders market e.stops ≡ []
    pub own_market : (e.memory p).market ≡ market
    pub limit : is_market (e.memory p) ≡ false
    pub queue : queue_of side (book_of market e) ≡ q
    pub sorted : IsHeap (prices e) q
    pub outside : Mem p q → ⊥

  -- A price that the limit of an order allows.
  abbrev pub Allows : Order D → D → Type 0
  Allows o price = (o.side ≡ side_bid → Le price o.price) × (o.side ≡ side_ask → Le o.price price)

  -- Each trade's price is at least that of every later one.
  pub Descending : List (Trade D) → Type 0
  Descending [] = Unit
  Descending (t ∷ ts) = All (λ later. Le later.price t.price) ts × Descending ts

  -- What the loop comes to against a queue: trades and an engine.
  pub record Outcome (p side : ℕ) (market : Text) (e : Engine D) (q : List ℕ) (ts : List (Trade D))
      (f : Engine D) : Type 0 where
    pub total : add (traded_amount ts) (f.memory p).left ≡ (e.memory p).left
    pub allowed : All (λ t. Allows (e.memory p) t.price) ts
    pub below :
        (limit : D) → ((x : ℕ) → Mem x q → Le (prices e x) limit) → All (λ t. Le t.price limit) ts
    pub descending : Descending ts
    pub free : f.locked ≡ false
    pub kept : (f.memory p) ≡ record (e.memory p) { left = (f.memory p).left }
    pub resting :
        (own : ℕ)
        → (own == side_ask) ≡ not (side == side_ask)
        → queue_of own (book_of market f) ≡ queue_of own (book_of market e)

  -- A trade of a limit order fills the taker or the maker.
  fills_one :
      (incoming maker : Order D)
      → is_market incoming ≡ false
      → is_filled (record maker { left = sub maker.left (trade_amount incoming maker) }) ≡ false
      → is_positive (sub incoming.left (trade_amount incoming maker)) ≡ false
  fills_one incoming maker limit more =
      ground (arith, sub_self maker.left, sub_self incoming.left, le_refl nothing)

module _ ⦃d : Decimals⦄ (now p side : ℕ) (market : Text) where
  open d use {D, sub, add, add_assoc}

  -- The loop's result from an engine.
  abbrev pub Result : ℕ → Engine D → List ℕ → Type 0
  Result f e q =
      (ts : List (Trade D)) × (g : Engine D) × (match_as_taker now f p side market e
        ≡ returns (ts, g))
      × Outcome p side market e q ts g

  loop_ends :
      (f : ℕ) (e : Engine D) (q : List ℕ)
      → 0 < f
      → Ready p side market e q
      → Idle (e.memory p) e.memory q
      → Result f e q
  unfolding traded_amount Descending
  loop_ends zero e q pos r i = absurd (omega arith)
  loop_ends (suc f) e q pos r i = (
    [],
    e,
    match_stops now f p side market e q r.queue i,
    record {
      total = zero_add (e.memory p).left;
      allowed = tt;
      below = λ limit h. tt;
      descending = tt;
      free = r.free;
      kept = refl;
      resting = λ own apart. refl;
    },
  )

  Crosses-Allows :
      (o maker : Order D) → is_market o ≡ false → Crosses o maker → Allows o maker.price
  Crosses-Allows o maker limit c = ground (arith, c.1)

  -- A round, and then what the loop comes to after it against a part of the queue.
  after_round :
      (f maker : ℕ) (e : Engine D) (q later : List ℕ)
      → Ready p side market e (maker ∷ q)
      → p ≢ maker
      → Crosses (e.memory p) (e.memory maker)
      → Subset later (maker ∷ q)
      → Result f (traded now p maker side market e) later
      → Result (suc f) e (maker ∷ q)
  unfolding traded_amount Descending
  after_round f maker e q later r apart c part (ts, g, runs, o) =
      let t = round_trade now p maker e in
      let taken = traded-taker now p maker side market e apart in
      let below : (limit : D)
          → ((x : ℕ) → Mem x (maker ∷ q) → Le (prices e x) limit)
          → All (λ t. Le t.price limit) ts =
        λ limit h. o.below limit (λ x m.
          subst (λ prices. Le (prices x) limit) (sym (traded-prices now p maker side market e))
            (h x (part x m))) in
      (
        t ∷ ts,
        g,
        match_step now f p side maker market e q r.queue c
            ∙ rw (
              trade_round-traded now (match_as_taker now f) p maker side market e r.free
                  (subst (λ m. get_stop_orders m e.stops ≡ []) (sym r.own_market) r.calm),
              runs,
              ◌>>=◌,
            ),
        record {
          total =
              add_assoc t.amount (traded_amount ts) (g.memory p).left
              ∙ ap (add t.amount) (o.total ∙ ap (λ x. x.left) taken)
              ∙ add_sub_total t.amount (e.memory p).left;
          allowed = (
            Crosses-Allows (e.memory p) (e.memory maker) r.limit c,
            subst (λ x. All (λ t. Allows x t.price) ts) taken o.allowed,
          );
          below = λ limit h. (h maker mem-cons_self, below limit h);
          descending =
              (below (e.memory maker).price (first_best (prices e) maker q r.sorted), o.descending);
          free = o.free;
          kept =
              o.kept
              ∙ ap {A = Order D} {B = Order D} (λ x. record x { left = (g.memory p).left }) taken;
          resting = λ own other_side.
              o.resting own other_side ∙ traded-resting now p maker side market e own other_side;
        },
      )

  -- The engine stays ready, against the queue that a round leaves.
  round-Ready :
      (maker : ℕ) (e : Engine D) (q later : List ℕ)
      → Ready p side market e (maker ∷ q)
      → p ≢ maker
      → Subset later (maker ∷ q)
      → IsHeap (prices e) later
      → queue_of side (book_of market (traded now p maker side market e)) ≡ later
      → Ready p side market (traded now p maker side market e) later
  round-Ready maker e q later r apart part heap left =
      let taken = traded-taker now p maker side market e apart in
      record {
        free = traded-locked now p maker side market e r.free;
        calm =
            subst (λ m. get_stop_orders m (traded now p maker side market e).stops ≡ [])
              r.own_market
              (traded-stops now p maker side market e
                (subst (λ m. get_stop_orders m e.stops ≡ []) (sym r.own_market) r.calm));
        own_market = ap (λ o. o.market) taken ∙ r.own_market;
        limit = ap (λ o. is_market o) taken ∙ r.limit;
        queue = left;
        sorted =
            subst (λ prices. IsHeap prices later) (sym (traded-prices now p maker side market e))
              heap;
        outside = λ m. r.outside (part p m);
      }

  abbrev maker_after : ℕ → Engine D → Order D
  maker_after maker e = record (e.memory maker) {
    left = sub (e.memory maker).left (round_trade now p maker e).amount;
  }

  -- On an engine whose lock is free, in a market where no stop order waits, against a queue in
  -- order that does not hold the limit order itself, the matching loop returns as soon as it has
  -- more fuel than the queue has orders. The amounts of its trades and what it leaves of the order
  -- add up to what the order had left, every trade is at a price that the order's limit allows,
  -- no later trade has a higher price, the lock is free, nothing else of the order changed, and neither did the
  -- queue of the book's other side.
  pub match_as_taker_trades :
      (f : ℕ) (e : Engine D) (q : List ℕ) → Ready p side market e q → length q < f → Result f e q
  match_as_taker_trades f e [] r enough = loop_ends f e [] (omega arith) r tt
  match_as_taker_trades zero e (maker ∷ q) r enough = absurd (omega arith)
  match_as_taker_trades (suc f) e (maker ∷ q) r enough =
      elim (Bool-cases (is_positive (e.memory p).left)) [
        | inr none_left ↦ loop_ends (suc f) e (maker ∷ q) (omega arith) r (inl none_left)
        | inl left ↦ elim (Bool-cases (price_stops (e.memory p) (e.memory maker))) [
          | inl too_far ↦
              loop_ends (suc f) e (maker ∷ q) (omega arith) r (inr (rw (r.limit, too_far)))
          | inr fits ↦
              let apart : p ≢ maker =
                λ same. r.outside (subst (λ x. Mem x (maker ∷ q)) (sym same) mem-cons_self) in
              let c : Crosses (e.memory p) (e.memory maker) =
                (left, rw (fits, r.limit), rw r.limit) in
              let e_after = traded now p maker side market e in
              let queue_after = traded-queue now p maker side market e apart in
              elim (Bool-cases (is_filled (maker_after maker e))) [
                | inl filled ↦
                    let later = (pop (prices e) (maker ∷ q)).1 in
                    let popped = pop_restores (prices e) (maker ∷ q) r.sorted (omega arith) in
                    let part : Subset later (maker ∷ q) = λ x m.
                      (Perm.mem_iff popped.2).0
                        (mem-cons_of_mem (pop (prices e) (maker ∷ q)).0 m) in
                    after_round f maker e q later r apart c part (
                      match_as_taker_trades f e_after later
                        (round-Ready maker e q later r apart part popped.1
                          (queue_after ∙ rw filled (ap (λ q. (pop (prices e) q).1) r.queue)))
                        (omega (arith, length-pop (prices e) (length q) (maker ∷ q) refl)))
                | inr more ↦
                    after_round f maker e q (maker ∷ q) r apart c (λ x m. m)
                      (loop_ends f e_after (maker ∷ q) (omega arith)
                        (round-Ready maker e q (maker ∷ q) r apart (λ x m. m) r.sorted
                          (queue_after ∙ rw more r.queue))
                        (inl (
                          ap (λ o. is_positive o.left)
                            (traded-taker now p maker side market e apart)
                          ∙ fills_one (e.memory p) (e.memory maker) r.limit more)))
              ]
        ]
      ]
