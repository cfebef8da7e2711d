-- ===== src/Engine/Filling.antt =====
-- What one round of `matchAsTaker` does to the orders and to the queue, on an engine whose lock is
-- free, in a market where no stop order waits.
use exchange_server.Base.{
  ℕ, ◌≡◌, ◌≢◌, sym, ap, ◌∙◌, Bool, false, none, some, List, [], Bool-cases, inl, inr, arith, nat_eq,
  ◌==◌, ◌||◌, if◌then◌else◌, not,
}
use exchange_server.Text.{Text, text_eq}
use exchange_server.Dict.{Dict, lookup, lookup-insert, beq_self}
use exchange_server.Decimal.{Decimals, is_zero, is_negative}
use exchange_server.Order.{Order, write, side_ask}
use exchange_server.OrderBook.{OrderBook, new_order_book, queue_of, set_queue, remove}
use exchange_server.PriceQueue.{pop}
use exchange_server.Engine.State.{Trade, Engine, set_book, book_of, remove_from_user_index}
use exchange_server.Engine.Stops.{get_stop_orders}
use exchange_server.Engine.Matching.{drop_filled}
use exchange_server.Engine.Settling.{
  settled, settled-memory, settled-order_books, settled-locked, settled-stops, round_trade,
  take_amount, amounts_taken, traded,
}

module _ ⦃d : Decimals⦄ where
  open d use {D}

  abbrev pub prices : Engine D → ℕ → D
  prices e q = (e.memory q).price

  -- Nothing is left of a maker.
  abbrev pub is_filled : Order D → Bool
  is_filled o = is_zero o.left || is_negative o.left

  drop_filled-memory :
      (maker side : ℕ) (market : Text) (e : Engine D)
      → (drop_filled maker side market e).memory ≡ e.memory
  unfolding drop_filled remove_from_user_index
  drop_filled-memory maker side market e = ground arith

  drop_filled-locked :
      (maker side : ℕ) (market : Text) (e : Engine D)
      → (drop_filled maker side market e).locked ≡ e.locked
  unfolding drop_filled remove_from_user_index
  drop_filled-locked maker side market e = ground arith

  drop_filled-stops :
      (maker side : ℕ) (market : Text) (e : Engine D)
      → (drop_filled maker side market e).stops ≡ e.stops
  unfolding drop_filled remove_from_user_index
  drop_filled-stops maker side market e = ground arith

  book_of-set_book :
      (market : Text) (ob : OrderBook) (e : Engine D) → book_of market (set_book market ob e) ≡ ob
  book_of-set_book market ob e =
      ground (arith, lookup-insert market market ob e.order_books, beq_self market)

  queue_of-set_queue :
      (side order_id : ℕ) (q : List ℕ) (ob : OrderBook)
      → queue_of side (remove order_id (set_queue side q ob)) ≡ q
  unfolding remove
  queue_of-set_queue side order_id q ob = ground arith

  -- A filled maker leaves its queue by a pop.
  drop_filled-queue :
      (maker side : ℕ) (market : Text) (e : Engine D)
      → queue_of side (book_of market (drop_filled maker side market e)) ≡ (
          if is_filled (e.memory maker)
          then (pop (prices e) (queue_of side (book_of market e))).1
          else queue_of side (book_of market e))
  unfolding drop_filled remove_from_user_index
  drop_filled-queue maker side market e = elim (Bool-cases (is_filled (e.memory maker))) [
    | inl filled ↦ rw filled (
        ap (queue_of side) (
          book_of-set_book market
            (remove (e.memory maker).id (
              set_queue side (pop (prices e) (queue_of side (book_of market e))).1
                (book_of market e)))
            e)
        ∙ queue_of-set_queue side (e.memory maker).id
            (pop (prices e) (queue_of side (book_of market e))).1 (book_of market e))
    | inr more ↦ rw more
  ]

  -- The other queue of the book stays as it is.
  queue_of_resting :
      (side own order_id : ℕ) (q : List ℕ) (ob : OrderBook)
      → (own == side_ask) ≡ not (side == side_ask)
      → queue_of own (remove order_id (set_queue side q ob)) ≡ queue_of own ob
  unfolding remove
  queue_of_resting side own order_id q ob apart = ground (arith, apart)

  drop_filled-resting :
      (maker side own : ℕ) (market : Text) (e : Engine D)
      → (own == side_ask) ≡ not (side == side_ask)
      → queue_of own (book_of market (drop_filled maker side market e))
        ≡ queue_of own (book_of market e)
  unfolding drop_filled remove_from_user_index
  drop_filled-resting maker side own market e apart =
      let later = (pop (prices e) (queue_of side (book_of market e))).1 in
      elim (Bool-cases (is_filled (e.memory maker))) [
        | inl filled ↦ rw filled (
            ap (queue_of own) (
              book_of-set_book market
                (remove (e.memory maker).id (set_queue side later (book_of market e))) e)
            ∙ queue_of_resting side own (e.memory maker).id later (book_of market e) apart)
        | inr more ↦ rw more
      ]

module _ {D : Type 0} (memory : ℕ → Order D) (p q : ℕ) (o : Order D) where
  write-same : write memory p o p ≡ o
  write-same = ground (arith, beq_self p)

  write-other : q ≢ p → write memory p o q ≡ memory q
  write-other apart = ground (arith, (nat_eq.beq_iff q p).0)

module _ ⦃d : Decimals⦄ where
  take_amount-prices :
      (p : ℕ) (amount : d.D) (e : Engine d.D) (q : ℕ)
      → prices (take_amount p amount e) q ≡ prices e q
  take_amount-prices p amount e q = elim (Bool-cases (q == p)) [
    | inl same ↦
        rw (same, prices, write) (ap (λ r. (e.memory r).price) (sym ((nat_eq.beq_iff q p).0 same)))
    | inr other ↦ rw (other, prices, write)
  ]

module _ ⦃d : Decimals⦄ (now p maker side : ℕ) (market : Text) (e : Engine d.D) where
  open d use {D, sub}

  abbrev amount : D
  amount = (round_trade now p maker e).amount

  traded-memory : (traded now p maker side market e).memory ≡ (amounts_taken now p maker e).memory
  traded-memory =
      drop_filled-memory maker side market (
        settled now (round_trade now p maker e)
          (lookup (round_trade now p maker e).market e.markets) (amounts_taken now p maker e))
      ∙ settled-memory now (round_trade now p maker e)
          (lookup (round_trade now p maker e).market e.markets) (amounts_taken now p maker e)

  pub traded-taker :
      p ≢ maker
      → (traded now p maker side market e).memory p
        ≡ record (e.memory p) { left = sub (e.memory p).left (round_trade now p maker e).amount }
  traded-taker apart =
      ap (λ m. m p) traded-memory
      ∙ write-other (take_amount p amount e).memory maker p
          (record ((take_amount p amount e).memory maker) {
            left = sub ((take_amount p amount e).memory maker).left amount;
          })
          apart
      ∙ write-same e.memory p p (record (e.memory p) { left = sub (e.memory p).left amount })

  taken-maker :
      p ≢ maker
      → (amounts_taken now p maker e).memory maker ≡ record (e.memory maker) {
        left = sub (e.memory maker).left (round_trade now p maker e).amount;
      }
  taken-maker apart =
      write-same (take_amount p amount e).memory maker maker
        (record ((take_amount p amount e).memory maker) {
          left = sub ((take_amount p amount e).memory maker).left amount;
        })
      ∙ ap {A = Order D} {B = Order D} (λ o. record o { left = sub o.left amount })
          (write-other e.memory p maker
            (record (e.memory p) { left = sub (e.memory p).left amount })
            (λ same. apart (sym same)))

  taken-prices : prices (amounts_taken now p maker e) ≡ prices e
  taken-prices = λ i q. same q i
    where
      same : (q : ℕ) → ((amounts_taken now p maker e).memory q).price ≡ (e.memory q).price
      same q =
          take_amount-prices maker amount (take_amount p amount e) q
          ∙ take_amount-prices p amount e q

  pub traded-prices : prices (traded now p maker side market e) ≡ prices e
  traded-prices = ap (λ m q. (m q).price) traded-memory ∙ taken-prices

  pub traded-locked : e.locked ≡ false → (traded now p maker side market e).locked ≡ false
  traded-locked free =
      drop_filled-locked maker side market (
        settled now (round_trade now p maker e)
          (lookup (round_trade now p maker e).market e.markets) (amounts_taken now p maker e))
      ∙ settled-locked now (round_trade now p maker e)
          (lookup (round_trade now p maker e).market e.markets) (amounts_taken now p maker e) free

  pub traded-stops :
      get_stop_orders (e.memory p).market e.stops ≡ []
      → get_stop_orders (e.memory p).market (traded now p maker side market e).stops ≡ []
  traded-stops calm =
      ap (get_stop_orders (e.memory p).market) (
        drop_filled-stops maker side market (
          settled now (round_trade now p maker e)
            (lookup (round_trade now p maker e).market e.markets) (amounts_taken now p maker e)))
      ∙ settled-stops now (round_trade now p maker e)
          (lookup (round_trade now p maker e).market e.markets) (amounts_taken now p maker e) calm

  -- The maker leaves the queue by a pop if the trade left nothing of it.
  pub traded-queue :
      p ≢ maker
      → let queue = queue_of side (book_of market e) in
        queue_of side (book_of market (traded now p maker side market e)) ≡ (
          if is_filled (record (e.memory maker) { left = sub (e.memory maker).left amount })
          then (pop (prices e) queue).1
          else queue)
  traded-queue apart =
      drop_filled-queue maker side market moved
      ∙ (λ i. queue_after (moved-memory i) (moved-order_books i))
      ∙ (λ i.
          if is_filled (taken-maker apart i)
          then (pop (taken-prices i) (queue_of side (book_of market e))).1
          else queue_of side (book_of market e))
    where
      t : Trade D
      t = round_trade now p maker e

      moved : Engine D
      moved = settled now t (lookup t.market e.markets) (amounts_taken now p maker e)

      moved-memory : moved.memory ≡ (amounts_taken now p maker e).memory
      moved-memory = settled-memory now t (lookup t.market e.markets) (amounts_taken now p maker e)

      moved-order_books : moved.order_books ≡ e.order_books
      moved-order_books =
          settled-order_books now t (lookup t.market e.markets) (amounts_taken now p maker e)

      queue_after : (ℕ → Order D) → Dict Text OrderBook → List ℕ
      queue_after memory books =
          let ob : OrderBook = elim (lookup market books) [
            | none ↦ new_order_book
            | some ob ↦ ob
          ] in
          if is_filled (memory maker)
          then (pop (λ q. (memory q).price) (queue_of side ob)).1
          else queue_of side ob

  pub traded-resting :
      (own : ℕ)
      → (own == side_ask) ≡ not (side == side_ask)
      → queue_of own (book_of market (traded now p maker side market e))
        ≡ queue_of own (book_of market e)
  traded-resting own apart =
      let t : Trade D = round_trade now p maker e in
      let moved : Engine D =
        settled now t (lookup t.market e.markets) (amounts_taken now p maker e) in
      let books : moved.order_books ≡ e.order_books =
        settled-order_books now t (lookup t.market e.markets) (amounts_taken now p maker e) in
      let queue_in : Dict Text OrderBook → List ℕ = λ books.
        queue_of own (elim (lookup market books) [ none ↦ new_order_book | some ob ↦ ob ]) in
      drop_filled-resting maker side own market moved apart ∙ ap queue_in books
