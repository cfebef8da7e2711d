-- ===== src/Engine/Ended.antt =====
-- `PutOrderNoLock` after the matching: what becomes of the order.
use mathlib.Core.List.{Perm}
use mathlib.Core.List.Perm
use exchange_server.Base.{
  ℕ, nat_eq, ◌≡◌, sym, subst, ap, ◌∙◌, ◌⊎◌, inl, inr, true, false, none, some, List, [], ◌∷◌, arith,
  Bool-cases,
}
use exchange_server.Text.{Text, text_eq}
use exchange_server.Dict.{Dict, lookup, insert, lookup-insert, beq_self}
use exchange_server.Decimal.{Decimals, is_positive}
use exchange_server.Order.{Order, status_partial, status_finished, is_finished, write}
use exchange_server.OrderBook.{OrderBook, new_order_book, queue_of, get_order}
use exchange_server.OrderBook
use exchange_server.PriceQueue.{push}
use exchange_server.PriceQueue.Order.{push-perm}
use exchange_server.Engine.State.{Engine, book_of, add_to_user_index}
use exchange_server.Engine.Matching.{rests, rest_or_finish}
use exchange_server.Engine.Commands.{keep_order}

-- A user's entry in a user index.
abbrev own_orders : ℕ → Dict ℕ (Dict ℕ ℕ) → Dict ℕ ℕ
own_orders user users = elim (lookup user users) [ none ↦ [] | some orders ↦ orders ]

module _ ⦃d : Decimals⦄ (memory : ℕ → Order d.D) (p : ℕ) (ob : OrderBook) where
  -- `Add` puts the order into the queue of its side and under its id.
  queue_of-add :
      queue_of (memory p).side (OrderBook.add memory p ob)
      ≡ push (λ q. (memory q).price) p (queue_of (memory p).side ob)
  unfolding OrderBook.add
  queue_of-add = ground arith

  get_order-add : get_order (memory p).id (OrderBook.add memory p ob) ≡ some p
  unfolding OrderBook.add get_order
  get_order-add =
      ground (arith, lookup-insert (memory p).id (memory p).id p ob.orders, beq_self (memory p).id)

module _ ⦃d : Decimals⦄ where
  open d use {D, less_than}

  -- The orders of a user, by id.
  abbrev orders_of : ℕ → Engine D → Dict ℕ ℕ
  orders_of user e = own_orders user e.user_orders

  -- What became of an order, against what it was before and the queue of its own side then: it has
  -- less left than its amount but something, and rests in the book, where its queue holds it
  -- twice; or it is finished, and its queue is as it was.
  pub Kept : ℕ → Text → Order D → List ℕ → Engine D → Type 0
  Kept p market o own f =
      ((less_than (f.memory p).left o.amount ≡ true)
        × (is_positive (f.memory p).left ≡ true)
        × ((f.memory p).status ≡ status_partial)
        × (get_order o.id (book_of market f) ≡ some p)
        × (lookup o.id f.order_index ≡ some p)
        × (lookup o.id (orders_of o.user_id f) ≡ some p)
        × Perm (queue_of o.side (book_of market f)) (p ∷ p ∷ own))
      ⊎ (((less_than (f.memory p).left o.amount ≡ false) ⊎ (is_positive (f.memory p).left ≡ false))
          × ((f.memory p).status ≡ status_finished)
          × (queue_of o.side (book_of market f) ≡ own))

  -- It does not look at what the order had left.
  pub Kept-left :
      (p : ℕ) (market : Text) (o : Order D) (left : D) (own : List ℕ) (f : Engine D)
      → Kept p market (record o { left = left }) own f
      → Kept p market o own f
  unfolding Kept
  Kept-left p market o left own f h = h

module _ ⦃d : Decimals⦄ (now p : ℕ) (market : Text) (g : Engine d.D) where
  open d use {D, less_than}

  -- The engine at the end of the call, after the matching.
  abbrev ended : Engine D
  ended = keep_order now p market (rest_or_finish now p market g)

  pub ended-left : (ended.memory p).left ≡ (g.memory p).left
  unfolding rest_or_finish keep_order add_to_user_index
  ended-left = ground (arith, beq_self p)

  ended_rests-status : rests now (g.memory p) ≡ true → (ended.memory p).status ≡ status_partial
  unfolding rest_or_finish keep_order add_to_user_index is_finished
  ended_rests-status h = ground (arith, h, beq_self p)

  ended_rests-order_index :
      rests now (g.memory p) ≡ true → lookup (g.memory p).id ended.order_index ≡ some p
  unfolding rest_or_finish keep_order add_to_user_index is_finished
  ended_rests-order_index h = ground (
    arith,
    h,
    beq_self p,
    lookup-insert (g.memory p).id (g.memory p).id p g.order_index,
    beq_self (g.memory p).id,
  )

  ended_rests-user_orders :
      rests now (g.memory p) ≡ true
      → ended.user_orders
        ≡ insert
            (g.memory p).user_id
            (insert (g.memory p).id p (orders_of (g.memory p).user_id g))
            g.user_orders
  unfolding rest_or_finish keep_order add_to_user_index is_finished
  ended_rests-user_orders h = ground (arith, h, beq_self p)

  orders_of-ended :
      rests now (g.memory p) ≡ true
      → lookup (g.memory p).id (orders_of (g.memory p).user_id ended) ≡ some p
  orders_of-ended h =
      let user = (g.memory p).user_id in
      let id = (g.memory p).id in
      let own = orders_of user g in
      let grown : orders_of user ended ≡ insert id p own =
        ap (λ users. own_orders user users) (ended_rests-user_orders h)
        ∙ ground (arith, lookup-insert user user (insert id p own) g.user_orders, beq_self user) in
      ap (lookup id) grown ∙ ground (arith, lookup-insert id id p own, beq_self id)

  ended_finished-status : rests now (g.memory p) ≡ false → (ended.memory p).status ≡ status_finished
  unfolding rest_or_finish keep_order add_to_user_index is_finished
  ended_finished-status h = ground (arith, h, beq_self p)

  ended_finished-order_books : rests now (g.memory p) ≡ false → ended.order_books ≡ g.order_books
  unfolding rest_or_finish keep_order add_to_user_index is_finished
  ended_finished-order_books h = ground (arith, h, beq_self p)

  -- The order's last state, and the engine that the match leaves.
  abbrev matched : Engine D
  matched = rest_or_finish now p market g

  abbrev kept_memory : ℕ → Order D
  kept_memory = write matched.memory p (record (matched.memory p) { status = status_partial })

  -- The book of the market among the books.
  abbrev book_in : Dict Text OrderBook → OrderBook
  book_in books = elim (lookup market books) [ none ↦ new_order_book | some ob ↦ ob ]

  book_in-insert :
      (ob : OrderBook) (books : Dict Text OrderBook) → book_in (insert market ob books) ≡ ob
  book_in-insert ob books = ground (arith, lookup-insert market market ob books, beq_self market)

  ended_rests-order_books :
      rests now (g.memory p) ≡ true
      → ended.order_books
        ≡ insert market (OrderBook.add kept_memory p (book_of market matched)) matched.order_books
  unfolding rest_or_finish keep_order add_to_user_index is_finished
  ended_rests-order_books h = ground (arith, h, beq_self p)

  matched-order_books :
      rests now (g.memory p) ≡ true
      → matched.order_books
        ≡ insert market (OrderBook.add matched.memory p (book_of market g)) g.order_books
  unfolding rest_or_finish
  matched-order_books h = rw h

  book_of-ended :
      rests now (g.memory p) ≡ true
      → book_of market ended ≡ OrderBook.add kept_memory p (book_of market matched)
  book_of-ended h =
      ap book_in (ended_rests-order_books h)
      ∙ book_in-insert (OrderBook.add kept_memory p (book_of market matched)) matched.order_books

  book_of-matched :
      rests now (g.memory p) ≡ true
      → book_of market matched ≡ OrderBook.add matched.memory p (book_of market g)
  book_of-matched h =
      ap book_in (matched-order_books h)
      ∙ book_in-insert (OrderBook.add matched.memory p (book_of market g)) g.order_books

  abbrev pub own : ℕ
  own = (g.memory p).side

  matched-side : (matched.memory p).side ≡ own
  unfolding rest_or_finish
  matched-side = ground (arith, beq_self p)

  kept-side : (kept_memory p).side ≡ own
  unfolding rest_or_finish
  kept-side = ground (arith, beq_self p)

  kept-id : (kept_memory p).id ≡ (g.memory p).id
  unfolding rest_or_finish
  kept-id = ground (arith, beq_self p)

  -- The match adds the order to its queue, and `PutOrderNoLock` adds it again.
  ended_rests-queue :
      rests now (g.memory p) ≡ true
      → Perm (queue_of own (book_of market ended)) (p ∷ p ∷ queue_of own (book_of market g))
  ended_rests-queue h =
      let once : queue_of own (book_of market matched)
          ≡ push (λ q. (matched.memory q).price) p (queue_of own (book_of market g)) =
        ap (queue_of own) (book_of-matched h)
        ∙ subst
            (λ s.
              queue_of s (OrderBook.add matched.memory p (book_of market g))
              ≡ push (λ q. (matched.memory q).price) p (queue_of s (book_of market g)))
            matched-side (queue_of-add matched.memory p (book_of market g)) in
      let twice : queue_of own (book_of market ended)
          ≡ push (λ q. (kept_memory q).price) p (queue_of own (book_of market matched)) =
        ap (queue_of own) (book_of-ended h)
        ∙ subst
            (λ s.
              queue_of s (OrderBook.add kept_memory p (book_of market matched))
              ≡ push (λ q. (kept_memory q).price) p (queue_of s (book_of market matched)))
            kept-side (queue_of-add kept_memory p (book_of market matched)) in
      subst (λ q. Perm q (p ∷ p ∷ queue_of own (book_of market g))) (sym twice)
        (Perm.trans
          (push-perm (λ q. (kept_memory q).price) p (queue_of own (book_of market matched)))
          (Perm.cons p (
            subst (λ q. Perm q (p ∷ queue_of own (book_of market g))) (sym once)
              (push-perm (λ q. (matched.memory q).price) p (queue_of own (book_of market g))))))

  get_order-ended :
      rests now (g.memory p) ≡ true → get_order (g.memory p).id (book_of market ended) ≡ some p
  get_order-ended h =
      ap (get_order (g.memory p).id) (book_of-ended h)
      ∙ subst (λ i. get_order i (OrderBook.add kept_memory p (book_of market matched)) ≡ some p)
          kept-id (get_order-add kept_memory p (book_of market matched))

  pub ended-Kept : Kept p market (g.memory p) (queue_of own (book_of market g)) ended
  unfolding Kept
  ended-Kept = elim (Bool-cases (rests now (g.memory p))) [
    | inl h ↦ inl (
      ap (λ left. less_than left (g.memory p).amount) ended-left ∙ ground (arith, h),
      ap (λ left. is_positive left) ended-left ∙ ground (arith, h),
      ended_rests-status h,
      get_order-ended h,
      ended_rests-order_index h,
      orders_of-ended h,
      ended_rests-queue h,
    )
    | inr h ↦ inr (
      elim (Bool-cases (less_than (g.memory p).left (g.memory p).amount)) [
        | inr same ↦ inl (ap (λ left. less_than left (g.memory p).amount) ended-left ∙ same)
        | inl less ↦ inr (ap (λ left. is_positive left) ended-left ∙ ground (arith, h, less))
      ],
      ended_finished-status h,
      ap (λ books. queue_of own (book_in books)) (ended_finished-order_books h),
    )
  ]
