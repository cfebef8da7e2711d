-- ===== src/Engine/Start.antt =====
-- How the loop of `matchAsTaker` begins, with the lock free or held.
use exchange_server.Base.{
  ℕ, suc, ◌≡◌, ◌∙◌, ◌⊎◌, inl, inr, Bool-cases, true, false, List, [], ◌∷◌, ◌&&◌, not, arith,
}
use exchange_server.Text.{Text, text_eq}
use exchange_server.Dict.{lookup-insert, beq_self}
use exchange_server.Decimal.{Decimals, is_positive}
use exchange_server.Order.{Order}
use exchange_server.OrderBook.{queue_of, new_order_book}
use exchange_server.Engine.State.{
  Engine, returns, deadlock, get_market, next_id, pure, ◌>>=◌, book_of, get_or_create_order_book,
}
use exchange_server.Engine.Matching.{
  price_stops, is_market, divides_by_zero, match_as_taker, trade_round, settle_trade, Matcher,
}

module _ ⦃d : Decimals⦄ where
  open d use {D}

  -- The first maker does not stop the order's price, and the order has something left.
  abbrev pub Crosses : Order D → Order D → Type 0
  Crosses o maker =
      (is_positive o.left ≡ true)
      × ((not (is_market o) && price_stops o maker) ≡ false)
      × (divides_by_zero o maker ≡ false)

  -- No order is there to trade with, or none at a price that the order takes.
  abbrev pub Idle : Order D → (ℕ → Order D) → List ℕ → Type 0
  Idle o memory [] = Unit
  Idle o memory (maker ∷ rest) =
      (is_positive o.left ≡ false) ⊎ ((not (is_market o) && price_stops o (memory maker)) ≡ true)

  -- Making an empty book for a market leaves the book that the market has.
  pub book_of-get_or_create_order_book :
      (market : Text) (e : Engine D)
      → book_of market (get_or_create_order_book market e) ≡ book_of market e
  unfolding get_or_create_order_book
  book_of-get_or_create_order_book market e =
      ground (arith, lookup-insert market market new_order_book e.order_books, beq_self market)

module _ ⦃d : Decimals⦄ (now : ℕ) where
  open d use {D}

  pub match_stops :
      (f p side : ℕ) (market : Text) (e : Engine D) (q : List ℕ)
      → queue_of side (book_of market e) ≡ q
      → Idle (e.memory p) e.memory q
      → match_as_taker now (suc f) p side market e ≡ returns ([], e)
  unfolding match_as_taker
  match_stops f p side market e [] h i = rw (h, match_as_taker)
  match_stops f p side market e (maker ∷ rest) h (inl none_left) =
      rw (h, match_as_taker) (rw none_left)
  match_stops f p side market e (maker ∷ rest) h (inr too_far) =
      elim (Bool-cases (is_positive (e.memory p).left)) [
        | inl left ↦ rw (h, match_as_taker) (rw (left, too_far))
        | inr none_left ↦ rw (h, match_as_taker) (rw none_left)
      ]

  pub match_step :
      (f p side maker : ℕ) (market : Text) (e : Engine D) (q : List ℕ)
      → queue_of side (book_of market e) ≡ maker ∷ q
      → Crosses (e.memory p) (e.memory maker)
      → match_as_taker now (suc f) p side market e
        ≡ (trade_round now (match_as_taker now f) p maker side market >>= λ t.
              match_as_taker now f p side market >>= λ rest. pure (t ∷ rest))
            e
  unfolding match_as_taker
  match_step f p side maker market e q h c = rw (h, match_as_taker) (rw (c.0, c.1, c.2))

  -- The settlement of a trade reads the engine's lock.
  pub trade_locked :
      (matcher : Matcher) (p maker side : ℕ) (market : Text) (e : Engine D)
      → e.locked ≡ true
      → trade_round now matcher p maker side market e ≡ deadlock
  unfolding trade_round settle_trade get_market next_id
  trade_locked matcher p maker side market e locked = rw (locked, settle_trade, get_market)

  pub match_locked :
      (f p side maker : ℕ) (market : Text) (e : Engine D) (q : List ℕ)
      → queue_of side (book_of market e) ≡ maker ∷ q
      → Crosses (e.memory p) (e.memory maker)
      → e.locked ≡ true
      → match_as_taker now (suc f) p side market e ≡ deadlock
  match_locked f p side maker market e q h c locked =
      match_step f p side maker market e q h c
      ∙ rw (trade_locked (match_as_taker now f) p maker side market e locked, ◌>>=◌)
