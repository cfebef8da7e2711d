-- ===== src/Kline/Bounds.antt =====
-- The prices of a candle and where it begins, over a run of `AddDeal`.
use native.Mathlib.Nat.{mul-div_cancel}
use exchange_server.Base.{
  ℕ, zero, suc, ◌*◌, ◌/◌, ◌≡◌, refl, sym, ap, subst, ◌∙◌, Option, none, some, List, [], ◌∷◌, ◌==◌,
  ◌&&◌, arith, Bool-cases, inl, inr,
}
use exchange_server.Text.{Text, text_beq, text_eq}
use exchange_server.Decimal.{Decimals, Le, max, min}
use exchange_server.Decimal.Laws.{le_refl}
use exchange_server.Kline.{
  Interval, Kline, KlineManager, get_kline, next_kline, add_deal, seconds, to_timestamp, new_kline,
  with_deal, is_valid,
}
use exchange_server.Kline.Deals.{get_kline-add_deal}

product_kept : (a b : ℕ) → a * b / b * b ≡ a * b
product_kept a zero = ground arith
product_kept a (suc b) = ap (λ x. x * suc b) (mul-div_cancel a (omega arith))

pub record Deal (D : Type 0) : Type 0 where
  pub market : Text
  pub price : D
  pub amount : D
  pub ts : ℕ

module _ ⦃d : Decimals⦄ where
  open d use {D, le_trans, lt_asymm}

  unfoldable pub add_deals : List (Deal D) → KlineManager D → KlineManager D
  add_deals [] km = km
  add_deals (deal ∷ deals) km =
      add_deals deals (add_deal deal.market deal.price deal.amount deal.ts km)

  -- The lowest price is at most the first and the last, the highest is at least both, and the
  -- candle begins at a multiple of its interval.
  pub record IsSound (i : Interval) (k : Kline D) : Type 0 where
    pub low_open : Le k.low k.open_price
    pub open_high : Le k.open_price k.high
    pub low_close : Le k.low k.close
    pub close_high : Le k.close k.high
    pub aligned : to_timestamp i k.timestamp ≡ k.timestamp

  abbrev pub AreSound : KlineManager D → Type 0
  AreSound km =
      (market : Text) (i : Interval) (k : Kline D) → get_kline market i 0 km ≡ some k → IsSound i k

  le_max_left : (a b : D) → Le a (max a b)
  le_max_left a b = ground (arith, le_refl a, lt_asymm a b)

  le_max_right : (a b : D) → Le b (max a b)
  le_max_right a b = ground (arith, le_refl b)

  min_le_left : (a b : D) → Le (min a b) a
  min_le_left a b = ground (arith, le_refl a, lt_asymm b a)

  min_le_right : (a b : D) → Le (min a b) b
  min_le_right a b = ground (arith, le_refl b)

  with_deal-IsSound :
      (price amount : D) (i : Interval) (k : Kline D)
      → IsSound i k
      → IsSound i (with_deal price amount k)
  with_deal-IsSound price amount i k s = record {
    low_open = le_trans (min k.low price) k.low k.open_price (min_le_left k.low price) s.low_open;
    open_high =
        le_trans k.open_price k.high (max k.high price) s.open_high (le_max_left k.high price);
    low_close = min_le_right k.low price;
    close_high = le_max_right k.high price;
    aligned = s.aligned;
  }

  to_timestamp-twice :
      (i : Interval) (ts : ℕ) → to_timestamp i (to_timestamp i ts) ≡ to_timestamp i ts
  unfolding to_timestamp
  to_timestamp-twice i ts = product_kept (ts / seconds i) (seconds i)

  new_kline-IsSound :
      (market : Text) (i : Interval) (price amount : D) (ts : ℕ)
      → IsSound i (new_kline market i price amount (to_timestamp i ts))
  new_kline-IsSound market i price amount ts = record {
    low_open = le_refl price;
    open_high = le_refl price;
    low_close = le_refl price;
    close_high = le_refl price;
    aligned = to_timestamp-twice i ts;
  }

  next_kline-IsSound :
      (market : Text) (price amount : D) (ts : ℕ) (i : Interval) (old : Option (Kline D))
      → ((k : Kline D) → old ≡ some k → IsSound i k)
      → IsSound i (next_kline market price amount ts i old)
  unfolding next_kline
  next_kline-IsSound market price amount ts i none h = new_kline-IsSound market i price amount ts
  next_kline-IsSound market price amount ts i (some k) h =
      elim (Bool-cases (k.timestamp == to_timestamp i ts)) [
        | inl same ↦ rw same (with_deal-IsSound price amount i k (h k refl))
        | inr over ↦ rw over (new_kline-IsSound market i price amount ts)
      ]

  add_deal-AreSound :
      (market : Text) (price amount : D) (ts : ℕ) (km : KlineManager D)
      → AreSound km
      → AreSound (add_deal market price amount ts km)
  add_deal-AreSound market price amount ts km h other i k found =
      elim (Bool-cases (text_beq market other && is_valid i)) [
        | inl hit ↦
            let old = get_kline other i 0 km in
            let new = next_kline market price amount ts i old in
            let read : get_kline other i 0 (add_deal market price amount ts km) ≡ some new =
              get_kline-add_deal market price amount ts other i 0 km ∙ rw hit in
            let e : some new ≡ some k = sym read ∙ found in
            let same : new ≡ k = cc in
            subst (IsSound i) same (next_kline-IsSound market price amount ts i old (h other i))
        | inr miss ↦
            let read : get_kline other i 0 (add_deal market price amount ts km)
                ≡ get_kline other i 0 km =
              get_kline-add_deal market price amount ts other i 0 km ∙ rw miss in
            h other i k (sym read ∙ found)
      ]

  -- Whatever deals come in, a manager whose candles are sound keeps them so: the lowest price of a
  -- candle is at most its first and its last, the highest is at least both, and the candle begins
  -- at a multiple of its interval.
  pub add_deals-AreSound :
      (deals : List (Deal D)) (km : KlineManager D) → AreSound km → AreSound (add_deals deals km)
  unfolding add_deals
  add_deals-AreSound [] km h = h
  add_deals-AreSound (deal ∷ deals) km h =
      add_deals-AreSound deals (add_deal deal.market deal.price deal.amount deal.ts km)
        (add_deal-AreSound deal.market deal.price deal.amount deal.ts km h)
