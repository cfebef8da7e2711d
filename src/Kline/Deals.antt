-- ===== src/Kline/Deals.antt =====
-- What `AddDeal` does to the candles of a market.
use exchange_server.Base.{
  ℕ, ◌≡◌, ◌≢◌, ◌⊎◌, ◌/◌, ◌*◌, ◌==◌, nat_eq, Option, refl, ap, subst, ◌∙◌, Bool, true, false, none,
  some, List, [], ◌∷◌, ◌++◌, if◌then◌else◌, ◌&&◌, ◌||◌, arith, Bool-cases, inl, inr,
}
use exchange_server.Text.{Text, text_beq, text_beq_iff, text_eq}
use exchange_server.Dict.{Dict, lookup, insert, lookup-insert, beq_self}
use exchange_server.Decimal.{Decimals, max, min}
use exchange_server.Kline.{
  Interval, Kline, KlineManager, candles, get_kline, next_kline, add_to, add_deal, all_intervals,
  is_valid, length_in, names, seconds, to_timestamp, new_kline, with_deal, short_lengths,
  long_lengths,
}

-- Whether an interval is among those of a loop.
abbrev pub among : Interval → List Interval → Bool
among i [] = false
among i (j ∷ l) = text_beq j i || among i l

-- No interval stands twice.
abbrev pub Distinct : List Interval → Type 0
Distinct [] = Unit
Distinct (i ∷ l) = (among i l ≡ false) × Distinct l

text_beq_sym : (s t : Text) → text_beq s t ≡ text_beq t s
text_beq_sym s t = ground (arith, text_beq_iff s t, text_beq_iff t s)

is_listed : Interval → Dict Interval ℕ → Bool
is_listed i l = elim (length_in i l) [ some n ↦ true | none ↦ false ]

among-names : (i : Interval) (l : Dict Interval ℕ) → among i (names l) ≡ is_listed i l
unfolding is_listed
among-names i [] = refl
among-names i ((j, n) ∷ l) = ground (arith, text_beq_sym i j, among-names i l)

among-append : (i : Interval) (l m : List Interval) → among i (l ++ m) ≡ (among i l || among i m)
among-append i [] m = refl
among-append i (j ∷ l) m = ground (arith, among-append i l m)

-- The loop's intervals are the valid ones, each once.
among-all : (i : Interval) → among i all_intervals ≡ is_valid i
unfolding is_listed is_valid
among-all i =
    among-append i (names short_lengths) (names long_lengths)
    ∙ rw (among-names i short_lengths, among-names i long_lengths) (ground arith)

all-Distinct : Distinct all_intervals
all-Distinct = (
  refl,
  (
    refl,
    (refl, (refl, (refl, (refl, (refl, (refl, (refl, (refl, (refl, (refl, (refl, tt))))))))))),
  ),
)

module _ ⦃d : Decimals⦄ (market : Text) (price amount : d.D) (ts : ℕ) where
  open d use {D}

  candles-insert :
      (other : Text) (l : Dict Interval (Kline D)) (km : KlineManager D)
      → candles other (insert market l km) ≡ (if text_beq market other then l else candles other km)
  candles-insert other l km = ground (arith, lookup-insert market other l km)

  candles-insert-lookup :
      (other : Text) (i j : Interval) (k : Kline D) (km : KlineManager D)
      → lookup j (candles other (insert market (insert i k (candles market km)) km))
        ≡ (if text_beq market other && text_beq i j then some k else lookup j (candles other km))
  candles-insert-lookup other i j k km = elim (Bool-cases (text_beq market other)) [
    | inl same ↦
        subst
          (λ o.
            lookup j (candles o (insert market (insert i k (candles market km)) km))
            ≡ (if text_beq market o && text_beq i j then some k else lookup j (candles o km)))
          ((text_beq_iff market other).0 same) own
    | inr apart ↦
        let found : candles other (insert market (insert i k (candles market km)) km)
            ≡ candles other km =
          candles-insert other (insert i k (candles market km)) km ∙ rw apart in
        rw (found, apart)
  ]
    where
      self : text_beq market market ≡ true
      self = beq_self market

      own : lookup j (candles market (insert market (insert i k (candles market km)) km)) ≡ (
          if text_beq market market && text_beq i j then some k else lookup j (candles market km))
      own =
          let found : candles market (insert market (insert i k (candles market km)) km)
              ≡ insert i k (candles market km) =
            candles-insert market (insert i k (candles market km)) km ∙ rw self in
          ap (lookup j) found ∙ lookup-insert i j k (candles market km) ∙ rw self

  get_kline-add_to :
      (l : List Interval)
      → Distinct l
      → (other : Text) (i : Interval) (at : ℕ) (km : KlineManager D)
      → get_kline other i at (add_to l market price amount ts km) ≡ (
          if text_beq market other && among i l
          then some (next_kline market price amount ts i (get_kline other i at km))
          else get_kline other i at km)
  unfolding add_to get_kline
  get_kline-add_to [] h other i at km = ground arith
  get_kline-add_to (j ∷ l) h other i at km =
      let made = next_kline market price amount ts j (lookup j (candles market km)) in
      let more = insert market (insert j made (candles market km)) km in
      let read = candles-insert-lookup other j i made km in
      get_kline-add_to l h.1 other i at more ∙ elim (Bool-cases (text_beq market other)) [
        | inr apart ↦ rw apart (read ∙ rw apart)
        | inl same ↦ elim (Bool-cases (text_beq j i)) [
          | inr differs ↦
              let kept : lookup i (candles other more) ≡ lookup i (candles other km) =
                read ∙ rw (same, differs) in
              rw (same, differs, kept)
          | inl equal ↦
              let own = (text_beq_iff market other).0 same in
              let e = (text_beq_iff j i).0 equal in
              let last : among i l ≡ false = subst (λ x. among x l ≡ false) e h.0 in
              rw (same, equal, last)
                (read
                  ∙ rw (same, equal)
                      (λ t. some (
                        next_kline market price amount ts (e t)
                          (lookup (e t) (candles (own t) km)))))
        ]
      ]

  -- The candle of an interval is the loop's next one, in the deal's market.
  pub get_kline-add_deal :
      (other : Text) (i : Interval) (at : ℕ) (km : KlineManager D)
      → get_kline other i at (add_deal market price amount ts km) ≡ (
          if text_beq market other && is_valid i
          then some (next_kline market price amount ts i (get_kline other i at km))
          else get_kline other i at km)
  unfolding add_deal
  get_kline-add_deal other i at km =
      get_kline-add_to all_intervals all-Distinct other i at km
      ∙ ap
          (λ b.
            if text_beq market other && b
            then some (next_kline market price amount ts i (get_kline other i at km))
            else get_kline other i at km)
          (among-all i)

  -- A candle that the deal begins: its bucket holds the time stamp of the deal.
  pub record Begins (i : Interval) (k : Kline D) : Type 0 where
    pub own_market : k.market ≡ market
    pub own_interval : k.interval ≡ i
    pub opened : k.open_price ≡ price
    pub highest : k.high ≡ price
    pub lowest : k.low ≡ price
    pub closed : k.close ≡ price
    pub traded : k.volume ≡ amount
    pub turned_over : k.deal_amount ≡ d.mul price amount
    pub bucket : k.timestamp ≡ ts / seconds i * seconds i

  -- A candle that goes on from the one before with the deal in it.
  pub record Continues (before k : Kline D) : Type 0 where
    pub own_market : k.market ≡ before.market
    pub own_interval : k.interval ≡ before.interval
    pub opened : k.open_price ≡ before.open_price
    pub highest : k.high ≡ max before.high price
    pub lowest : k.low ≡ min before.low price
    pub closed : k.close ≡ price
    pub traded : k.volume ≡ d.add before.volume amount
    pub turned_over : k.deal_amount ≡ d.add before.deal_amount (d.mul price amount)
    pub bucket : k.timestamp ≡ before.timestamp

  -- What a candle is after the deal: the one before goes on in its own bucket, and else a new one
  -- begins.
  pub Follows : Interval → Option (Kline D) → Kline D → Type 0
  Follows i none k = Begins i k
  Follows i (some before) k =
      ((before.timestamp ≡ ts / seconds i * seconds i) × Continues before k)
      ⊎ ((before.timestamp ≢ ts / seconds i * seconds i) × Begins i k)

  new_kline-Begins :
      (i : Interval) → Begins i (new_kline market i price amount (ts / seconds i * seconds i))
  new_kline-Begins i = record {
    own_market = refl;
    own_interval = refl;
    opened = refl;
    highest = refl;
    lowest = refl;
    closed = refl;
    traded = refl;
    turned_over = refl;
    bucket = refl;
  }

  with_deal-Continues : (before : Kline D) → Continues before (with_deal price amount before)
  with_deal-Continues before = record {
    own_market = refl;
    own_interval = refl;
    opened = refl;
    highest = refl;
    lowest = refl;
    closed = refl;
    traded = refl;
    turned_over = refl;
    bucket = refl;
  }

  next_kline-Follows :
      (i : Interval) (before : Option (Kline D))
      → Follows i before (next_kline market price amount ts i before)
  unfolding Follows next_kline to_timestamp
  next_kline-Follows i none = new_kline-Begins i
  next_kline-Follows i (some before) =
      elim (Bool-cases (before.timestamp == ts / seconds i * seconds i)) [
        | inl same ↦ rw same (
            inl (
              (nat_eq.beq_iff before.timestamp (ts / seconds i * seconds i)).0 same,
              with_deal-Continues before,
            ))
        | inr over ↦ rw over (
            inr (
              ground (arith, over, nat_eq.beq_iff before.timestamp (ts / seconds i * seconds i)),
              new_kline-Begins i,
            ))
      ]

  -- A deal leaves the candles of other markets and those of unknown intervals alone. In its own
  -- market it leaves a candle for each valid interval: in the bucket of the one before, that one
  -- with the deal's price as the close and within the high and the low, and with the deal's amount
  -- and turnover added; where there was none or the bucket is another, a candle of the deal alone.
  pub add_deal_lem :
      (other : Text) (i : Interval) (at : ℕ) (km : KlineManager D)
      → (((market ≢ other) ⊎ (is_valid i ≡ false))
          × (get_kline other i at (add_deal market price amount ts km) ≡ get_kline other i at km))
        ⊎ ((market ≡ other)
            × (is_valid i ≡ true)
            × ((k : Kline D) × (get_kline other i at (add_deal market price amount ts km) ≡ some k)
                × Follows i (get_kline other i at km) k))
  add_deal_lem other i at km = elim (Bool-cases (text_beq market other)) [
    | inr differs ↦ inl (
      inl (λ same. ground (arith, differs, (text_beq_iff market other).1 same)),
      get_kline-add_deal other i at km ∙ rw differs,
    )
    | inl own ↦ elim (Bool-cases (is_valid i)) [
      | inr unknown ↦ inl (inr unknown, get_kline-add_deal other i at km ∙ rw (own, unknown))
      | inl valid ↦ inr (
        (text_beq_iff market other).0 own,
        valid,
        (
          next_kline market price amount ts i (get_kline other i at km),
          get_kline-add_deal other i at km ∙ rw (own, valid),
          next_kline-Follows i (get_kline other i at km),
        ),
      )
    ]
  ]
