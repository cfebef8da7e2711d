-- ===== src/RedisCache/Klines.antt =====
-- What the start of the price service reads back of the candles.
use exchange_server.Base.{
  ℕ, ◌<◌, ◌^◌, ◌≡◌, refl, sym, ap, subst, ◌∙◌, true, false, Option, none, some, [], ◌∷◌,
  if◌then◌else◌, ◌==◌, ltb, not, ◌&&◌, All, Bool-cases, inl, inr, nat_eq,
}
use exchange_server.Text.{Text, print_nat, text_eq, text_beq, text_beq_iff, print_nat_injective}
use exchange_server.Dict.{Dict, lookup, insert, lookup-insert, insert-IsMap, IsMap, All-insert}
use exchange_server.Decimal.{Decimals}
use exchange_server.MarketInfo.{KlineInfo}
use exchange_server.RedisCache.{
  Redis, hash_key, fields_of, kline_text, kline_of, flush_kline, load_field, load_fields,
  load_klines,
}
use exchange_server.RedisCache.Values.{parse_int-print_nat, IsPrintable, kline_of-kline_text}

module _ ⦃d : Decimals⦄ where
  open d use {D}

  -- The fields of a hash are printed times, as `FlushKline` writes them.
  abbrev pub IsTime : Text × Text → Type 0
  IsTime (field, value) = (n : ℕ) × (field ≡ print_nat n) × (n < 2 ^ 63)

  load_field-print_nat :
      (start n : ℕ) (value : Text) (result : Dict ℕ (KlineInfo D))
      → n < 2 ^ 63
      → load_field start (print_nat n) value result
        ≡ (if ltb n start then result else insert n (kline_of value) result)
  unfolding load_field
  load_field-print_nat start n value result h = rw (parse_int-print_nat n h, load_field) refl

  abbrev loaded : ℕ → ℕ → Option Text → Option (KlineInfo D) → Option (KlineInfo D)
  loaded start t none before = before
  loaded start t (some value) before = if ltb t start then before else some (kline_of value)

  apart :
      (field : Text) (n t : ℕ)
      → field ≡ print_nat n
      → text_beq field (print_nat t) ≡ false
      → (n == t) ≡ false
  apart field n t e h = elim (Bool-cases (n == t)) [
    | inr other ↦ other
    | inl same ↦
        let named : field ≡ print_nat t = e ∙ ap print_nat ((nat_eq.beq_iff n t).0 same) in
        let yes : text_beq field (print_nat t) ≡ true =
          (text_beq_iff field (print_nat t)).1 named in
        cc
  ]

  lookup-load_fields :
      (start t : ℕ) (fields : Dict Text Text) (result : Dict ℕ (KlineInfo D))
      → IsMap fields
      → All IsTime fields
      → lookup t (load_fields start fields result)
        ≡ loaded start t (lookup (print_nat t) fields) (lookup t result)
  unfolding load_fields lookup
  lookup-load_fields start t [] result u h = refl
  lookup-load_fields start t ((field, value) ∷ fields) result u h =
      let (n, e, small) = h.0 in
      let next : Dict ℕ (KlineInfo D) =
        if ltb n start then result else insert n (kline_of value) result in
      let step : load_field start field value result ≡ next =
        ap (λ f. load_field start f value result) e
        ∙ load_field-print_nat start n value result small in
      let ih = lookup-load_fields start t fields next u.1 h.1 in
      ap (λ x. lookup t (load_fields start fields x)) step
      ∙ ih
      ∙ (elim (Bool-cases (text_beq field (print_nat t))) [
        | inl here ↦
            let named : field ≡ print_nat t = (text_beq_iff field (print_nat t)).0 here in
            let equal : n ≡ t = print_nat_injective n t (sym e ∙ named) in
            let absent : lookup (print_nat t) fields ≡ none =
              subst (λ f. lookup f fields ≡ none) named u.0 in
            elim (Bool-cases (ltb n start)) [
              | inl early ↦
                  let old : ltb t start ≡ true = subst (λ m. ltb m start ≡ true) equal early in
                  let kept : lookup t next ≡ lookup t result = rw early refl in
                  rw (absent, here, old) kept
              | inr late ↦
                  let recent : ltb t start ≡ false = subst (λ m. ltb m start ≡ false) equal late in
                  let put : lookup t (insert n (kline_of value) result) ≡ some (kline_of value) =
                    lookup-insert n t (kline_of value) result
                    ∙ rw ((nat_eq.beq_iff n t).1 equal) refl in
                  let found : lookup t next ≡ some (kline_of value) = rw late put in
                  rw (absent, here, recent) found
            ]
        | inr there ↦
            let other : (n == t) ≡ false = apart field n t e there in
            let kept : lookup t next ≡ lookup t result = elim (Bool-cases (ltb n start)) [
              | inl early ↦ rw early refl
              | inr late ↦ rw late (lookup-insert n t (kline_of value) result ∙ rw other refl)
            ] in
            rw there (ap (loaded start t (lookup (print_nat t) fields)) kept)
      ])

  printed_apart : (m n : ℕ) → (m == n) ≡ false → text_beq (print_nat m) (print_nat n) ≡ false
  printed_apart m n h = elim (Bool-cases (text_beq (print_nat m) (print_nat n))) [
    | inr other ↦ other
    | inl same ↦
        let equal : m ≡ n =
          print_nat_injective m n ((text_beq_iff (print_nat m) (print_nat n)).0 same) in
        let yes : (m == n) ≡ true = (nat_eq.beq_iff m n).1 equal in cc
  ]

  loaded_early :
      (start t : ℕ) (found : Option Text)
      → ltb t start ≡ true
      → loaded start t found (lookup t []) ≡ none
  unfolding lookup
  loaded_early start t none h = refl
  loaded_early start t (some value) h = rw h refl

  loaded_late :
      (start t : ℕ) (value : Text) (before : Option (KlineInfo D))
      → ltb t start ≡ false
      → loaded start t (some value) before ≡ some (kline_of value)
  loaded_late start t value before h = rw h refl

  fields_of-insert :
      (key : Text) (fields : Dict Text Text) (r : Redis)
      → fields_of key (record r { hashes = insert key fields r.hashes }) ≡ fields
  fields_of-insert key fields r =
      let e : lookup key (insert key fields r.hashes) ≡ some fields =
        lookup-insert key key fields r.hashes ∙ rw ((text_beq_iff key key).1 refl) refl in
      ap (λ found. elim found as (λ o. Dict Text Text) [ none ↦ [] | some l ↦ l ]) e

  -- What a field that is written adds to the candles that are read.
  lookup-written :
      (start t other : ℕ) (k : KlineInfo D) (fields : Dict Text Text)
      → IsMap fields
      → All IsTime fields
      → t < 2 ^ 63
      → IsPrintable k
      → lookup other (load_fields start (insert (print_nat t) (kline_text k) fields) []) ≡ (
          if (t == other) && not (ltb other start)
          then some k
          else lookup other (load_fields start fields []))
  lookup-written start t other k fields u times small printable =
      let grown : Dict Text Text = insert (print_nat t) (kline_text k) fields in
      let put = lookup-insert (print_nat t) (print_nat other) (kline_text k) fields in
      let read = lookup-load_fields start other fields [] u times in
      let read_grown =
        lookup-load_fields start other grown [] (insert-IsMap (print_nat t) (kline_text k) fields u)
          (All-insert IsTime (print_nat t) (kline_text k) fields (t, refl, small) times) in
      read_grown ∙ (elim (Bool-cases (t == other)) [
        | inl same ↦
            let equal : t ≡ other = (nat_eq.beq_iff t other).0 same in
            let written : text_beq (print_nat t) (print_nat other) ≡ true =
              (text_beq_iff (print_nat t) (print_nat other)).1 (ap print_nat equal) in
            let found : lookup (print_nat other) grown ≡ some (kline_text k) =
              put ∙ rw written refl in
            elim (Bool-cases (ltb other start)) [
              | inl early ↦
                  rw (same, early)
                    (loaded_early start other (lookup (print_nat other) grown) early
                      ∙ sym
                          (read ∙ loaded_early start other (lookup (print_nat other) fields) early))
              | inr late ↦
                  rw (same, late)
                    (ap (λ x. loaded start other x (lookup other [])) found
                      ∙ loaded_late start other (kline_text k) (lookup other []) late
                      ∙ ap some (kline_of-kline_text k printable))
            ]
        | inr differ ↦
            let written : text_beq (print_nat t) (print_nat other) ≡ false =
              printed_apart t other differ in
            let kept : lookup (print_nat other) grown ≡ lookup (print_nat other) fields =
              put ∙ rw written refl in
            rw (differ, kept) (sym read)
      ])

  -- A candle that was written comes back under its time, if that is not before the start, and every
  -- other candle of its market and interval as before. Redis answers, the hash has printed times
  -- for its fields, each once, the time is a number of 63 bits, and decimals print without a comma.
  pub load_klines-flush_kline :
      (market interval : Text) (start t other : ℕ) (k : KlineInfo D) (r : Redis)
      → r.answers ≡ true
      → IsMap (fields_of (hash_key market interval) r)
      → All IsTime (fields_of (hash_key market interval) r)
      → t < 2 ^ 63
      → IsPrintable k
      → (after : Redis) × (before loaded : Dict ℕ (KlineInfo D)) × (flush_kline market interval t k
            r
          ≡ some after)
        × (load_klines market interval start r ≡ some before)
        × (load_klines market interval start after ≡ some loaded)
        × (lookup other loaded
            ≡ (if (t == other) && not (ltb other start) then some k else lookup other before))
  unfolding flush_kline load_klines
  load_klines-flush_kline market interval start t other k r up u times small printable =
      let key : Text = hash_key market interval in
      let fields : Dict Text Text = fields_of key r in
      let grown : Dict Text Text = insert (print_nat t) (kline_text k) fields in
      let now : fields_of key (record r { hashes = insert key grown r.hashes }) ≡ grown =
        fields_of-insert key grown r in
      (
        record r { hashes = insert key grown r.hashes },
        load_fields start fields [],
        load_fields start grown [],
        rw up refl,
        rw up refl,
        rw (up, now) refl,
        lookup-written start t other k fields u times small printable,
      )
