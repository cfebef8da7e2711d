-- ===== src/MarketInfo/Klines.antt =====
-- The candles of a market: what an update changes, what a flush writes, what the cleaning drops.
use mathlib.Core.List.{
  Mem, Mem-prop, mem-cons_self, mem-cons_of_mem, not-mem-nil, eq-or-mem_of_mem-cons,
}
use mathlib.Core.Logic.Or
use exchange_server.Base.{
  ℕ, ◌+◌, ◌*◌, ◌/◌, ◌<◌, ◌≡◌, ap, subst, ◌∙◌, none, some, List, [], ◌∷◌, if◌then◌else◌, ◌==◌, ◌&&◌,
  ltb, nat_eq, arith, Bool-cases, Option-cases, inl, inr,
}
use exchange_server.Text.{text_eq}
use exchange_server.Dict.{Dict, lookup, insert, lookup-insert}
use exchange_server.Decimal.{Decimals}
use exchange_server.MarketInfo.{
  MarketInfo, KlineInfo, Flush, klines_of, set_klines, interval_of, interval_name, same_key, mark,
  flush_keys, flush_dirty, keep_recent, kline_with, first_kline, update_kline,
}

mark-mem : (key : ℕ × ℕ) (keys : List (ℕ × ℕ)) → Mem key (mark key keys)
mark-mem key [] = mem-cons_self
mark-mem (a, s) ((b, t) ∷ keys) = elim (Bool-cases (same_key (b, t) (a, s))) [
  | inl same ↦
      let ea : b ≡ a = ground arith in
      let es : t ≡ s = ground arith in
      let e : (b, t) ≡ (a, s) = λ i. (ea i, es i) in
      rw same (subst (λ k. Mem k ((b, t) ∷ keys)) e mem-cons_self)
  | inr other ↦ rw other (mem-cons_of_mem (b, t) (mark-mem (a, s) keys))
]

module _ {D : Type 0} where
  -- The cleaning of a kind of candles drops exactly those older than the limit.
  pub lookup-keep_recent :
      (now max ts : ℕ) (klines : Dict ℕ (KlineInfo D))
      → lookup ts (keep_recent now max klines)
        ≡ (if ltb (ts + max) now then none else lookup ts klines)
  unfolding keep_recent lookup
  lookup-keep_recent now max ts [] = ground arith
  lookup-keep_recent now max ts ((t, k) ∷ klines) =
      ground (arith, lookup-keep_recent now max ts klines)

  abbrev pub flush_of : MarketInfo D → ℕ → ℕ → KlineInfo D → Flush D
  flush_of info kline_type ts k = record {
    market = info.name;
    interval = interval_name kline_type;
    timestamp = ts;
    kline = k;
  }

  flush_keys-mem :
      (kline_type ts : ℕ) (k : KlineInfo D) (info : MarketInfo D) (keys : List (ℕ × ℕ))
      → lookup ts (klines_of kline_type info) ≡ some k
      → Mem (kline_type, ts) keys
      → Mem (flush_of info kline_type ts k) (flush_keys keys info)
  unfolding flush_keys
  flush_keys-mem kline_type ts k info [] found m = absurd (not-mem-nil m)
  flush_keys-mem kline_type ts k info ((a, t) ∷ keys) found m =
      Or.elim (Mem-prop {a = flush} {l = flush_keys ((a, t) ∷ keys) info}) (eq-or-mem_of_mem-cons m)
        (λ e. subst (λ key. Mem flush (flush_keys (key ∷ keys) info)) e first)
        (λ m. later (flush_keys-mem kline_type ts k info keys found m))
    where
      flush : Flush D
      flush = flush_of info kline_type ts k

      first : Mem flush (flush_keys ((kline_type, ts) ∷ keys) info)
      first = rw (found, flush_keys) mem-cons_self

      later : Mem flush (flush_keys keys info) → Mem flush (flush_keys ((a, t) ∷ keys) info)
      later m = elim (Option-cases (lookup t (klines_of a info))) [
        | inl gone ↦ rw (gone, flush_keys) m
        | inr (other, e) ↦ rw (e, flush_keys) (mem-cons_of_mem (flush_of info a t other) m)
      ]

module _ ⦃d : Decimals⦄ (kline_type timestamp : ℕ) (price amount : d.D)
    (info : MarketInfo d.D) where
  open d use {D}

  abbrev pub bucket : ℕ
  bucket = timestamp / interval_of kline_type * interval_of kline_type

  -- The candle that an update leaves.
  abbrev pub updated : KlineInfo D
  updated =
      kline_with price amount
        (elim (lookup bucket (klines_of kline_type info)) as (λ o. KlineInfo D) [
          | none ↦ first_kline price
          | some k ↦ k
        ])

  abbrev pub after : MarketInfo D
  after = record (set_klines kline_type (insert bucket updated (klines_of kline_type info)) info) {
    update_map = mark (kline_type, bucket) info.update_map;
  }

  update_kline-after :
      kline_type < 4 → update_kline kline_type timestamp price amount info ≡ some after
  unfolding update_kline
  update_kline-after h = ground arith

  klines_of-after :
      kline_type < 4
      → (other : ℕ)
      → klines_of other after ≡ (
          if kline_type == other
          then insert bucket updated (klines_of kline_type info)
          else klines_of other info)
  klines_of-after h other = ground arith

  -- An update of a candle of a known kind changes that candle alone, and the next flush writes it
  -- as it then stands.
  pub update_kline_lem :
      kline_type < 4
      → (changed : MarketInfo D) × (update_kline kline_type timestamp price amount info
          ≡ some changed)
        × ((other ts : ℕ)
            → lookup ts (klines_of other changed) ≡ (
                if (kline_type == other) && (bucket == ts)
                then some updated
                else lookup ts (klines_of other info)))
        × Mem (flush_of info kline_type bucket updated) (flush_dirty changed).0
  unfolding flush_dirty
  update_kline_lem h = (
    after,
    update_kline-after h,
    λ other ts.
        ap (lookup ts) (klines_of-after h other)
        ∙ ground (arith, lookup-insert bucket ts updated (klines_of kline_type info)),
    flush_keys-mem kline_type bucket updated after (mark (kline_type, bucket) info.update_map)
        (ap (lookup bucket) (klines_of-after h kline_type)
          ∙ ground (arith, lookup-insert bucket bucket updated (klines_of kline_type info)))
        (mark-mem (kline_type, bucket) info.update_map),
  )
