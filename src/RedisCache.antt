-- ===== src/RedisCache.antt =====
-- internal/marketprice/cache/redis.go: how candles, deals and prices stand in Redis. Redis is the
-- hashes, lists and strings that it holds, and whether it answers.
pub mod Values
pub mod Klines
mod Tests
use exchange_server.Base.{
  ℕ, nat_eq, ◌+◌, ◌-◌, ◌<◌, ◌^◌, Bool, true, false, Option, none, some, List, [], ◌∷◌, ◌++◌,
  if◌then◌else◌, ◌==◌, ltb, not, ◌&&◌, filter, take,
}
use exchange_server.Int.{ℤ, pos, negsuc}
use exchange_server.Text.{Text, codes, colon, print_nat, text_eq, split}
use exchange_server.Dict.{Dict, lookup, insert}
use exchange_server.Decimal.{Decimals, number_of}
use exchange_server.Decimal.Integer.{read_ℤ}
use exchange_server.MarketInfo.{KlineInfo}

pub record Redis : Type 0 where
  pub answers : Bool
  pub hashes : Dict Text (Dict Text Text)
  pub strings : Dict Text Text

-- `fmt.Sprintf("k:%s:%s", market, interval)`
abbrev pub hash_key : Text → Text → Text
hash_key market interval = codes "k:" ++ market ++ colon ∷ interval

-- `HGetAll` gives no fields where there is no hash.
abbrev pub fields_of : Text → Redis → Dict Text Text
fields_of key r = elim (lookup key r.hashes) [ none ↦ [] | some fields ↦ fields ]

-- `strconv.ParseInt(s, 10, 64)`, `none` for an error.
abbrev pub in_range : Option ℤ → Option ℤ
in_range none = none
in_range (some (pos n)) = if ltb n (2 ^ 63) then some (pos n) else none
in_range (some (negsuc n)) = if ltb n (2 ^ 63) then some (negsuc n) else none

abbrev pub after_plus : Text → Option ℤ
after_plus [] = none
after_plus (c ∷ s) = if c == b'-' then none else read_ℤ (c ∷ s)

abbrev pub parse_int : Text → Option ℤ
parse_int [] = none
parse_int (c ∷ s) = in_range (if c == b'+' then after_plus s else read_ℤ (c ∷ s))

module _ ⦃d : Decimals⦄ where
  open d use {D, zero, to_text, from_text}

  abbrev pub kline_text : KlineInfo D → Text
  kline_text k =
      to_text k.open_price
      ++ b','
        ∷ (to_text k.close
            ++ b','
              ∷ (to_text k.high
                  ++ b',' ∷ (to_text k.low ++ b',' ∷ (to_text k.volume ++ b',' ∷ to_text k.deal))))

  unfoldable pub flush_kline : Text → Text → ℕ → KlineInfo D → Redis → Option Redis
  unfolding insert lookup
  flush_kline market interval timestamp k r =
      let key = hash_key market interval in
      if r.answers
      then some (record r {
        hashes =
            insert key (insert (print_nat timestamp) (kline_text k) (fields_of key r)) r.hashes;
      })
      else none

  -- The candle of a value: with fewer than six parts everything is zero.
  abbrev pub kline_of_parts : List Text → KlineInfo D
  kline_of_parts (o ∷ c ∷ h ∷ l ∷ v ∷ m ∷ more) = record {
    open_price = number_of o;
    close = number_of c;
    high = number_of h;
    low = number_of l;
    volume = number_of v;
    deal = number_of m;
  }
  kline_of_parts parts = record {
    open_price = zero;
    close = zero;
    high = zero;
    low = zero;
    volume = zero;
    deal = zero;
  }

  -- `splitString` is called with separators of one byte.
  unfoldable pub kline_of : Text → KlineInfo D
  unfolding split
  kline_of value = kline_of_parts (split b',' value)

  -- One round of the loop of `LoadKlines`, from a time that is not negative.
  unfoldable pub load_field : ℕ → Text → Text → Dict ℕ (KlineInfo D) → Dict ℕ (KlineInfo D)
  unfolding kline_of
  load_field start field value result = elim (parse_int field) [
    | none ↦ result
    | some (negsuc n) ↦ result
    | some (pos timestamp) ↦
        if ltb timestamp start then result else insert timestamp (kline_of value) result
  ]

  unfoldable pub load_fields : ℕ → Dict Text Text → Dict ℕ (KlineInfo D) → Dict ℕ (KlineInfo D)
  unfolding load_field
  load_fields start [] result = result
  load_fields start ((field, value) ∷ fields) result =
      load_fields start fields (load_field start field value result)

  unfoldable pub load_klines : Text → Text → ℕ → Redis → Option (Dict ℕ (KlineInfo D))
  unfolding load_fields lookup
  load_klines market interval start r =
      if r.answers
      then some (load_fields start (fields_of (hash_key market interval) r) [])
      else none

  unfoldable pub flush_last_price : Text → D → Redis → Option Redis
  unfolding insert
  flush_last_price market price r =
      if r.answers
      then some (record r {
        strings = insert (codes "k:" ++ market ++ codes ":last") (to_text price) r.strings;
      })
      else none

  -- A price that is not there is zero; `none` is an error, also of a text that is no number.
  unfoldable pub load_last_price : Text → Redis → Option D
  unfolding lookup
  load_last_price market r =
      if r.answers
      then (elim (lookup (codes "k:" ++ market ++ codes ":last") r.strings) [
        | none ↦ some zero
        | some value ↦ from_text value
      ])
      else none

-- The loop of `cleanupInterval` on the fields of one market.
abbrev pub is_before : ℤ → Option ℤ → Bool
is_before cutoff none = false
is_before (pos c) (some (pos n)) = ltb n c
is_before (pos c) (some (negsuc n)) = true
is_before (negsuc c) (some (pos n)) = false
is_before (negsuc c) (some (negsuc n)) = ltb c n

unfoldable pub cleanup_fields : ℤ → Dict Text Text → Dict Text Text
cleanup_fields cutoff fields =
    filter (λ (field, value). not (is_before cutoff (parse_int field))) fields
