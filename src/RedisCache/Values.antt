-- ===== src/RedisCache/Values.antt =====
-- What a candle's text and a time's field in Redis read back as.
use exchange_server.Base.{
  ℕ, ◌<◌, ◌^◌, ◌≡◌, ◌≢◌, refl, sym, ap, subst, ◌∙◌, true, false, some, [], ◌∷◌, ◌++◌, ◌==◌, ltb,
  All, arith, nat_eq,
}
use exchange_server.Int.{pos}
use exchange_server.Text.{
  Text, print_nat, text_eq, split, split_from_end, split_from_at, print_nat_cons, print_nat-IsDigit,
  IsDigit,
}
use exchange_server.Decimal.{Decimals, number-to_text}
use exchange_server.Decimal.Integer.{read_ℤ, read_ℤ-print_ℤ}
use exchange_server.MarketInfo.{KlineInfo}
use exchange_server.RedisCache.{parse_int, kline_text, kline_of, kline_of_parts}

pub parse_int-print_nat : (n : ℕ) → n < 2 ^ 63 → parse_int (print_nat n) ≡ some (pos n)
parse_int-print_nat n h =
    let (c, s, e) = print_nat_cons n in
    let d : IsDigit c = (subst (All IsDigit) e (print_nat-IsDigit n)).0 in
    let r : read_ℤ (c ∷ s) ≡ some (pos n) = ap read_ℤ (sym e) ∙ read_ℤ-print_ℤ (pos n) in
    let plus : (c == b'+') ≡ false = ground (arith, d) in
    let small : ltb n (2 ^ 63) ≡ true = ground (arith, h) in
    ap parse_int e ∙ rw (plus, r) (rw small refl)

module _ ⦃d : Decimals⦄ where
  open d use {D, to_text}

  abbrev pub HasNoComma : D → Type 0
  HasNoComma x = All (λ c. c ≢ b',') (to_text x)

  -- The numbers of a candle are printed without a comma.
  abbrev pub IsPrintable : KlineInfo D → Type 0
  IsPrintable k =
      HasNoComma k.open_price
      × HasNoComma k.close
      × HasNoComma k.high
      × HasNoComma k.low
      × HasNoComma k.volume
      × HasNoComma k.deal

  same_kline :
      (k : KlineInfo D)
      → kline_of_parts (
          to_text k.open_price
          ∷ to_text k.close
          ∷ to_text k.high
          ∷ to_text k.low
          ∷ to_text k.volume
          ∷ to_text k.deal
          ∷ [])
        ≡ k
  same_kline k =
      rw
        (
          number-to_text k.open_price,
          number-to_text k.close,
          number-to_text k.high,
          number-to_text k.low,
          number-to_text k.volume,
          number-to_text k.deal,
          kline_of_parts,
        )
        refl

  pub kline_of-kline_text : (k : KlineInfo D) → IsPrintable k → kline_of (kline_text k) ≡ k
  unfolding kline_of split
  kline_of-kline_text k h =
      let open_text : Text = to_text k.open_price in
      let close : Text = to_text k.close in
      let high : Text = to_text k.high in
      let low : Text = to_text k.low in
      let volume : Text = to_text k.volume in
      let deal : Text = to_text k.deal in
      let parts : split b',' (kline_text k) ≡ open_text ∷ close ∷ high ∷ low ∷ volume ∷ deal ∷ [] =
        split_from_at b',' [] open_text
          (close ++ b',' ∷ (high ++ b',' ∷ (low ++ b',' ∷ (volume ++ b',' ∷ deal)))) h.0
        ∙ ap (◌∷◌ open_text) (
            split_from_at b',' [] close (high ++ b',' ∷ (low ++ b',' ∷ (volume ++ b',' ∷ deal))) h.1
            ∙ ap (◌∷◌ close) (
                split_from_at b',' [] high (low ++ b',' ∷ (volume ++ b',' ∷ deal)) h.2
                ∙ ap (◌∷◌ high) (
                    split_from_at b',' [] low (volume ++ b',' ∷ deal) h.3
                    ∙ ap (◌∷◌ low) (
                        split_from_at b',' [] volume deal h.4
                        ∙ ap (◌∷◌ volume) (split_from_end b',' [] deal h.5))))) in
      ap kline_of_parts parts ∙ same_kline k
