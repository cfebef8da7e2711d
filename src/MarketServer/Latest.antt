-- ===== src/MarketServer/Latest.antt =====
-- internal/marketprice/server/server.go, `getDealsAfterID`: which deals a client gets that has seen
-- some of them.
use mathlib.Core.List.{append-nil, reverse, reverse-cons, reverse-append, reverse-reverse}
use exchange_server.Base.{
  filter_keeps, filter_skips, ℕ, zero, suc, ◌+◌, ◌-◌, ◌≤◌, ◌≡◌, refl, sym, ap, ◌∙◌, Bool, true,
  false, List, [], ◌∷◌, ◌++◌, ltb, length, length-append, length-drop, take, drop, take-append,
  take_all, take-append-drop, filter, arith, Bool-cases, inl, inr,
}
use exchange_server.Int.{ℤ, pos, negsuc, ltb_ℤ}
use exchange_server.MarketInfo.{Deal, MarketInfo, keep_last}
use exchange_server.MarketServer.{collect_after, get_deals_after_id}

module _ {A : Type 0} where
  take-nil : (n : ℕ) → take {A = A} n [] ≡ []
  take-nil zero = refl
  take-nil (suc n) = refl

  length-reverse : (l : List A) → length (reverse l) ≡ length l
  length-reverse [] = refl
  length-reverse (x ∷ l) =
      let e : length (reverse (x ∷ l)) ≡ length (reverse l ++ (x ∷ [])) =
        ap length (reverse-cons x l) in
      omega (arith, e, length-append (reverse l) (x ∷ []), length-reverse l)

  filter-append : (p : A → Bool) (l m : List A) → filter p (l ++ m) ≡ filter p l ++ filter p m
  filter-append p [] m = refl
  filter-append p (x ∷ l) m =
      elim (p x)
        as (λ b.
          elim b [ true ↦ x ∷ filter p (l ++ m) | false ↦ filter p (l ++ m) ]
          ≡ elim b [ true ↦ x ∷ filter p l | false ↦ filter p l ] ++ filter p m) [
            | true ↦ ap (◌∷◌ x) (filter-append p l m)
            | false ↦ filter-append p l m
          ]

  filter-reverse : (p : A → Bool) (l : List A) → filter p (reverse l) ≡ reverse (filter p l)
  filter-reverse p [] = refl
  filter-reverse p (x ∷ l) =
      ap (filter p) (reverse-cons x l)
      ∙ filter-append p (reverse l) (x ∷ [])
      ∙ ap (λ m. m ++ filter p (x ∷ [])) (filter-reverse p l)
      ∙ (elim (p x)
          as (λ b.
            reverse (filter p l) ++ elim b [ true ↦ x ∷ [] | false ↦ [] ]
            ≡ reverse (elim b [ true ↦ x ∷ filter p l | false ↦ filter p l ])) [
              | true ↦ sym (reverse-cons x (filter p l))
              | false ↦ append-nil (reverse (filter p l))
            ])

  -- The last elements, when there are enough.
  take-reverse :
      (n : ℕ) (l : List A) → n ≤ length l → take n (reverse l) ≡ reverse (drop (length l - n) l)
  take-reverse n l h =
      let k : ℕ = length l - n in
      let e : reverse l ≡ reverse (drop k l) ++ reverse (take k l) =
        ap reverse (sym (take-append-drop k l)) ∙ reverse-append (take k l) (drop k l) in
      ap (take n) e
      ∙ take-append n (reverse (drop k l)) (reverse (take k l))
          (omega (arith, h, length-reverse (drop k l), length-drop k l))

  -- Turned around, cut, and turned around again: the end of a list.
  reverse-take : (n : ℕ) (l : List A) → reverse (take n (reverse l)) ≡ keep_last n l
  reverse-take n l = elim (Bool-cases (ltb n (length l))) [
    | inl h ↦
        let few : n ≤ length l = ground arith in
        rw h (ap reverse (take-reverse n l few) ∙ reverse-reverse (drop (length l - n) l))
    | inr h ↦
        let many : length (reverse l) ≤ n = ground (arith, length-reverse l) in
        rw h (ap reverse (take_all n (reverse l) many) ∙ reverse-reverse l)
  ]

abbrev pub is_after : {D : Type 0} → ℤ → Deal D → Bool
is_after last_id d = ltb_ℤ last_id (pos d.id)

module _ {D : Type 0} where
  collect_after-take :
      (last_id : ℤ) (n count : ℕ) (l : List (Deal D))
      → collect_after last_id (pos n) count l ≡ take (n - count) (filter (is_after last_id) l)
  unfolding collect_after
  collect_after-take last_id n count [] = sym (take-nil (n - count))
  collect_after-take last_id n count (d ∷ l) =
      let p : Deal D → Bool = is_after last_id in
      elim (Bool-cases (ltb count n)) [
        | inl h ↦
            let found = collect_after-take last_id n (count + 1) l in
            let passed = collect_after-take last_id n count l in
            let e : n - count ≡ suc (n - (count + 1)) = ground arith in
            let left : ltb (count + 0) (n + 0) ≡ true = ground arith in
            elim (Bool-cases (is_after last_id d)) [
              | inl k ↦
                  rw (left, k)
                    (ap (◌∷◌ d) found
                      ∙ sym (
                          ap (λ m. take m (filter p (d ∷ l))) e
                          ∙ ap (take (suc (n - (count + 1)))) (filter_keeps p d l k)))
              | inr k ↦ rw (left, k) (passed ∙ sym (ap (take (n - count)) (filter_skips p d l k)))
            ]
        | inr h ↦
            let e : n - count ≡ 0 = ground arith in
            let left : ltb (count + 0) (n + 0) ≡ false = ground arith in
            rw left (ap (λ m. take m (filter p (d ∷ l))) (sym e))
      ]

  collect_after-negative :
      (last_id : ℤ) (n count : ℕ) (l : List (Deal D))
      → collect_after last_id (negsuc n) count l ≡ []
  unfolding collect_after
  collect_after-negative last_id n count [] = refl
  collect_after-negative last_id n count (d ∷ l) =
      let e : ltb_ℤ (pos count) (negsuc n) ≡ false = ground arith in rw e refl

  -- A client that knows a deal gets the deals with greater ids, in the order of the market: the
  -- last of them, as many as its limit says. A negative limit gets it nothing.
  pub get_deals_after_id_lem :
      (info : MarketInfo D) (last_id : ℤ) (n : ℕ)
      → (get_deals_after_id info last_id (pos n)
          ≡ keep_last n (filter (is_after last_id) info.deals))
        × (get_deals_after_id info last_id (negsuc n) ≡ [])
  unfolding get_deals_after_id
  get_deals_after_id_lem info last_id n =
      let p : Deal D → Bool = is_after last_id in
      let e : n - 0 ≡ n = omega arith in
      (
        ap reverse (
              collect_after-take last_id n 0 (reverse info.deals)
              ∙ ap (λ m. take m (filter p (reverse info.deals))) e
              ∙ ap (take n) (filter-reverse (is_after last_id) info.deals))
            ∙ reverse-take n (filter (is_after last_id) info.deals),
        ap reverse (collect_after-negative last_id n 0 (reverse info.deals)),
      )
