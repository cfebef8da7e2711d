-- ===== src/Balance/Views.antt =====
-- What the queries that range over the book return.
use mathlib.Core.List.{append_assoc}
use exchange_server.Base.{
  ℕ, ◌≡◌, ◌≢◌, ◌↔◌, refl, sym, ap, ap₂, ◌∙◌, true, inl, inr, Option, none, some, [], ◌∷◌, ◌++◌, ◌<◌,
  arith, Bool-cases, if◌then◌else◌, length, take, drop, take-append-drop, take-append,
  length-append, subst,
}
use exchange_server.Text.{Text, text_eq, text_beq, text_beq_iff, colon, print_nat, extends}
use exchange_server.Dict.{lookup, insert, lookup-insert, IsMap, beq_self}
use exchange_server.Decimal.{Decimals}
use exchange_server.Balance.{Balance, Book, key, collect_user, get_all_balances_for_user}
use exchange_server.Balance.Key.{key_injective}
use exchange_server.Balance.Keyed.{IsKeyed}

-- `fmt.Sprintf("%d:", userID)`
abbrev prefix_of : ℕ → Text
prefix_of u = print_nat u ++ colon ∷ []

extends-append : (p s : Text) → s ≢ [] → extends (p ++ s) p ≡ true
unfolding extends
extends-append p [] h = absurd (h refl)
extends-append p (c ∷ s) h =
    ground (arith, length-append p (c ∷ s), take-append (length p) p (c ∷ s) refl, text_beq_iff p p)

extends-split : (s p : Text) → extends s p ≡ true → (t : Text) × (t ≢ []) × (s ≡ p ++ t)
unfolding extends
extends-split s p h =
    let t = drop (length p) s in
    let whole = take-append-drop (length p) s in
    let same : take (length p) s ≡ p = ground (arith, text_beq_iff (take (length p) s) p) in
    let joined : s ≡ p ++ t = sym whole ∙ ap (λ q. q ++ t) same in
    let longer : length p < length s = ground arith in
    (t, λ e. absurd (omega (arith, ap length joined, length-append p t, ap length e)), joined)

-- The prefix test of `GetAllBalancesForUser` holds of exactly the user's keys, but for the asset
-- with the empty name.
pub extends-key :
    (u v : ℕ) (a : Text)
    → (extends (key v a) (print_nat u ++ colon ∷ []) ≡ true) ↔ ((v ≡ u) × (a ≢ []))
unfolding key
extends-key u v a = (
  λ h.
      let (t, ne, e) = extends-split (key v a) (prefix_of u) h in
      let r = key_injective v u a t (e ∙ append_assoc (print_nat u) (colon ∷ []) t) in
      (r.0, λ empty. ne (sym r.1 ∙ empty)),
  λ (same, ne).
      subst (λ w. extends (key w a) (prefix_of u) ≡ true) (sym same)
        (subst (λ s. extends s (prefix_of u) ≡ true) (append_assoc (print_nat u) (colon ∷ []) a)
          (extends-append (prefix_of u) a ne)),
)

module _ ⦃d : Decimals⦄ where
  open d use {D}

  -- The entry that a user's loop returns for an asset, given what it had collected.
  abbrev first_of_two : Option (Balance D) → Option (Balance D) → Option (Balance D)
  first_of_two none o = o
  first_of_two (some b) o = some b

  first_of_two-none : (o : Option (Balance D)) → first_of_two o none ≡ o
  first_of_two-none none = refl
  first_of_two-none (some b) = refl

  -- The entry of the user and the asset is collected under the asset.
  collect_hit :
      (u : ℕ) (a k : Text) (b : Balance D) (result : Book D)
      → a ≢ []
      → k ≡ key b.user_id b.asset
      → k ≡ key u a
      → lookup a (if extends k (prefix_of u) then insert b.asset b result else result) ≡ some b
  collect_hit u a k b result ne keyed same =
      let r = key_injective b.user_id u b.asset a (sym keyed ∙ same) in
      let hit : extends k (prefix_of u) ≡ true = rw same ((extends-key u u a).1 (refl, ne)) in
      rw (hit, lookup-insert b.asset a b result, r.1, beq_self a)

  -- Another entry leaves what was collected under the asset alone.
  collect_miss :
      (u : ℕ) (a k : Text) (b : Balance D) (result : Book D)
      → k ≡ key b.user_id b.asset
      → k ≢ key u a
      → lookup a (if extends k (prefix_of u) then insert b.asset b result else result)
        ≡ lookup a result
  collect_miss u a k b result keyed ne = elim (Bool-cases (extends k (prefix_of u))) [
    | inl hit ↦
        let own = (extends-key u b.user_id b.asset).0 (rw (← keyed) hit) in
        rw (hit, lookup-insert b.asset a b result)
          (elim (Bool-cases (text_beq b.asset a)) [
            | inl same ↦ absurd (ne (keyed ∙ ap₂ key own.0 ((text_beq_iff b.asset a).0 same)))
            | inr other ↦ rw other
          ])
    | inr miss ↦ rw miss
  ]

  lookup-collect :
      (u : ℕ) (a : Text) (bm result : Book D)
      → a ≢ []
      → IsKeyed bm
      → IsMap bm
      → lookup a (collect_user (prefix_of u) bm result)
        ≡ first_of_two (lookup (key u a) bm) (lookup a result)
  unfolding collect_user lookup
  lookup-collect u a [] result ne h m = refl
  lookup-collect u a ((k, b) ∷ bm) result ne h m =
      let next = if extends k (prefix_of u) then insert b.asset b result else result in
      lookup-collect u a bm next ne h.1 m.1 ∙ elim (Bool-cases (text_beq k (key u a))) [
        | inl same ↦
            let e = (text_beq_iff k (key u a)).0 same in
            rw (same, subst (λ j. lookup j bm ≡ none) e m.0) (collect_hit u a k b result ne h.0 e)
        | inr other ↦
            let apart : k ≢ key u a = λ e. cc ((text_beq_iff k (key u a)).1 e) in
            rw other
              (ap (first_of_two (lookup (key u a) bm)) (collect_miss u a k b result h.0 apart))
      ]

  -- `GetAllBalancesForUser` returns, under every asset with a name, exactly the user's balance
  -- of that asset, on any book that is a map keyed by user and asset.
  pub lookup-get_all_balances_for_user :
      (u : ℕ) (a : Text) (bm : Book D)
      → a ≢ []
      → IsKeyed bm
      → IsMap bm
      → lookup a (get_all_balances_for_user u bm) ≡ lookup (key u a) bm
  unfolding get_all_balances_for_user lookup
  lookup-get_all_balances_for_user u a bm ne h m =
      lookup-collect u a bm [] ne h m ∙ first_of_two-none (lookup (key u a) bm)
