-- ===== src/BalanceUpdate/Once.antt =====
-- How often the update manager lets an update pass.
use exchange_server.Base.{
  ℕ, ◌≡◌, ◌≢◌, refl, sym, subst, ◌∙◌, Bool-cases, Option-cases, none, some, inl, inr, arith,
}
use exchange_server.Text.{Text, text_beq, text_beq_iff}
use exchange_server.BalanceUpdate.{
  Redis, duplicate_update, update_key, update_ttl, mark_handled, update_balance,
}

module _ ⦃rd : Redis⦄ where
  open rd use {R}

  abbrev pub IsHandled : Text → R → Type 0
  IsHandled k s = rd.exists k s ≡ some 1

  -- An update that passes is handled afterwards.
  pub update_balance_marks :
      (now user : ℕ) (asset business id : Text) (s : R)
      → (update_balance now user asset business id s).1 ≡ none
      → IsHandled
          (update_key user asset business id)
          (update_balance now user asset business id s).0
  unfolding update_balance mark_handled
  update_balance_marks now user asset business id s h =
      let k = update_key user asset business id in
      elim (Option-cases (rd.exists k s)) [
        | inl e ↦ ground arith
        | inr (count, e) ↦ ground (arith, rd.exists-set_key k now update_ttl s)
      ]

  -- A handled update is refused, and leaves Redis as it is.
  pub update_balance_refuses :
      (now user : ℕ) (asset business id : Text) (s : R)
      → IsHandled (update_key user asset business id) s
      → update_balance now user asset business id s ≡ (s, some duplicate_update)
  unfolding update_balance mark_handled
  update_balance_refuses now user asset business id s h = rw (h, mark_handled) refl

  -- No update makes a handled one forgotten.
  pub update_balance_keeps :
      (k : Text) (now user : ℕ) (asset business id : Text) (s : R)
      → IsHandled k s
      → IsHandled k (update_balance now user asset business id s).0
  unfolding update_balance mark_handled
  update_balance_keeps k now user asset business id s h =
      let j = update_key user asset business id in
      elim (Bool-cases (text_beq j k)) [
        | inl same ↦
            let handled : IsHandled j s =
              subst (λ t. IsHandled t s) (sym ((text_beq_iff j k).0 same)) h in
            rw (update_balance_refuses now user asset business id s handled) h
        | inr other ↦
            let apart : j ≢ k = λ e. cc ((text_beq_iff j k).1 e) in
            let kept = rd.exists-set_key_other j k now update_ttl s apart ∙ h in
            elim (Option-cases (rd.exists j s)) [
              | inl e ↦ rw (e, mark_handled) h
              | inr (count, e) ↦ ground arith
            ]
      ]
