-- ===== src/Decimal/Laws.antt =====
-- What follows from the laws of the decimal interface.
use exchange_server.Base.{true, ◌≡◌, sym, ap, ◌∙◌, Bool-cases, inl, inr}
use exchange_server.Decimal.{Decimals, Le, abs}

module _ ⦃d : Decimals⦄ where
  open d use {
    D, zero, add, sub, neg, less_than, add_comm, add_assoc, add_zero, add_neg, sub_eq, lt_asymm,
    le_trans, add_le,
  }

  pub zero_add : (a : D) → add zero a ≡ a
  zero_add a = add_comm zero a ∙ add_zero a

  pub neg_add : (a : D) → add (neg a) a ≡ zero
  neg_add a = add_comm (neg a) a ∙ add_neg a

  -- a - b + b = a
  pub sub_add : (a b : D) → add (sub a b) b ≡ a
  sub_add a b = rw (sub_eq a b, add_assoc a (neg b) b, neg_add b) (add_zero a)

  -- a + b - b = a
  pub add_sub : (a b : D) → sub (add a b) b ≡ a
  add_sub a b = rw (sub_eq (add a b) b, add_assoc a b (neg b), add_neg b) (add_zero a)

  pub sub_zero : (a : D) → sub a zero ≡ a
  sub_zero a = sym (add_zero (sub a zero)) ∙ sub_add a zero

  pub sub_self : (a : D) → sub a a ≡ zero
  sub_self a = sub_eq a a ∙ add_neg a

  -- (a - x) + (b + x) = a + b
  pub sub_add_add : (a b x : D) → add (sub a x) (add b x) ≡ add a b
  sub_add_add a b x =
      rw (add_comm b x) (sym (add_assoc (sub a x) x b) ∙ ap (λ t. add t b) (sub_add a x))

  -- (a + x) + (b - x) = a + b
  pub add_sub_sub : (a b x : D) → add (add a x) (sub b x) ≡ add a b
  add_sub_sub a b x = add_assoc a x (sub b x) ∙ ap (add a) (add_comm x (sub b x) ∙ sub_add b x)

  -- (a + b) + (c + e) = (a + c) + (b + e)
  pub add_swap : (a b c e : D) → add (add a b) (add c e) ≡ add (add a c) (add b e)
  add_swap a b c e =
      add_assoc a b (add c e)
      ∙ ap (add a) (sym (add_assoc b c e) ∙ ap (λ t. add t e) (add_comm b c) ∙ add_assoc c b e)
      ∙ sym (add_assoc a c (add b e))

  -- (a + b) + c = (a + c) + b
  pub add_right_comm : (a b c : D) → add (add a b) c ≡ add (add a c) b
  add_right_comm a b c = add_assoc a b c ∙ ap (add a) (add_comm b c) ∙ sym (add_assoc a c b)

  -- a + (b - c) = (a + b) - c
  pub add_sub_assoc : (a b c : D) → add a (sub b c) ≡ sub (add a b) c
  add_sub_assoc a b c = rw (sub_eq b c, sub_eq (add a b) c) (sym (add_assoc a b (neg c)))

  pub le_refl : (a : D) → Le a a
  le_refl a = elim (Bool-cases (less_than a a)) [ inl e ↦ lt_asymm a a e | inr e ↦ e ]

  -- b ≤ a gives 0 ≤ a - b
  pub sub_nonneg : (a b : D) → Le b a → Le zero (sub a b)
  sub_nonneg a b h = rw (sub_eq a b) (rw (add_neg b) at (add_le b a (neg b) h))

  pub add_nonneg : (a b : D) → Le zero a → Le zero b → Le zero (add a b)
  add_nonneg a b h k = le_trans zero b (add a b) k (rw (zero_add b) at (add_le zero a b h))

  -- 0 ≤ b gives a - b ≤ a
  pub sub_le : (a b : D) → Le zero b → Le (sub a b) a
  sub_le a b h =
      rw (zero_add (sub a b), add_comm b (sub a b), sub_add a b) at (add_le zero b (sub a b) h)

  -- |b| ≤ a gives 0 ≤ a + b for a negative b
  pub add_neg_nonneg : (a b : D) → Le (abs b) a → less_than b zero ≡ true → Le zero (add a b)
  add_neg_nonneg a b h k =
      let at_most : Le (neg b) a = rw k at h in rw (neg_add b) at (add_le (neg b) a b at_most)

  -- (b - (a' + b')) with a' + b' put back: a' + b' + (c - (a' + b')) = c
  pub add_sub_total : (s c : D) → add s (sub c s) ≡ c
  add_sub_total s c = add_comm s (sub c s) ∙ sub_add c s

  -- 0 ≤ a gives x ≤ a + x
  pub add_zero_le : (a x : D) → Le zero a → Le x (add a x)
  add_zero_le a x h = rw (zero_add x) at (add_le zero a x h)
