-- ===== src/Subscription/Members.antt =====
-- Who listens to a topic after a subscription or its end.
use exchange_server.Base.{
  ℕ, ◌≡◌, refl, ap, subst, ◌∙◌, true, false, Option, none, some, List, [], ◌∷◌, ◌++◌, if◌then◌else◌,
  ◌==◌, ◌&&◌, ◌||◌, not, nat_eq, arith, Bool-cases, Option-cases, inl, inr,
}
use exchange_server.Text.{Text, text_eq, text_beq, text_beq_iff}
use exchange_server.Dict.{lookup, insert, lookup-insert, lookup-erase, IsMap}
use exchange_server.Subscription.{
  Topics, listens, with_session, without_session, subscribers, subscribe, keep, unsubscribe,
  cons_topic, unsubscribe_all,
}

listens-append : (s x : ℕ) (l : List ℕ) → listens s (l ++ x ∷ []) ≡ (listens s l || (x == s))
listens-append s x [] = ground arith
listens-append s x (y ∷ l) = ground (arith, listens-append s x l)

listens-with_session :
    (s x : ℕ) (l : List ℕ) → listens s (with_session x l) ≡ ((x == s) || listens s l)
listens-with_session s x l = elim (Bool-cases (listens x l)) [
  | inl there ↦ rw there (elim (Bool-cases (x == s)) [
    | inl same ↦ rw same (subst (λ y. listens y l ≡ true) ((nat_eq.beq_iff x s).0 same) there)
    | inr other ↦ rw other
  ])
  | inr absent ↦ rw absent (listens-append s x l ∙ ground arith)
]

listens-without_session :
    (s x : ℕ) (l : List ℕ) → listens s (without_session x l) ≡ (not (x == s) && listens s l)
listens-without_session s x [] = ground arith
listens-without_session s x (y ∷ l) = ground (arith, listens-without_session s x l)

subscribers-insert :
    (key other : Text) (l : List ℕ) (topics : Topics)
    → subscribers other (insert key l topics)
      ≡ (if text_beq key other then l else subscribers other topics)
unfolding subscribers
subscribers-insert key other l topics = ground (arith, lookup-insert key other l topics)

subscribers-keep :
    (key other : Text) (l : List ℕ) (topics : Topics)
    → subscribers other (keep key l topics)
      ≡ (if text_beq key other then l else subscribers other topics)
unfolding subscribers
subscribers-keep key other [] topics = ground (arith, lookup-erase key other topics)
subscribers-keep key other (y ∷ l) topics = ground (arith, lookup-insert key other (y ∷ l) topics)

subscribers-of :
    (key other : Text) (topics : Topics) (found : Option (List ℕ))
    → text_beq key other ≡ true
    → lookup key topics ≡ found
    → subscribers other topics ≡ (elim found [ none ↦ [] | some l ↦ l ])
unfolding subscribers
subscribers-of key other topics found same e =
    ap (λ o. elim o as (λ x. List ℕ) [ none ↦ [] | some l ↦ l ])
      (subst (λ k. lookup k topics ≡ found) ((text_beq_iff key other).0 same) e)

-- A subscription adds its session to its topic, and changes nothing else.
pub listens-subscribe :
    (key other : Text) (x s : ℕ) (topics : Topics)
    → listens s (subscribers other (subscribe key x topics))
      ≡ ((text_beq key other && (x == s)) || listens s (subscribers other topics))
unfolding subscribe
listens-subscribe key other x s topics =
    let l = elim (lookup key topics) as (λ o. List ℕ) [ none ↦ [] | some l ↦ l ] in
    ap (listens s) (subscribers-insert key other (with_session x l) topics)
    ∙ elim (Bool-cases (text_beq key other)) [
      | inl same ↦
          rw (same, subscribers-of key other topics (lookup key topics) same refl)
            (listens-with_session s x l)
      | inr apart ↦ rw apart
    ]

-- The end of a subscription takes its session out of its topic, and changes nothing else.
pub listens-unsubscribe :
    (key other : Text) (x s : ℕ) (topics : Topics)
    → listens s (subscribers other (unsubscribe key x topics))
      ≡ (not (text_beq key other && (x == s)) && listens s (subscribers other topics))
unfolding unsubscribe
listens-unsubscribe key other x s topics = elim (Option-cases (lookup key topics)) [
  | inl absent ↦
      rw (absent, unsubscribe)
        (elim (Bool-cases (text_beq key other)) [
          | inl same ↦ rw (same, subscribers-of key other topics none same absent) (ground arith)
          | inr apart ↦ rw apart
        ])
  | inr (l, found) ↦
      rw (found, unsubscribe)
        (ap (listens s) (subscribers-keep key other (without_session x l) topics)
          ∙ elim (Bool-cases (text_beq key other)) [
            | inl same ↦
                rw (same, subscribers-of key other topics (some l) same found)
                  (listens-without_session s x l)
            | inr apart ↦ rw apart
          ])
]

subscribers-cons :
    (key other : Text) (l : List ℕ) (topics : Topics)
    → subscribers other ((key, l) ∷ topics)
      ≡ (if text_beq key other then l else subscribers other topics)
unfolding subscribers lookup
subscribers-cons key other l topics = ground arith

cons-same :
    (key other : Text) (s : ℕ) (k : List ℕ) (topics : Topics)
    → text_beq key other ≡ true
    → listens s (subscribers other topics) ≡ false
    → listens s (subscribers other (cons_topic key k topics)) ≡ listens s k
cons-same key other s [] topics same h = h
cons-same key other s (y ∷ k) topics same h = rw (subscribers-cons key other (y ∷ k) topics, same)

cons-apart :
    (key other : Text) (k : List ℕ) (topics : Topics)
    → text_beq key other ≡ false
    → subscribers other (cons_topic key k topics) ≡ subscribers other topics
cons-apart key other [] topics apart = refl
cons-apart key other (y ∷ k) topics apart = rw (subscribers-cons key other (y ∷ k) topics, apart)

nobody : (other : Text) → subscribers other [] ≡ []
unfolding subscribers lookup
nobody other = refl

-- Where each topic stands once, a session that leaves hears of no topic any more, and every other
-- session of what it did.
pub listens-unsubscribe_all :
    (other : Text) (x s : ℕ) (topics : Topics)
    → IsMap topics
    → listens s (subscribers other (unsubscribe_all x topics))
      ≡ (not (x == s) && listens s (subscribers other topics))
unfolding unsubscribe_all
listens-unsubscribe_all other x s [] h = rw (nobody other) (ground arith)
listens-unsubscribe_all other x s ((key, l) ∷ topics) h =
    let rest = unsubscribe_all x topics in
    let later = listens-unsubscribe_all other x s topics h.1 in
    elim (Bool-cases (text_beq key other)) [
      | inl same ↦
          let gone = subscribers-of key other topics none same h.0 in
          let silent : listens s (subscribers other rest) ≡ false =
            later ∙ rw gone (ground arith) in
          rw (subscribers-cons key other l topics, same)
            (cons-same key other s (without_session x l) rest same silent
              ∙ listens-without_session s x l)
      | inr apart ↦
          rw (subscribers-cons key other l topics, apart)
            (ap (listens s) (cons-apart key other (without_session x l) rest apart) ∙ later)
    ]
