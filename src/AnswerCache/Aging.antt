-- ===== src/AnswerCache/Aging.antt =====
-- The age of the answers in internal/accessws/cache/cache.go: `Get` beside `cleanup`.
use exchange_server.Base.{
  ℕ, ◌+◌, ◌≤◌, ◌≡◌, refl, sym, ap, subst, ◌∙◌, true, false, none, some, List, [], ◌∷◌,
  if◌then◌else◌, ltb, arith, Bool-cases, inl, inr,
}
use exchange_server.Text.{Text, text_eq, text_beq, text_beq_iff}
use exchange_server.Dict.{lookup, lookup-insert, IsMap, insert-IsMap}
use exchange_server.AnswerCache.{CacheValue, Cache, expired, get, cleanup, set_value}

pub data Event : Type 0 where
  sets : Text → List ℕ → ℕ → Event
  cleans : ℕ → Event

-- Every cleaning is at a time up to the given one.
abbrev pub Before : ℕ → List Event → Type 0
Before later [] = Unit
Before later (sets key content now ∷ events) = Before later events
Before later (cleans now ∷ events) = (now ≤ later) × Before later events

module _ (ttl : ℕ) where
  pub run : List Event → Cache → Cache
  run [] c = c
  run (sets key content now ∷ events) c = run events (set_value key content now c)
  run (cleans now ∷ events) c = run events (cleanup ttl now c)

  -- What the sets alone leave, as if nothing were ever dropped.
  pub run_sets : List Event → Cache → Cache
  run_sets [] c = c
  run_sets (sets key content now ∷ events) c = run_sets events (set_value key content now c)
  run_sets (cleans now ∷ events) c = run_sets events c

  cleanup_absent :
      (key : Text) (now : ℕ) (c : Cache)
      → lookup key c ≡ none
      → lookup key (cleanup ttl now c) ≡ none
  unfolding cleanup lookup
  cleanup_absent key now [] h = refl
  cleanup_absent key now ((k, v) ∷ c) h = ground (arith, cleanup_absent key now c)

  cleanup_empty : (now : ℕ) → cleanup ttl now [] ≡ []
  unfolding cleanup
  cleanup_empty now = refl

  cleanup-old :
      (k : Text) (v : CacheValue) (now : ℕ) (c : Cache)
      → expired ttl now v ≡ true
      → cleanup ttl now ((k, v) ∷ c) ≡ cleanup ttl now c
  unfolding cleanup
  cleanup-old k v now c old = ground arith

  cleanup-fresh :
      (k : Text) (v : CacheValue) (now : ℕ) (c : Cache)
      → expired ttl now v ≡ false
      → cleanup ttl now ((k, v) ∷ c) ≡ (k, v) ∷ cleanup ttl now c
  unfolding cleanup
  cleanup-fresh k v now c fresh = ground arith

  cleanup-IsMap : (now : ℕ) (c : Cache) → IsMap c → IsMap (cleanup ttl now c)
  cleanup-IsMap now [] h = subst IsMap (sym (cleanup_empty now)) tt
  cleanup-IsMap now ((k, v) ∷ c) h = elim (Bool-cases (expired ttl now v)) [
    | inl old ↦ subst IsMap (sym (cleanup-old k v now c old)) (cleanup-IsMap now c h.1)
    | inr fresh ↦
        subst IsMap (sym (cleanup-fresh k v now c fresh))
          (cleanup_absent k now c h.0, cleanup-IsMap now c h.1)
  ]

  get-cons :
      (k key : Text) (v : CacheValue) (later : ℕ) (c : Cache)
      → get ttl key later ((k, v) ∷ c) ≡ (
          if text_beq k key
          then (if expired ttl later v then none else some v.content)
          else get ttl key later c)
  unfolding get lookup
  get-cons k key v later c = ground arith

  get-absent :
      (k key : Text) (later : ℕ) (c : Cache)
      → text_beq k key ≡ true
      → lookup k c ≡ none
      → get ttl key later c ≡ none
  unfolding get
  get-absent k key later c same absent =
      let gone : lookup key c ≡ none =
        subst (λ j. lookup j c ≡ none) ((text_beq_iff k key).0 same) absent in
      rw (gone, get)

  get-cleanup :
      (key : Text) (now later : ℕ) (c : Cache)
      → IsMap c
      → now ≤ later
      → get ttl key later (cleanup ttl now c) ≡ get ttl key later c
  unfolding cleanup
  get-cleanup key now later [] h past = refl
  get-cleanup key now later ((k, v) ∷ c) h past =
      let ih = get-cleanup key now later c h.1 past in
      elim (Bool-cases (expired ttl now v)) [
        | inl old ↦
            let still : expired ttl later v ≡ true = ground arith in
            ap (get ttl key later) (cleanup-old k v now c old)
            ∙ ih
            ∙ sym (
                get-cons k key v later c
                ∙ rw still (elim (Bool-cases (text_beq k key)) [
                  | inl same ↦ rw (same, get-absent k key later c same h.0)
                  | inr apart ↦ rw apart
                ]))
        | inr fresh ↦
            ap (get ttl key later) (cleanup-fresh k v now c fresh)
            ∙ get-cons k key v later (cleanup ttl now c)
            ∙ ap
                (λ o.
                  if text_beq k key
                  then (if expired ttl later v then none else some v.content)
                  else o)
                ih
            ∙ sym (get-cons k key v later c)
      ]

  get-set_value :
      (key other : Text) (content : List ℕ) (now later : ℕ) (c : Cache)
      → get ttl other later (set_value key content now c) ≡ (
          if text_beq key other
          then (if ltb (now + ttl) later then none else some content)
          else get ttl other later c)
  unfolding get set_value
  get-set_value key other content now later c =
      let v : CacheValue = record { content = content; timestamp = now } in
      ground (arith, lookup-insert key other v c)

  set_value-IsMap :
      (key : Text) (content : List ℕ) (now : ℕ) (c : Cache)
      → IsMap c
      → IsMap (set_value key content now c)
  unfolding set_value
  set_value-IsMap key content now c h =
      insert-IsMap key (record { content = content; timestamp = now }) c h

  get-run_sets :
      (events : List Event) (c s : Cache) (later : ℕ)
      → IsMap c
      → Before later events
      → ((key : Text) → get ttl key later c ≡ get ttl key later s)
      → (key : Text) → get ttl key later (run events c) ≡ get ttl key later (run_sets events s)
  unfolding run run_sets
  get-run_sets [] c s later h b same key = same key
  get-run_sets (sets k content now ∷ events) c s later h b same key =
      get-run_sets events (set_value k content now c) (set_value k content now s) later
        (set_value-IsMap k content now c h) b
        (λ other.
          get-set_value k other content now later c
          ∙ ap
              (λ o.
                if text_beq k other
                then (if ltb (now + ttl) later then none else some content)
                else o)
              (same other)
          ∙ sym (get-set_value k other content now later s))
        key
  get-run_sets (cleans now ∷ events) c s later h b same key =
      get-run_sets events (cleanup ttl now c) s later (cleanup-IsMap now c h) b.1
        (λ other. get-cleanup other now later c h b.0 ∙ same other) key

  -- Whatever was set, and cleaned up to a time, the cache that began empty answers at that time as
  -- if no answer had ever been dropped: with the last one set under the key, if it is not too old.
  pub get-run :
      (events : List Event) (later : ℕ) (key : Text)
      → Before later events
      → get ttl key later (run events []) ≡ get ttl key later (run_sets events [])
  get-run events later key b = get-run_sets events [] [] later tt b (λ other. refl) key
