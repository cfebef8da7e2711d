-- ===== src/DealConsumer/Resumed.antt =====
-- Where the price service goes on after a start.
use mathlib.Core.List.{append-nil, append_assoc}
use exchange_server.Base.{
  ℕ, ◌≤◌, ◌≡◌, sym, ◌∙◌, Bool, false, none, some, List, [], ◌∷◌, ◌++◌, if◌then◌else◌, ltb, All,
  arith, Bool-cases, inl, inr,
}
use exchange_server.Int.{pos}
use exchange_server.DealConsumer.{
  Read, message, read_error, canceled, at_offset, Consumed, get_last_offset, handle, consume,
  skip_to, start,
}

module _ {V : Type 0} where
  -- The deals from an offset on.
  pub deals_from : ℕ → List (Read V) → List V
  deals_from first [] = []
  deals_from first (message offset none ∷ reads) = deals_from first reads
  deals_from first (message offset (some deal) ∷ reads) =
      let rest = deals_from first reads in if ltb offset first then rest else deal ∷ rest
  deals_from first (read_error ∷ reads) = deals_from first reads
  deals_from first (canceled ∷ reads) = deals_from first reads

  -- A message with an offset that is not smaller.
  abbrev pub IsFrom : ℕ → Read V → Type 0
  IsFrom first (message offset deal) = first ≤ offset
  IsFrom first read_error = ⊥
  IsFrom first canceled = ⊥

  -- Every read is a message, and the offsets never fall.
  abbrev pub InOrder : List (Read V) → Type 0
  InOrder [] = Unit
  InOrder (message offset deal ∷ reads) = All (IsFrom offset) reads × InOrder reads
  InOrder (read_error ∷ reads) = ⊥
  InOrder (canceled ∷ reads) = ⊥

module _ {V : Type 0} (saves : ℕ → Bool) where
  consume_handled :
      (first : ℕ) (reads : List (Read V)) (c : Consumed V)
      → All (IsFrom first) reads
      → (consume saves reads c).handled ≡ c.handled ++ deals_from first reads
  unfolding consume deals_from
  consume_handled first [] c h = sym (append-nil c.handled)
  consume_handled first (message offset none ∷ reads) c h = consume_handled first reads c h.1
  consume_handled first (message offset (some deal) ∷ reads) c h =
      let here : ltb offset first ≡ false = ground (arith, h.0) in
      rw here (
        consume_handled first reads (handle saves offset deal c) h.1
        ∙ append_assoc c.handled (deal ∷ []) (deals_from first reads))
  consume_handled first (read_error ∷ reads) c h = absurd h.0
  consume_handled first (canceled ∷ reads) c h = absurd h.0

  later_reads :
      (first offset : ℕ) (reads : List (Read V))
      → first ≤ offset
      → All (IsFrom offset) reads
      → All (IsFrom first) reads
  later_reads first offset [] le h = tt
  later_reads first offset (message o deal ∷ reads) le h =
      (omega (arith, le, h.0), later_reads first offset reads le h.1)
  later_reads first offset (read_error ∷ reads) le h = absurd h.0
  later_reads first offset (canceled ∷ reads) le h = absurd h.0

  skip_to_handled :
      (first : ℕ) (reads : List (Read V)) (c : Consumed V)
      → InOrder reads
      → (skip_to saves (pos first) reads c).handled ≡ c.handled ++ deals_from first reads
  unfolding skip_to deals_from
  skip_to_handled first [] c h = sym (append-nil c.handled)
  skip_to_handled first (message offset none ∷ reads) c h = skip_to_handled first reads c h.1
  skip_to_handled first (message offset (some deal) ∷ reads) c h =
      elim (Bool-cases (ltb offset first)) [
        | inl before ↦ rw before (skip_to_handled first reads c h.1)
        | inr here ↦
            let le : first ≤ offset = ground arith in
            rw here (
              consume_handled first reads (handle saves offset deal c)
                (later_reads first offset reads le h.0)
              ∙ append_assoc c.handled (deal ∷ []) (deals_from first reads))
      ]
  skip_to_handled first (read_error ∷ reads) c h = absurd h
  skip_to_handled first (canceled ∷ reads) c h = absurd h

  -- A start handles exactly the deals from the stored offset on, each once and in their order, if
  -- Redis has an offset that is not negative, every read gives a message, and the offsets never
  -- fall; messages that do not parse are passed over.
  pub start_resumes :
      (first : ℕ) (reads : List (Read V)) (c : Consumed V)
      → InOrder reads
      → (start saves (at_offset (pos first)) reads c).handled ≡ c.handled ++ deals_from first reads
  unfolding start get_last_offset
  start_resumes first reads c h = skip_to_handled first reads c h
