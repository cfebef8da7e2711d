-- ===== src/DealConsumer.antt =====
-- internal/marketprice/consumer/consumer.go: which deals of the topic reach the price service. The
-- reads from Kafka are a sequence; Redis keeps the offset to go on from.
pub mod Resumed
mod Tests
use exchange_server.Base.{
  ℕ, ◌+◌, Bool, true, false, Option, none, some, List, [], ◌∷◌, ◌++◌, if◌then◌else◌, ltb,
}
use exchange_server.Int.{ℤ, pos, negsuc}

-- A read: a message with its offset and the deal in it, `none` if it does not parse; an error; or
-- the end of the context.
pub data Read (V : Type 0) : Type 0 where
  message : ℕ → Option V → Read V
  read_error canceled : Read V

-- What `GetLastOffset` gets from Redis.
pub data Stored : Type 0 where
  no_offset redis_error : Stored
  at_offset : ℤ → Stored

-- `GetLastOffset`, whose error `Start` only logs.
unfoldable pub get_last_offset : Stored → ℤ
get_last_offset no_offset = negsuc 0
get_last_offset redis_error = pos 0
get_last_offset (at_offset n) = n

-- What the handler got, and the offset that was saved last.
pub record Consumed (V : Type 0) : Type 0 where
  pub handled : List V
  pub saved : Option ℕ

module _ {V : Type 0} (saves : ℕ → Bool) where
  -- The handler and `SaveOffset`, which may fail.
  abbrev pub handle : ℕ → V → Consumed V → Consumed V
  handle offset deal c = record {
    handled = c.handled ++ deal ∷ [];
    saved = if saves (offset + 1) then some (offset + 1) else c.saved;
  }

  -- The second loop of `Start`.
  unfoldable pub consume : List (Read V) → Consumed V → Consumed V
  consume [] c = c
  consume (message offset none ∷ reads) c = consume reads c
  consume (message offset (some deal) ∷ reads) c = consume reads (handle offset deal c)
  consume (read_error ∷ reads) c = consume reads c
  consume (canceled ∷ reads) c = c

  -- The first loop, up to the first deal that it handles or the first error.
  unfoldable pub skip_to : ℤ → List (Read V) → Consumed V → Consumed V
  unfolding consume
  skip_to last_offset [] c = c
  skip_to last_offset (read_error ∷ reads) c = consume reads c
  skip_to last_offset (canceled ∷ reads) c = consume reads c
  skip_to (negsuc n) (message offset none ∷ reads) c = skip_to (negsuc n) reads c
  skip_to (negsuc n) (message offset (some deal) ∷ reads) c = consume reads (handle offset deal c)
  skip_to (pos n) (message offset none ∷ reads) c = skip_to (pos n) reads c
  skip_to (pos n) (message offset (some deal) ∷ reads) c =
      let passed = skip_to (pos n) reads c in
      let found = consume reads (handle offset deal c) in if ltb offset n then passed else found

  unfoldable pub start : Stored → List (Read V) → Consumed V → Consumed V
  unfolding get_last_offset skip_to consume
  start stored reads c = elim (get_last_offset stored) [
    | negsuc n ↦ consume reads c
    | pos n ↦ skip_to (pos n) reads c
  ]
