-- ===== src/AnswerCache.antt =====
-- internal/accessws/cache/cache.go: answers by key, which age. Times are numbers; the life `ttl` of
-- an answer is the cache's. Each method holds the lock throughout.
pub mod Aging
pub mod Tests
use exchange_server.Base.{ℕ, ◌+◌, Bool, Option, none, some, List, if◌then◌else◌, ltb, not, filter}
use exchange_server.Text.{Text, text_eq}
use exchange_server.Dict.{Dict, lookup, insert}

pub record CacheValue : Type 0 where
  pub content : List ℕ
  pub timestamp : ℕ

abbrev pub Cache : Type 0
Cache = Dict Text CacheValue

module _ (ttl : ℕ) where
  -- `now.Sub(v.Timestamp) > c.ttl`
  abbrev pub expired : ℕ → CacheValue → Bool
  expired now v = ltb (v.timestamp + ttl) now

  unfoldable pub get : Text → ℕ → Cache → Option (List ℕ)
  get key now c = elim (lookup key c) [
    | none ↦ none
    | some v ↦ if expired now v then none else some v.content
  ]

  unfoldable pub cleanup : ℕ → Cache → Cache
  cleanup now c = filter (λ (key, v). not (expired now v)) c

-- `Set`
unfoldable pub set_value : Text → List ℕ → ℕ → Cache → Cache
set_value key content now c = insert key (record { content = content; timestamp = now }) c
