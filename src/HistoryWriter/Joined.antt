-- ===== src/HistoryWriter/Joined.antt =====
-- What waits in the history writer: never too much, and nothing is lost.
use exchange_server.Base.{
  ℕ, ◌+◌, ◌*◌, ◌<◌, ◌≡◌, Option, some, List, [], ◌∷◌, arith, ◌==◌, ◌&&◌, if◌then◌else◌, All,
}
use exchange_server.Text.{Text, text_eq, digits_end, print_nat-IsDigit, print_nat_injective}
use exchange_server.Dict.{Dict, IsMap}
use exchange_server.HistoryWriter.{
  HistoryRecord, HistoryWriter, get_key, joined, append_sql, underscore, history_hash_num,
}

pub get_key_injective : (t u h k : ℕ) → get_key t h ≡ get_key u k → (t ≡ u) × (h ≡ k)
unfolding get_key
get_key_injective t u h k e =
    let r =
      digits_end underscore _ _ _ _ (λ d. omega (arith, d)) (print_nat-IsDigit t)
        (print_nat-IsDigit u) e in
    (print_nat_injective t u r.0, print_nat_injective h k r.1)

-- A key of a kind and a table, by the number that stands for the two.
record IsCoded (n : ℕ) (key : Text) : Type 0 where
  type : ℕ
  hash : ℕ
  small : hash < 16
  below : type * 16 + hash < n
  is_key : key ≡ get_key type hash

-- A record as a call of `AppendSQL`, and the calls one after another.
abbrev pub append_all : List HistoryRecord → HistoryWriter → HistoryWriter
append_all [] w = w
append_all (r ∷ l) w = append_all l (append_sql r.type r.hash r.sql w)

-- One of the five kinds, and one of the sixteen tables.
abbrev pub IsTable : HistoryRecord → Type 0
IsTable r = (r.type < 5) × (r.hash < history_hash_num)

-- The statements of a kind and a table, in order, and the record that they join into.
pub sqls_of : ℕ → ℕ → List HistoryRecord → List Text
sqls_of type hash [] = []
sqls_of type hash (r ∷ l) =
    let rest = sqls_of type hash l in
    if (r.type == type) && (r.hash == hash) then r.sql ∷ rest else rest

abbrev pub join_into : ℕ → ℕ → List Text → Option HistoryRecord → Option HistoryRecord
join_into type hash [] r = r
join_into type hash (sql ∷ l) r = join_into type hash l (some (joined type hash sql r))

record IsGood (w : HistoryWriter) : Type 0 where
  is_map : IsMap w.pending
  coded : All (λ x. IsCoded 80 x.0) w.pending
