-- ===== src/HistoryReader/Tables.antt =====
-- Which tables are read, and that the queries are whole.
use Prim.Native.String.{String}
use exchange_server.Base.{
  ltb, not, ℕ, suc, ◌+◌, ◌%◌, ◌≡◌, refl, Bool, true, false, List, [], ◌∷◌, ◌++◌, arith,
  if◌then◌else◌, ◌==◌, length, length-append, All,
}
use exchange_server.Int.{ℤ}
use exchange_server.Text.{Text, text_beq, codes, print_nat, print_nat-IsDigit, IsDigit}
use exchange_server.HistoryReader.{
  Query, Arg, nat, int, text, numbered, start_query, also_if, page_of, is_zero, order_columns,
  balance_history_table, order_history_table, deal_history_table, order_detail_table,
  user_deal_history_table, hash_user_id, balance_query, orders_query, deals_query, detail_query,
  user_deals_query,
}

-- The placeholders of a statement.
pub count_marks : Text → ℕ
count_marks [] = 0
count_marks (c ∷ s) = let rest = count_marks s in if c == b'?' then suc rest else rest

count_marks-append : (s t : Text) → count_marks (s ++ t) ≡ count_marks s + count_marks t
unfolding count_marks
count_marks-append [] t = omega arith
count_marks-append (c ∷ s) t = ground (arith, count_marks-append s t)

count_marks_digits : (s : Text) → All IsDigit s → count_marks s ≡ 0
unfolding count_marks
count_marks_digits [] h = refl
count_marks_digits (c ∷ s) h = ground (arith, count_marks_digits s h.1)

-- A query with as many arguments as placeholders.
abbrev pub IsWhole : Query → Type 0
IsWhole q = count_marks q.sql ≡ length q.args

numbered-marks :
    (table : String) (n : ℕ) → count_marks (codes table) ≡ 0 → count_marks (numbered table n) ≡ 0
numbered-marks table n h = omega (
  arith,
  h,
  count_marks-append (codes table) (print_nat n),
  count_marks_digits (print_nat n) (print_nat-IsDigit n),
)

start_query-IsWhole :
    (before after : Text) (table : Text) (args : List Arg)
    → count_marks before ≡ 0
    → count_marks table ≡ 0
    → count_marks after ≡ length args
    → IsWhole (start_query (before ++ table ++ after) args)
start_query-IsWhole before after table args hb ht ha =
    let e : count_marks (before ++ table ++ after) ≡ length args = omega (
      arith,
      hb,
      ht,
      ha,
      count_marks-append (before ++ table) after,
      count_marks-append before table,
    ) in
    e

also_if-IsWhole :
    (test : Bool) (clause : String) (arg : Arg) (q : Query)
    → count_marks (codes clause) ≡ 1
    → IsWhole q
    → IsWhole (also_if test clause arg q)
also_if-IsWhole false clause arg q h w = w
also_if-IsWhole true clause arg q h w =
    omega (arith, h, w, count_marks-append q.sql (codes clause), length-append q.args (arg ∷ []))

page_of-IsWhole : (limit offset : ℤ) (q : Query) → IsWhole q → IsWhole (page_of limit offset q)
unfolding count_marks
page_of-IsWhole limit offset q w = omega (
  arith,
  w,
  count_marks-append q.sql (codes " ORDER BY id DESC LIMIT ? OFFSET ?"),
  length-append q.args (int limit ∷ int offset ∷ []),
)

balance_query-IsWhole :
    (user : ℕ) (asset business : Text) (start_time end_time : ℕ) (offset limit : ℤ)
    → IsWhole (balance_query user asset business start_time end_time offset limit)
unfolding balance_query balance_history_table hash_user_id count_marks
balance_query-IsWhole user asset business start_time end_time offset limit =
    let table = numbered "balance_history_" (user % 100) in
    let before = codes "SELECT time, asset, business, `change`, balance, detail FROM " in
    let after = codes " WHERE user_id = ?" in
    let q : Query = start_query (before ++ table ++ after) (nat user ∷ []) in
    let q1 : Query = also_if (not (text_beq asset [])) " AND asset = ?" (text asset) q in
    let q2 : Query = also_if (not (text_beq business [])) " AND business = ?" (text business) q1 in
    let q3 : Query = also_if (ltb 0 start_time) " AND time >= ?" (nat start_time) q2 in
    let q4 : Query = also_if (ltb 0 end_time) " AND time < ?" (nat end_time) q3 in
    page_of-IsWhole limit offset q4 (
      also_if-IsWhole (ltb 0 end_time) " AND time < ?" (nat end_time) q3 refl (
        also_if-IsWhole (ltb 0 start_time) " AND time >= ?" (nat start_time) q2 refl (
          also_if-IsWhole (not (text_beq business [])) " AND business = ?" (text business) q1 refl (
            also_if-IsWhole (not (text_beq asset [])) " AND asset = ?" (text asset) q refl (
              start_query-IsWhole before after table (nat user ∷ []) refl
                (numbered-marks "balance_history_" (user % 100) refl) refl)))))

orders_query-IsWhole :
    (user : ℕ) (market : Text) (side : ℤ) (start_time end_time : ℕ) (offset limit : ℤ)
    → IsWhole (orders_query user market side start_time end_time offset limit)
unfolding orders_query order_history_table hash_user_id count_marks
orders_query-IsWhole user market side start_time end_time offset limit =
    let table = numbered "order_history_" (user % 100) in
    let before = codes order_columns in
    let after = codes " WHERE user_id = ? AND market = ?" in
    let args : List Arg = nat user ∷ text market ∷ [] in
    let q : Query = start_query (before ++ table ++ after) args in
    let q1 : Query = also_if (not (is_zero side)) " AND side = ?" (int side) q in
    let q2 : Query = also_if (ltb 0 start_time) " AND create_time >= ?" (nat start_time) q1 in
    let q3 : Query = also_if (ltb 0 end_time) " AND create_time < ?" (nat end_time) q2 in
    page_of-IsWhole limit offset q3 (
      also_if-IsWhole (ltb 0 end_time) " AND create_time < ?" (nat end_time) q2 refl (
        also_if-IsWhole (ltb 0 start_time) " AND create_time >= ?" (nat start_time) q1 refl (
          also_if-IsWhole (not (is_zero side)) " AND side = ?" (int side) q refl (
            start_query-IsWhole before after table args refl
              (numbered-marks "order_history_" (user % 100) refl) refl))))

deals_query-IsWhole :
    (order_id : ℕ) (offset limit : ℤ) → IsWhole (deals_query order_id offset limit)
unfolding deals_query deal_history_table count_marks
deals_query-IsWhole order_id offset limit =
    start_query-IsWhole
      (codes "SELECT time, user_id, deal_id, role, price, amount, deal, fee, deal_order_id FROM ")
      (codes " WHERE order_id = ? ORDER BY id DESC LIMIT ? OFFSET ?")
      (numbered "deal_history_" (order_id % 100)) (nat order_id ∷ int limit ∷ int offset ∷ []) refl
      (numbered-marks "deal_history_" (order_id % 100) refl) refl

detail_query-IsWhole : (order_id : ℕ) → IsWhole (detail_query order_id)
unfolding detail_query order_detail_table count_marks
detail_query-IsWhole order_id =
    start_query-IsWhole (codes order_columns) (codes " WHERE id = ?")
      (numbered "order_detail_" (order_id % 100)) (nat order_id ∷ []) refl
      (numbered-marks "order_detail_" (order_id % 100) refl) refl

user_deals_query-IsWhole :
    (user : ℕ) (market : Text) (offset limit : ℤ)
    → IsWhole (user_deals_query user market offset limit)
unfolding user_deals_query user_deal_history_table hash_user_id count_marks
user_deals_query-IsWhole user market offset limit =
    start_query-IsWhole
      (codes
        "SELECT time, user_id, deal_id, side, role, price, amount, deal, fee, deal_order_id, market FROM ")
      (codes " WHERE user_id = ? AND market = ? ORDER BY id DESC LIMIT ? OFFSET ?")
      (numbered "user_deal_history_" (user % 100))
      (nat user ∷ text market ∷ int limit ∷ int offset ∷ []) refl
      (numbered-marks "user_deal_history_" (user % 100) refl) refl

-- Each of the five queries of the history reader has exactly as many arguments as placeholders,
-- whatever its filters.
pub queries-IsWhole :
    (user order_id : ℕ) (asset business market : Text) (side : ℤ) (start_time end_time : ℕ)
    (offset limit : ℤ)
    → IsWhole (balance_query user asset business start_time end_time offset limit)
      × IsWhole (orders_query user market side start_time end_time offset limit)
      × IsWhole (deals_query order_id offset limit)
      × IsWhole (detail_query order_id)
      × IsWhole (user_deals_query user market offset limit)
queries-IsWhole user order_id asset business market side start_time end_time offset limit = (
  balance_query-IsWhole user asset business start_time end_time offset limit,
  orders_query-IsWhole user market side start_time end_time offset limit,
  deals_query-IsWhole order_id offset limit,
  detail_query-IsWhole order_id,
  user_deals_query-IsWhole user market offset limit,
)
