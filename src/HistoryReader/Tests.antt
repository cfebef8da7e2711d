-- ===== src/HistoryReader/Tests.antt =====
-- Runs of the history reader.
use exchange_server.Int.{pos}
use exchange_server.Text.{codes}
use exchange_server.HistoryReader.{
  balance_query, orders_query, deals_query, detail_query, user_deals_query,
}
use exchange_server.HistoryReader.Tables.{IsWhole, queries-IsWhole}

queries-IsWhole_example :
    IsWhole (balance_query 7 (codes "BTC") (codes "") 5 0 (pos 0) (pos 50))
    × IsWhole (orders_query 7 (codes "BTCUSDT") (pos 2) 5 0 (pos 0) (pos 50))
    × IsWhole (deals_query 101 (pos 0) (pos 50))
    × IsWhole (detail_query 101)
    × IsWhole (user_deals_query 7 (codes "BTCUSDT") (pos 0) (pos 50))
queries-IsWhole_example =
    queries-IsWhole 7 101 (codes "BTC") (codes "") (codes "BTCUSDT") (pos 2) 5 0 (pos 0) (pos 50)
