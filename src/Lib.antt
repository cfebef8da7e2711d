-- ===== src/Lib.antt =====
-- A model of an exchange server in Go. Orders come to the matching engine (internal/matchengine),
-- which keeps the order books, the balances and the stop orders in memory, writes a log of its
-- operations and announces trades; the price service (internal/marketprice) builds candles from
-- the announced deals; the websocket service (internal/accessws) passes changes on to the sessions
-- that subscribed to them.
--
-- What models what:
--   Balance        internal/matchengine/balance/balance.go: the map of balances, one function per
--                  method; an error comes back beside the map.
--   PriceQueue     internal/matchengine/order/pricequeue.go under Go's container/heap: `push` and
--                  `pop` with the loops `up` and `down`.
--   Order          internal/matchengine/order/order.go and side.go.
--   OrderBook      internal/matchengine/order/orderbook.go.
--   OperLog        internal/matchengine/persist/operlog.go: the queue of operation logs.
--   Engine.State   internal/matchengine/engine/engine.go: the state, and what a call can come to.
--   Engine.Stops   internal/matchengine/engine/stop_order.go.
--   Engine.Matching, Engine.Commands
--                  internal/matchengine/engine/matching.go: the matching loop, the settlement, and
--                  ProcessOrder, PutOrderNoLock, CancelOrder and the stop order calls.
--   Engine.Queries engine.go: the queries, and the loading of saved orders and balances.
--   Engine.Replay  operlog.go and engine.go: the replay of the operation logs.
--   Slice          internal/matchengine/persist/slice.go and persister.go: the files of a slice and
--                  what a start loads.
--   Kline          internal/marketprice/kline: the candles by interval.
--   MarketInfo     internal/marketprice/market/market.go: a market's deals and candles.
--   Rpc            internal/matchengine/server/codec.go, internal/accessws/rpc/codec.go and
--                  internal/readhistory/server/codec.go (Rpc.History): the framing of packets.
--   Handler        internal/matchengine/server/handler/order.go, market.go and balance.go: the
--                  handlers of the requests, with the parameters of a request in Handler.Params
--                  and one module for each group (Orders, Puts, Depth, Changes, Accounts, Summaries,
--                  Markets, Today, Deals).
--   BalanceUpdate  internal/matchengine/balance/update.go: which updates are handled already.
--   HistoryWriter  internal/matchengine/history/writer.go: the statements that wait for a flush.
--   HistoryReader  internal/readhistory/model, reader and server: the tables, the queries, and the
--                  commands (HistoryReader.Commands) and HTTP calls (HistoryReader.Http) on them.
--   DealConsumer   internal/marketprice/consumer/consumer.go: where the consumer of deals goes on.
--   RedisCache     internal/marketprice/cache/redis.go: the candles and prices in Redis.
--   MarketServer   internal/marketprice/server/server.go: what it computes from a market.
--   Subscription   internal/accessws/subscription/manager.go: who listens to what.
--   WsServer       internal/accessws/server/server.go: the sessions, and what the timers send of
--                  depths (WsServer.Depth) and deals (WsServer.Deals).
--   DealsBuffer    internal/accessws/model/types.go: the latest deals of a market.
--   AnswerCache    internal/accessws/cache/cache.go: answers that age.
-- Base, Dict, Text, Int and Decimal hold what these share: maps as association lists, strings as
-- lists of bytes, and github.com/shopspring/decimal as a record of operations with the laws of
-- exact numbers, which whole numbers meet (Decimal.Integer).
--
-- How the code is read. A pointer to an order is an address in a memory that the engine holds, so
-- a queue, a map and an index share one order. The engine's mutex is a Boolean of the state: a
-- call that locks while it is held comes to `deadlock`, as Go's mutexes are not reentrant. A run
-- may also panic, or end for want of fuel. The matching loop and the stop orders that a trade sets
-- off call one another without a bound, so both run on fuel: each round takes one unit. Where no
-- stop order waits in the market, more fuel than the queue is long is enough. The loops of
-- container/heap have as many rounds as the slice is long, which is enough since an index falls
-- or grows with each. Every reading of the clock in one call gives the same time. Events to the
-- producer, which run in goroutines of their own, are a list in the order of the calls. A map is
-- read in the order of its list, where Go gives any order.
--
-- The body of a request is the list of its JSON values, or nothing if it does not parse; float64
-- is a type with conversions (Floats in Handler.Params). A time of the matching engine is its
-- nanoseconds since Go's zero time, and `Unix` cuts it to whole seconds; the market data, the caches
-- and the balance updates count whole seconds, as their code does. Page bounds of the handlers are
-- 64-bit integers that wrap around. Redis and the databases are parameters, which answer or fail.
--
-- Not modelled: the databases, Kafka, Redis, sockets, HTTP routing, mail, logging and the start of
-- the programs, which are input and output; the code that is generated from the protocol file; the
-- proxies of the HTTP and websocket services and their caches of tokens; the tables of slices and
-- the clearing of old ones.
pub mod Base
pub mod Dict
pub mod Text
pub mod Decimal
pub mod Int
pub mod Balance
pub mod BalanceUpdate
pub mod PriceQueue
pub mod Order
pub mod OrderBook
pub mod OperLog
pub mod HistoryWriter
pub mod HistoryReader
pub mod Engine
pub mod Handler
pub mod Kline
pub mod MarketInfo
pub mod RedisCache
pub mod DealConsumer
pub mod MarketServer
pub mod Rpc
pub mod DealsBuffer
pub mod Slice
pub mod WsServer
pub mod Subscription
pub mod AnswerCache
