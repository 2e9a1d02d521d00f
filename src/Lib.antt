-- ===== src/Lib.antt =====
-- A market-data and trading system of services that talk through redis. A gatherer calls exchanges
-- through ccxt and writes what they report to streams; a magicbox reads the streams into a cache
-- that strategy plugins use; an executor places orders; dbsync copies streams to a database; an API
-- server changes the configurations that tell the services what to do.
--
-- Which file models which part:
--   Book         OrderBook and its levels (packages/utils/src/types.ts), the messages about books,
--                and the three lodash functions that are used on levels, as a parameter
--   Orders       Order (packages/utils/src/types.ts) and the redis hashes that hold orders
--   Keys         the names of streams: getObservableKey of the gatherer, getObservable and
--                StreamAdapter.buildKey of the magicbox, DbService.parseKey
--   Gatherer     packages/gatherer/src: Diff is getArrayDiff; Feed is the watchOrderBook subscriber
--                of SetupWorker, Balances the two of watchBalance, Candles the one of watchOHLCV and
--                Orders handleOrders, all in worker.ts, where Worker is SetupWorker; Streamer is
--                DataStreamerService with its subjects, and Loop its executeAction
--   MagicBox     packages/magicbox/src/services/datastream-service.ts: Cache is pushToObservable,
--                OrderBooks is handleOrderBookMessage, Orders is handleOrdersMessage, Reader is
--                createObservable with its loop over the two streams of a data point;
--                Handlers the handlers of other data, Adapter is StreamAdapter, Worker the
--                subscriptions of packages/magicbox/src/worker.ts, and
--                Grid and SpreadTrader the plugins grid.ts and spreadtrader.ts of
--                packages/magicbox/src/plugins; SpreadTrader/Executed shows that the executor
--                (packages/utils/src/services/executor-invoker.ts) meets what the second relies on
--   Replication  gatherer and magicbox together: what the cache holds after the messages, and
--                what their workers subscribe to
--   Executor     TradingService and the request handler (packages/executor/src); Service is the
--                set-up of its services for all tenants (packages/executor/src/index.ts)
--   ApiServer    packages/apiserver/src/routes: Datastreams is datastreamrouter.ts, Exchanges is
--                exchanges.ts, Status is statusrouter.ts, Config the configurations they write
--   Supervisor   the start of the magicbox and the gatherer (packages/magicbox/src/index.ts,
--                packages/gatherer/src/index.ts) and ConfigurationService, with the settings as
--                they change; DbSync is the start of dbsync (packages/dbsync/src/index.ts)
--   Exchanges    ExchangeService (packages/utils/src/services/exchange-service.ts)
--   Database     DbSyncService (packages/dbsync/src/services/dbSyncService.ts): Rows is what a
--                message is stored as, Advance what one XREAD leaves, Trimmed what a stream that is
--                trimmed behind its reader brings
--   Web          packages/web/src: OrderBookTable, ActiveOrderTable, HistoryTable and BalanceTable
--                are the tables of that name in components/trade, Engine the sort that two use,
--                GlobalContext is contexts/GlobalContext.js, Address the addresses by which it and
--                components/trade/ActionCard.js write to redis
--   Prelude      names of the standard library, lists, integers, sorted lists, dictionaries, text
--
-- State and operations. A function that changes an object's fields takes the object and returns the
-- new one; what it sends (a stream message, a subject's `next`, a response) is part of its result.
-- An exception or an error response is a value. Text is a list of character codes, a JavaScript
-- dictionary an association list, undefined is `none`. Prices, amounts and times are natural numbers,
-- in the smallest unit of each: the code compares and negates them, adds one to a time, and
-- takes the middle of two prices, which is modelled as their sum.
--
-- Parameters: the sort of JavaScript's arrays, lodash (`pullAllWith`, `sortBy`, the reduction to a
-- dictionary of strings) with its documented behaviour, delayed-promise-retry, the redis hashes,
-- streams and keys of settings that a part uses, the tables of the database, the classes of ccxt
-- and the exchange, webdis, the decryption, and for a plugin the executor.
-- A stream's id is one natural number with the order of redis, but for the order book table of the
-- web front end, which compares ids as texts. No definition needs fuel: a loop that
-- runs until it is stopped is a function of the list of what its rounds bring, and the other loops
-- are recursion on a list.
--
-- Not modelled: the connections of the services to redis and to the database, the expiry of hashes,
-- the trimming of streams but for what dbsync reads of them, the queries of DbService, the other
-- plugins of the magicbox, the remaining routes, encryption, logging, the other pages of the web front
-- end, the vendored copy of ccxt for FTX.
pub mod Prelude
pub mod Book
pub mod Gatherer
pub mod MagicBox
pub mod Replication
pub mod Keys
pub mod Orders
pub mod ApiServer
pub mod Executor
pub mod Supervisor
pub mod Exchanges
pub mod Web
pub mod Database
