-- ===== src/Lib.antt =====
-- Verification of the core logic of quantstack-terminal: the feeds of market data and what they rest
-- on. The paths below are from the repository's root.
--
-- The terminal's backend answers its front end from several brokers. Each broker is a feed behind one
-- contract (backend/feeds/types.ts). A request goes to `route` (router.ts), which walks the feeds that
-- are registered (registry.ts) in their order and asks of each whether it can carry the request, whether
-- its breaker lets it through (breaker.ts) and whether its session is there (authManager.ts), and moves
-- on or stops by the kind of the failure (errors.ts). A prober (health.ts) tries the feeds whose breaker
-- is open. Live ticks come from one feed at a time, which liveRouter.ts chooses and replaces. An
-- instrument is named by a key (identity.ts), and each broker's own name of it is found through a
-- canonical symbol (backend/instruments/symbol.ts), to which the rows of the brokers' own reports are
-- led back (backend/trading/contract.ts). The names are found in the brokers' instrument masters
-- (backend/instruments/store.ts, read from files by csv.ts beside it). Angel's ticks and its order
-- updates come over two sockets that reconnect (backend/feeds/adapters/angel/stream.ts and
-- backend/trading/orderStream/angel.ts); the front end reads the terminal's own over a third
-- (src/lib/socket.ts), from backend/live/wsQuotes.ts. Answers are kept in an LRU cache
-- (backend/lib/lruCache.ts, which computeCache.ts beside it uses), Zerodha's sessions on disk
-- (sessionCache.ts beside it), and ticks in a ring buffer (backend/engine/ringBuffer.ts); the
-- assistant keeps the samples of its metrics in rings that are ordered by time (backend/assistant/monitor/series.ts).
--
-- Which file models which part. A child module holds the proofs that its name says, and each component
-- has its tests in a child `Tests`. State is passed explicitly; the clock, the environment and what a
-- broker answers are arguments.
--   Common: lists, maps in insertion order (JavaScript's `Map`), texts as lists of code units, sorting.
--   Feeds/Breaker: `entries` of breaker.ts as a map of records; `can_attempt`, `record_success`,
--     `record_failure`, `state_of`, `status`, `reset`, `reset_all`.
--   Feeds/Errors: the codes of errors.ts, `classify` on thrown values, the status tables.
--   Feeds/Identity: `key_of`, `parse_key`, `normalize_expiry`, `compact_expiry` and the constructors of
--     keys of identity.ts.
--   Feeds/Types: `supports` and `best_interval` of types.ts.
--   Feeds/Router: `route` of router.ts, with the other requests' effects on the breaker while a call is
--     awaited as an argument; the provenance and the needs of the methods.
--   Feeds/Health: `probe_once` of health.ts.
--   Feeds/AuthManager: authManager.ts. The objects of the sessions are a heap, since the callbacks of a
--     login keep the object that they began with; a login is the steps asked, succeeded or failed, and
--     finished. `with_auth` gives the calls that it makes and its result.
--   Feeds/Registry: `parse_spec`, `build` (the body of `feeds`), `feed_by_id` of registry.ts.
--   Feeds/LiveRouter: liveRouter.ts. `begin`, `settle` and `land` are the parts of a reconciliation
--     around its `await` and its `finally`; Feeds/LiveRouter/Steps has the public methods, `dispatch`,
--     the timers of replaced sockets, and the step function on events.
--   Feeds/Angel/Packet: `parsePacket` of backend/feeds/adapters/angel/stream.ts on the bytes of a buffer;
--     Feeds/Angel/Stream: the class of that file, one function for each method and each handler of a
--     socket or a timer; `reconnect` and `logged_in` are the parts of one method around its `await`.
--   Feeds/Zerodha: the session of the feed in backend/feeds/adapters/zerodha/index.ts; a call gives the feed
--     after it, what it asked of others and what it threw. Cache/SessionCache: backend/lib/sessionCache.ts,
--     in which the session is kept over restarts.
--   Instruments/Symbol: symbol.ts. Instruments/Store: the class of store.ts with the disk's files as a
--     map. Instruments/Csv: csv.ts.
--   Trading/Contract: `resolveContract` of backend/trading/contract.ts. Trading/Types: the tables of
--     backend/trading/types.ts. Trading/OrderStream: backend/trading/orderStream/angel.ts, its frames and
--     its class, in the way of Feeds/Angel/Stream.
--   Cache/LruCache and Cache/RingBuffer: the two classes of these names; Cache/ComputeCache:
--     backend/lib/computeCache.ts, which keeps its results in the former.
--   Live/Quotes: one connection of backend/live/wsQuotes.ts; a handler gives the connection after it, the
--     frames that it sends and its calls of the live router.
--   Assistant/Series: the two classes of backend/assistant/monitor/series.ts.
--   Client/Socket: the class of src/lib/socket.ts, with the ready states of all its sockets.
--
-- Fuel and bounds. Most functions are structural on lists; the search in a series has fuel one more
-- than its samples, and the loop over a packet's ten levels eleven rounds, both shown to be enough;
-- printing a number has fuel one more than the number, which Common/Strings shows to be enough. Numbers
-- are those that the code keeps as whole ones: times in milliseconds, counts, strikes, shares, and
-- the 64-bit numbers of a packet with their sign. But for these no number is near
-- the bound of exact integers.
--
-- Parameters: `Date.parse` and the printing of dates, what `Number` makes of a text that is not only
-- digits, the adapters, the instrument store's answers where other parts ask for them, the rounding of
-- 64-bit numbers to doubles, the arithmetic and the comparison of floating-point values in the ring
-- buffer, the packets and the series, with the laws of an order where a theorem needs them, and
-- `toNumber` for whole shares. Letters change case as
-- in ASCII. A socket raises no `open` once it is closed.
--
-- Not modelled: the brokers' adapters but for Angel's ticks and Zerodha's session, the downloads of
-- instruments, the brokers' order books, the assistant but for its series, the analytics, the engine
-- but for the ring buffer, the routes, the WebSocket servers but for the quotes', the Go service and
-- the front end but for its socket; log lines, metrics and timers that only start a modelled function.
pub mod Common
pub mod Feeds
pub mod Instruments
pub mod Trading
pub mod Cache
pub mod Live
pub mod Assistant
pub mod Client
