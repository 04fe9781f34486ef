-- ===== src/Lib.antt =====
-- Verification of the order book simulator, a multi-asset matching engine with margin accounts.
--
-- Orders enter through a gateway (src/gateway.rs). The matching thread (src/bin/exchange.rs)
-- reserves an order's margin (src/risk.rs), passes it to the book of its symbol (src/book.rs), settles
-- the trades that come back, and journals what it accepts (src/wal.rs). This library models:
--
--   Types    src/types.rs: the enums, `Order` with its constructors and accessors, `Trade`,
--            `MarketDepthLevel`, and `Result` with `RejectReason`.
--   Risk     src/risk.rs, one function per method. Totals, Lock, Refuse, Unlock, Settle and Refund prove
--            what becomes of the money. `get_account` and `set_account` stand for the map's reads and
--            for writes through `get_mut`; `lock_order_funds` returns its result and the engine.
--   Table    the open-addressing tables of src/book.rs. FastOrderIndex, FastPriceIndex and
--            FastClientIndex are one text at three entry types, so the code is written over a `Layout`.
--            `probe` is the loop of insert, lookup and remove, `shift_back` the loop of the deletion.
--            Cyclic, Count, Invariant, Probe, Lookup, Insert, Hole, Shift and Remove prove it against
--            a finite map.
--   Index    the three layouts, with their hashes and their methods.
--   Arena    OrderArena, PriceLevelArena and the queue methods of PriceLevelNode (src/book.rs).
--            Chain is the doubly linked list in the nodes of either arena, with removal, insertion and
--            the bound on its length, Fifo the invariant of a level's queue, Pool the free lists.
--   Book     OrderBook (src/book.rs). Ladder is link_price_level and unlink_price_level, Matching is
--            match_level, Cancel is cancel_order, Process is process, View is get_bbo and get_depth. The
--            two sides of the ladder and of the matching loop are the same code with another head
--            pointer and another comparison, and are written once over a Boolean. Ladder.Sorted is the
--            reference of the ladder over a plain list, Ladder.Rungs, Insert, Walk, Link and Unlink prove
--            the refinement, and View.Depth proves the views. Cancel.Refusal is about whose orders are
--            cancelled.
--            Matching.Serve is the reference of match_level over a plain list, and Matching.Round,
--            Fill, Loop, Fifo and Sums prove the refinement.
--            Anonymous shows that nothing but the connections themselves depends on the connections, Buffer
--            that nothing but the vector itself depends on the trades that it holds before. Full is process
--            on a resting order for which there is no node.
--   Engine   MultiAssetEngine, process, cancel_order and replay_order (src/book.rs).
--   Wal      src/wal.rs. Crc is crc32, Bytes and Record the memory of an `Order` and of a record's header
--            on a little-endian target, Log the writer and read_all, Replay their round trip, Resume the
--            number a log resumes with. The file is the list of its bytes; a full buffer is not written
--            out early, which changes no byte.
--   Exchange one turn of the matching thread (src/bin/exchange.rs): its state is the engine and the risk
--            engine, and it returns what it journals and sends. Types.Message is `ServerMessage`.
--            Egress is the egress dispatcher, over the events of its `select!` in any order; a channel is
--            a parameter, its state and what `try_send` makes of it. Follow proves it against one
--            client's channel alone, Rejection is about the turns of rejected orders.
--            Startup is the WAL thread and the start of the matching thread with its replay, Recovery
--            proves the one against the other, and Replay proves the replay against the turns.
--   Gateway  src/gateway.rs. Words, Wire and Messages are to_le and from_le of src/types.rs and the memory
--            of the two messages on a target of either byte order, Session is handle_client and the
--            accept loop of run_gateway, given the bytes that a client sends until its connection ends.
--   Metrics  src/metrics.rs without its f64 arithmetic: `record_latency` is `record`, and `percentile`
--            takes the rank that the code computes in f64. Error bounds the error of a bucket, Ranks is
--            about the ranks.
--
-- Conventions. A u64, u32 or usize is a natural number; `+` and `-` wrap as in the release profile
-- (`add64`, `sub64`), saturating operations are bounded below by 0 or above by the word. A call
-- returns an `Exec`: `done`, `panic` for an index out of bounds, `stalled` for a loop out of fuel. The
-- fuel of a loop over a table is its capacity, that of a walk along the ladder the number of levels,
-- that of match_level the number of order nodes and 2, that of the matching loop the number of levels
-- and 2, that of read_all the length of the file. The slots of a table and the books of the engine
-- are functions of the index, since every index is reduced or checked before it is used. A method on `&mut self` returns the new value.
--
-- Not modelled: sockets, channels, threads, clocks, printing, the errors of files,
-- telemetry, the market maker and the benchmark.
pub mod Prelude
pub mod Types
pub mod Risk
pub mod Table
pub mod Index
pub mod Arena
pub mod Book
pub mod Engine
pub mod Wal
pub mod Metrics
pub mod Gateway
pub mod Exchange
