-- ===== src/Lib.antt =====
-- Verification of studycpp, a collection of C++ components: an order matching engine, an integer
-- encoder, containers, smart pointers and a market data system.
--
-- The parts, with the files of the repository that they model:
--
-- - Prelude: the names that all modules share, lists and signed integers over the native numbers,
--   Boolean tests, and `|` of disjoint bits as a sum (Prelude/Bits).
-- - Std: what the sources use of the C++ standard library. A text is the list of its codes, an
--   unordered map a list of entries, a set the list of its elements in the order of its comparator.
-- - Engine, for order-matching-engine.cpp. Engine/Order has Order, the two comparators and the
--   arguments of the notifier; Engine/Book has OrderBook with addOrder (`add_order`), removeOrder
--   (`remove_order`), matchOrder (`match_order`), matchBuyOrder and matchSellOrder (`match_loop` of a
--   side) and the quotes; Engine/Venue has MatchingEngine with placeOrder, cancelOrder and
--   getMarketData. Prices are any type with the interface Engine/Float, whose laws hold of the
--   doubles other than NaN. The sizes and the counter of the ids are of type `int`: a size that grows
--   past the greatest `int`, and a counter that is there already, have no result. Taking off a size
--   that is positive never leaves the range. The map orders_ and the two sets share their orders;
--   of an order in the map the code reads only what never changes, so the map holds that part. The
--   matching loop runs on fuel, one round for each resting order of the other side and one more: a
--   round fills one of its two orders, so this is enough.
-- - Encoder, for encoder.cpp: encodeInteger and decodeInteger for an unsigned type of `w` bits.
--   Encoder/Words has the `int` arithmetic of the decoder's shift: a shift by 32 or more has no
--   result, and a negative `int` is extended by ones. The loop that counts the bytes runs on fuel, the
--   value itself, which is more than its rounds.
-- - Market, for market-data-system3.h. Market/Alerts is AlertManager: raiseAlert (`raise_alert`) and
--   checkMetrics (`check_metrics`), each reading of the clock an argument; times are nanoseconds. The
--   log is the list of the alerts that were printed. Market/Metrics is MetricsCollector:
--   the recordMessage, recordSequenceGap and other calls (`record_message`, `record_sequence_gap`,
--   ...), getCurrentWindow (`get_current_window`), and getMetricsSummary (`get_metrics_summary` of
--   Market/Metrics/Summary). A call whose accesses are out of bounds has no result.
-- - Ring, for ringbuffer.h. Ring/Fifo has SPSC_FifoQ: Push (`push`, and `push_seen` with the position
--   of the consumer that was loaded) and Pop (`pop`, `pop_seen`); the capacity is the length of the
--   ring, and a slot without an object is `none`. Ring/Fifo/Run interleaves the loads and the stores
--   of the two threads; a push is one event after its load, and so is a pop. Each event sees the
--   stores before it, as the acquire and release orders of the code grant for what was loaded.
--   Ring/Fifo/Destroy has the destructor, on fuel that is one more than the elements in the ring.
-- - Market/Tcp is TCPReceiver: receiveData (`receive_data`), runReceiveLoop (`run_receive_loop`),
--   reconnect and the others. What the calls of the system return is an argument, and the handler of
--   the messages a parameter that may throw. The loops over the socket have one round for each
--   element of a list; the loop over the lines runs on fuel, one more than the characters that there
--   are, since a line takes one at least. The memory that a buffer takes and the counters are
--   without bounds.
-- - Market/Udp is UDPReceiverBase and UDPReceiver, and Market/Udp/Multicast MulticastReceiver: the
--   starts, the loops and processPacket, with the system's calls as arguments in the same way. The
--   handler may throw a std::exception here, which is caught.
-- - Market/Parser is MessageParser and Market/Processor is MarketDataProcessor: onMessage
--   (`on_message`), processNextMessage and what the monitoring thread does in a round (`monitor`). A
--   sequence number that the parser does not set is `none`, and to read it is undefined.
-- - Lru, for lru.h: LRUCache with put and get. An iterator in the table is the address of a node.
--   Lru/Entries has the list of entries that the cache stands for.
-- - Pointers, for mypointer.h. For shared_ptr, Pointers/Shared has a memory of control blocks and
--   objects, the reference count of `2 ^ 64` values, and each constructor, assignment and destructor on
--   the variables of a program; a call that is undefined or fails an assert has no result.
--   Pointers/Shared/Run has the programs. One thread is modelled. Pointers/Unique is unique_ptr for a
--   type that is not an array, with objects that are there or not.
-- - Vector, for myvector.h, over the loops on raw memory of Std/Memory. The value of
--   `growth_factor * n` is a parameter `grown`, which must give more than n if n is at least the initial
--   capacity of four. Memory may be given back only as the number of elements that it was allocated
--   as; a `reserve` that gives it back as another number has no result.
-- - Pool, for threadpool.h: the points of worker_loop between which other threads may run (`Worker`),
--   and the steps of the workers (`advance`), of enqueue and of the destructor. Any list of them is a
--   run; a step that cannot be made yet changes nothing.
--
-- Not modelled: the variant, the other shared_ptr (improved-shared-ptr.h), the allocator, the spin
-- lock, the other queues, and logStatistics, which prints. The two earlier versions,
-- market-data-system.h and market-data-system2.h, have the classes of the third.
pub mod Prelude
pub mod Std
pub mod Engine
pub mod Encoder
pub mod Market
pub mod Ring
pub mod Lru
pub mod Pointers
pub mod Pool
pub mod Vector
