-- ===== src/Lib.antt =====
-- A verification library for MultiFeed, the C++ market-data pipeline of this repository: recorded
-- venue data is decoded into one event type, sequenced per venue, merged into one deterministic
-- stream, and kept as order books and a best bid and offer. The paths below start at the
-- repository's root.
--
-- How the parts interact. `Pipeline::on_event` records an event in the recovery store and hands
-- its sequence to the gap-aware sequencer, which asks its tracker of the venue and calls the
-- recovery handler on a gap. An event in order is pushed to the merger, followed by the events
-- that it releases from the pending map; one that is early waits in that map; one too far ahead
-- makes the tracker jump. Events that the simulator finds in the store are processed again.
-- `Pipeline::finalize` drains the merger into a sink, from which the order book engine keeps the
-- levels of each venue and symbol, and the consolidator the best bid and offer over the venues.
--
-- Which file models what, with its theorems in the files below it:
--   Core/Types, Core/VenueArray    include/mf/core/types.hpp: events, and arrays indexed by venue
--   Core/SpscRing                  include/mf/core/spsc_ring.hpp: the ring and its two threads
--   Core/Crc                       src/core/crc32.cpp, include/mf/core/book_event_crc.hpp
--   Phase2/Tracker                 src/phase2/sequence_tracker.cpp: `on_sequence`, `force_advance`
--   Phase2/Sequencer               src/phase2/recovery.cpp and the trackers of all venues
--   Phase2/Recovery                src/phase2/recovery_simulator.cpp: store, `lookup`, requests
--   Phase2/Merger                  src/phase2/deterministic_merger.cpp: `push`, `pop_next`
--   Phase2/Pipeline                src/phase2/pipeline.cpp: `on_event`, `process_event`, `finalize`
--   Phase2/Arbiter                 src/phase2/ab_arbiter.cpp: `on_event` of two feeds
--   Phase3/Types, Phase3/Nbbo      include/mf/phase3/types.hpp, src/phase3/nbbo_consolidator.cpp
--   Phase3/Levels, Phase3/OrderTable, Phase3/Engine
--                                  src/phase3/order_book_engine.cpp: levels, orders, `on_event`
--   Phase3/Reconciler              src/phase3/book_snapshot.cpp: the books rebuilt and compared
--   Proto/Bytes                    include/mf/proto/read_be.hpp: memory reads and byte order
--   Proto/Itch, Proto/Pitch, Proto/Deep
--                                  src/proto: the three venues' `parse_message`, the hot path of ITCH
--   Proto/Mdp3                     src/parsers/mdp3: `parse_packet`
--   Wire/Framing, Wire/MoldUdp     src/wire/framing.cpp, include/mf/wire/itch_moldudp.hpp
--   Live/Lowering, Live/Resync     src/live/bitfinex: rows made events, gaps and snapshots
--   Journal                        src/journal/journal_writer.cpp, journal_reader.cpp: the event journal
--   Feed                           the events of src/proto/nasdaq in the order book engine
--   Phase4/Matching                src/phase4/sim_matching_engine.cpp; `std::sort` and the floating-point
--                                  share of a print are parameters, `cancel` is `cancel_order`
--   Wire/Session                   src/wire/feed_session.cpp: datagrams framed, parsed, handed on
-- Common holds tests, lists, maps, machine words and `std::lower_bound`. Core/RingTests,
-- Phase2/Tests, Phase2/ArbiterTests, Phase3/Tests, Phase3/BookTests, Phase3/TableTests,
-- Phase4/Tests, Journal/Tests, Live/Tests, Proto/Tests, Wire/Tests and Feed/Tests run the
-- definitions at concrete inputs.
--
-- How state and operations correspond. A class is a record of its fields, a method a function
-- from the record and the arguments to the new record and the result, composed as the code
-- composes them. A `std::map` or `std::unordered_map` is a list of entries with its `find`,
-- assignment and `erase`. A pointer that is kept to a map's node is the node's key, since nodes
-- do not move; one into a table is an index. Counters and sequences wrap at 2^64, prices and
-- quantities are native numbers with the wrap of each operation written out. An interface or
-- callback is a function with a state of its own. A buffer is the list of its bytes, and every
-- read of it is checked: `none` stands for a read outside, which the theorems rule out. What the
-- compiler and the operating system decide is an argument: the bytes of an event in memory, with
-- `sizeof` and the laws of copying as hypotheses, how much each call of `writev` writes, and what
-- a file holds when it is opened; so are the operations on `double` and `std::sort`.
--
-- Bounds and fuel. The tracker's release loop has one round more than the ring has slots, and
-- each round clears a slot; the delivery loop has one round more than there are queued events;
-- the binary search has as many rounds as elements and each halves the range; probing stops after
-- as many slots as there are. The packer's loop has one round more than the input has bytes and
-- takes three of them a round; the loop over the messages of a packet has as many, and a message
-- takes ten bytes. The journal reader's loop has a round for each byte of the file and one, and a
-- round passes a record of 24 bytes or more. Where a loop without fuel has no result, the
-- theorems say that it has one.
--
-- Not modelled: sockets, threads, memory maps, kernel interfaces, the command lines and the
-- benches, which surround these parts with input and output; the floating-point features and
-- statistics, for which there is no exact arithmetic here; the conversions of Bitfinex's prices
-- are parameters. `queue_ahead` of an order is kept as the number that the source casts to
-- `double`. Of the lock-free rings only the one with a single reader is modelled.
pub mod Common
pub mod Core
pub mod Phase2
pub mod Phase3
pub mod Proto
pub mod Wire
pub mod Feed
pub mod Phase4
pub mod Journal
pub mod Live
