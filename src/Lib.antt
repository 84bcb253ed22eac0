-- ===== src/Lib.antt =====
-- A matching engine for NASDAQ ITCH order messages: an order book per stock, a map from order
-- references to resting orders, a file mode that replays a day of messages, and a UDP mode in which
-- a network thread receives MoldUDP64 packets and hands them to the matching thread over a ring.
--
-- The parts and their models, one file each with its theorems in the folder of the same name:
--   Itch     include/itch.hpp, src/itch.cpp: the message records and ItchParser.
--   Pool     include/order_pool.hpp: OrderPool, the arena of order nodes. Its vector is a function
--            of the index and a size. Pool/Chain has the doubly linked queues threaded through it.
--   Ladder   include/ladder_side.hpp: LadderSide, the price levels of one side of a book. The
--            vector `ladder` is a function of the slot, `overflow` a sorted list; the pointer to a
--            level that bestLevel returns is a LevelRef.
--   Book     include/orderbook.hpp, src/orderbook.cpp: OrderBook. handleBuyOrder and
--            handleSellOrder share match_side, whose parameter is the test that ends the matching;
--            the inner loop is match_level and one round of it match_head.
--   HashMap  include/flat_hash_map.hpp: FlatHashMap, with linear probing and Knuth's deletion.
--   Engine   include/matching_engine.hpp, src/matching_engine.cpp: MatchingEngine. The cases of
--            processMessage are process_add, process_delete, process_executed and process_replace;
--            run_file is the loop of run. Run is how a call ends. Engine/Books has what holds
--            between two messages of all books, the one pool and the order map together, and
--            Engine/Session the sequences of messages that a file or a packet may have.
--   Mold     include/moldudp64.hpp: the packet header, the message iterator and buildMoldPacket.
--   Ring     include/spsc_ring.hpp: SpscRing, the bounded queue between the threads;
--            Ring/Threads has its operations one access to memory at a time.
--   Packets  include/packet_pool.hpp: PacketPool, the packet buffers and their free list. A buffer
--            has 2048 bytes, and a packet leaves those behind it as older ones left them.
--            Packets/Threads has the compare-and-swap loops, one access to memory at a time.
--   Feed     include/feed_handler.hpp, src/feed_handler.cpp: the loop of runFeedHandler, one step
--            for each pass over the stop flag and each result of recv, which cuts a datagram at
--            the size of a buffer.
--   Xdp      src/feed_handler_xdp.cpp: the loop of runFeedHandlerXdp, one step for each batch of
--            frames; frame_payload is the filter of frames.
--   Udp      src/engine_udp.cpp: the matching thread of runUdp beside the network thread. A Turn is
--            a step of the one or the other, and Udp/Threads has the states they reach.
--   Replay   src/replay.cpp: the sender's batching of a file into packets. Sending is how it ends:
--            a write behind the 256 entries of batchPtrs and batchLens is a result of its own.
--   CommandLine  src/main.cpp (Main) and parseArgs of src/replay.cpp (Sender): the options. A text
--            is a String, and the library's readers of numbers are arguments.
-- The engine calls the parser, the order map and the books; a book calls its two sides and the pool,
-- and a side links and unlinks nodes of the pool. Ladder/Shape sees a side as a map from prices to
-- levels, Book/Resting as a map from prices to queues of nodes, and Book/Priority states what
-- matching promises of such maps. The feed handler takes a buffer from the packet pool, parses the
-- header and pushes the buffer's index into the ring; the matching thread pops it, processes the
-- messages and gives the buffer back.
-- Prelude has what the models share, and Examples has concrete states for the theorems.
--
-- State is passed explicitly: an operation takes the state and returns the new one. Numbers are
-- natural numbers, and what wraps around in the source is written as a remainder; a byte is a number
-- below 256, a cursor into bytes is the list of the bytes not yet read, and INVALID_INDEX,
-- kPoolInvalid and the empty key of the order map are the largest numbers of their width.
--
-- Loops run on fuel. A probe loop of the order map has a round for each slot; a table with an empty
-- slot needs no more. The inner matching loop has one round more than there are incoming shares, as
-- each round executes a share at least if every resting order has one. The outer loop has as many
-- rounds, as each of its levels executes a share too. The message iterator consumes two bytes a
-- round, and so do the loop of run and the loop of the sender.
--
-- Not modelled: sockets, the start and the pinning of threads, huge pages, prefetching, pacing,
-- printing and the calibration of the cycle counter; the floating-point division that turns cycles
-- into nanoseconds is an argument of convert. Threads interleave as on a
-- machine that is sequentially consistent. The set-up of the AF_XDP socket and of its rings in
-- src/feed_handler_xdp.cpp is calls of a library.
pub mod Prelude
pub mod Run
pub mod Itch
pub mod Pool
pub mod Ladder
pub mod Book
pub mod HashMap
pub mod Engine
pub mod Mold
pub mod Ring
pub mod Packets
pub mod Feed
pub mod Xdp
pub mod Udp
pub mod Replay
pub mod CommandLine
pub mod Examples
