-- ===== src/Lib.antt =====
-- DataSpinner: the market data publisher and subscriber of this repository, modelled from its C++ sources.
--
-- A publisher gathers values into deltas (MdDeltaBuilder), sends each message as one packet of at
-- most 2048 bytes (a header of eight bytes, a time stamp of eight bytes, the wire form) through
-- TcpSocketQueue, which caches what the socket does not take and throttles a slow client. A
-- subscriber cuts the stream into packets (read_connection_buffer) and hands each message to its
-- handler (stream_in_archive). DeltaDispatcher sends a delta to the connections that are subscribed
-- to its symbol; the UDP publisher sends it as a datagram to every client that has logged in. Both
-- drop clients whose heartbeat is late.
--
-- Files and what they model:
--   Wire       src/util.h: hton64 and ntoh64; Wire/Order and Wire/Network have the facts about them
--   Header     src/util.h MsgHeader, src/spinner_core/spnr.h EMsgType, src/archive.h start_header
--   Buffer     src/socket_buffer.h SingleRecordBuffer: write, read, set_start, buff, len
--   Archive    src/archive.h and src/archive.cpp BuffMsgArchive: the operators << (put_) and >> (get_)
--              as state passing on the archive, Writer and Reader
--   Records    src/spinner_core/records.h and records.cpp: the messages, calc_len and their operators
--   Delta, Ref src/spinner_core/md_ref.h and md_ref.cpp: MdDelta and MdRef
--   Message    the messages as one type, and stream_in_archive of src/tcp_connection.cpp
--   Frame      src/tcp_connection.h send_message, up to the send
--   Connection src/tcp_connection.h and tcp_connection.cpp: send_message and close_connection
--   Stat       src/spinner_core/spinner_core_util.cpp WireReaderStat
--   EvBuffer   the calls of libevent's evbuffer, as a parameter with its documented laws
--   Receive    src/tcp_connection.cpp read_connection_buffer
--   Queue      src/socket_buffer.cpp TcpSocketQueue, with the answers of send(2) as a parameter
--   Builder    src/spinner_core/delta_builder.h MdDeltaBuilder, with the publisher as a parameter
--   Session    src/tcp_connection.cpp and src/tcp_subscriber.cpp: the handlers of a connection with
--              its socket, send_hb, send_text_msg and the choices of eventcb
--   Dispatcher src/tcp_publisher.cpp: DeltaDispatcher and MdServerConnection
--   Udp        src/udp_connection.h and udp_connection.cpp, with src/udp_subscriber.cpp in
--              Udp/Subscriber and src/udp_publisher.cpp in Udp/Publisher and Udp/Publish
--   Tick       src/spinner_core/spinner_core_util.h: TickMetric, MetricsObserver, HB_Observer
--   Text       src/spinner_core/spinner_core_util.cpp: trim, join, split, format_with_commas; and
--              parse_command of src/util.cpp
--   Config     src/spinner_core/config.h and config.cpp
--   Generator  the generators of deltas of src/simulator.h and src/spinner_core/spinner_core_util.h
--   Snapshot   src/ref_table.cpp and src/simulator.cpp: MdRefTable and regenerate_ref_data
--   Admin      src/admin_connection.cpp, and on_menu_msg of src/admin_client.cpp
--   Base, Tests  shared names and lemmas; the theorems on concrete inputs
--
-- The host is little-endian. A byte is a number below 256, a string the list of its bytes, a double
-- its 64 bits; lengths and indices wrap at their widths. An exception, or a handler's call, is a value.
--
-- Fuel: read_connection_buffer runs on one round more than the buffer has bytes, since every round
-- takes a header off the buffer. send_cache takes its fuel as an argument: one round for each cached
-- record and one more are enough for a socket that takes records whole.
-- The loops of split, of std::to_string and of format_with_commas run on the length of the text or
-- the value of the number and one more, which their theorems show to be enough. A send with too
-- little fuel makes the operation that calls it `none`.
--
-- A method that holds a mutex is one step, a table is an association list in the order in which the
-- unordered_map is traversed, and a pointer to a connection is a number. The answers of send(2),
-- sendto and recvfrom, the clocks, uninitialised memory and what floating point computes are
-- parameters.
--
-- Not modelled: threads, locks and condition variables (wait_for_connections, wait_for_subscribers,
-- HB_SubscriberRunner), main and the set-up of sockets and libevent, logging and the console,
-- format_size and calc_reader_throughput (floating point for a line of the log), the DDS port
-- (generated code and its examples), the tests and benchmarks, and the operators of the archive
-- that nothing calls (unordered_map, store_idxdata).
pub mod Base
pub mod Wire
pub mod Header
pub mod Buffer
pub mod Archive
pub mod Records
pub mod Delta
pub mod Ref
pub mod Message
pub mod Stat
pub mod EvBuffer
pub mod Frame
pub mod Receive
pub mod Queue
pub mod Connection
pub mod Builder
pub mod Tick
pub mod Udp
pub mod Session
pub mod Dispatcher
pub mod Text
pub mod Config
pub mod Generator
pub mod Snapshot
pub mod Admin
pub mod Tests
