-- ===== src/Lib.antt =====
-- Telemetrix-DB: a store of live transit telemetry. One thread downloads a GTFS-Realtime feed,
-- decodes it and pushes one record for each vehicle into a bounded ring buffer; the main thread
-- pops them, writes speed and time into a spatial arena indexed by H3 cells, and prints a report
-- for each vehicle with passengers, with names of stops and routes from two static files.
--
-- Files and the code that they model:
--   Buffer       src/ingestion/buffer.c, include/buffer.h: buffer_init and buffer_destroy with
--     what they allocate and release, buffer_push, buffer_pop, buffer_signal_shutdown and
--     buffer_is_shutdown as calls that return or block; Buffer/Threads has the same functions as
--     a step relation on any number of threads, one step for each lock, test, wait, wakeup,
--     store, signal and broadcast.
--   Text         the calls of strncpy and strncmp, on arrays and strings as lists of bytes.
--   Parser       src/ingestion/parser.c: parse_and_queue and the structs that it reads from
--     include/gtfs-realtime.pb-c.h.
--   Fetcher      src/ingestion/fetcher.c: WriteMemoryCallback and fetch_gtfs_data, with the
--     content of the block.
--   Memory       what the ingestion thread allocates in src/ingestion/fetcher.c and
--     src/ingestion/parser.c and has to give back: blocks of the heap, curl handles, unpacked
--     messages.
--   Storage      src/storage/storage.cpp, include/arena.h: SpatialArena, its constructor and
--     update; Storage/Threads has update as a step relation on any number of threads, one step
--     for each access of the bucket.
--   Static       src/main.cpp: load_static_gtfs, with std::getline on streams; Static/Writer is a
--     writer for the two files.
--   Reactor      src/main.cpp: the rounds of main and of ingestion_thread, get_occupancy_string.
--   Program      src/main.cpp: main and ingestion_thread running together, as a step relation
--     that contains the one of Buffer/Threads; Program/Main has main from its start.
--   Gtfs         src/ingestion/gtfs-realtime.pb-c.c and include/gtfs-realtime.pb-c.h: the
--     descriptor tables of the 28 messages and 12 enums (Gtfs/Tables, Gtfs/Enums), the structs,
--     their initial values and init functions (Gtfs/Structs), the enum constants
--     (Gtfs/Constants), and the functions of the 18 top-level messages (Gtfs/Methods);
--     Gtfs/Schema has what proto/gtfs-realtime.proto declares.
--   Base         helpers that the others share.
--
-- A record that the source mutates is a state passed on; a null pointer is none. The parser and
-- the ingestion rounds take the queue as an operation on a state, which Parser/Queueing
-- instantiates with the ring. A call that waits for another thread is the outcome blocks, or none
-- where it would never return. Numbers are natural numbers: the ring's int members stay within
-- their range, which is part of its invariant; size_t, uint32_t and uint64_t wrap where they can,
-- and the percentage is converted from uint32_t to int as the compiler does. The fuel of
-- load_file is two more than the bytes of the file, one more than its lines can be.
--
-- Parameters, since they are not part of the repository: libcurl (the chunks of a transfer and
-- whether it ends well), realloc (IsRealloc states its contract), the protobuf-c runtime (a
-- decoder for the parser, its six functions for Gtfs/Methods, where IsRuntime states its
-- contract), H3 (any function, but for Storage/Routing, whose CellLayout is the documented layout
-- of an index), the arithmetic on floats, and the content of uninitialised memory. Pthreads is
-- the step relation: a mutex with one holder, waits that release it, spurious wakeups. The flag
-- of a bucket is tested and set in one step, and the steps of the threads follow one after the
-- other.
--
-- Not modelled: the destructor of SpatialArena (it only frees), the typedefs and prototypes of
-- the headers, printing, the benchmarks and the build. pthread_create is taken to succeed, as the
-- source does.
pub mod Base
pub mod Buffer
pub mod Fetcher
pub mod Gtfs
pub mod Memory
pub mod Parser
pub mod Program
pub mod Reactor
pub mod Static
pub mod Storage
pub mod Text
