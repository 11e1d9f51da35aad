-- ===== src/Lib.antt =====
-- Redis_C-17, a key-value server that speaks the Redis protocol.
--
-- A worker thread reads chunks of bytes from a client, the parser turns them into commands,
-- the command handler runs each command on the store and concatenates the replies, and the
-- worker sends them. The store keeps each key in one of its submaps, with an LRU cache in
-- front of them and files behind them; the cache takes its items from a memory pool.
--
-- * Resp models src/RESPParser.cpp and include/RESPParser.h. Value has the parsed values,
--   whose texts are views (start and size) into the parser's buffer, and to_command; Parser
--   the parsing routines, each a function from the buffer and the position to the outcome and
--   the position that the code leaves; Context the loop of parse, the erasing of the buffer,
--   and get_commands, which reads the views from the storage as it is after the erasing.
--   Encode is the client's side: the wire format of requests. Lines, Reading and RoundTrip,
--   Progress and Split hold the proofs.
-- * Pool models src/MemoryPool.cpp and include/MemoryPool.h. The free list runs through the
--   first words of the blocks: `links` is that memory. Free, Blocks and Own hold the proofs.
-- * Cache models include/CachePolicy.h (Policy), and src/AdaptiveCache.cpp with
--   include/AdaptiveCache.h: Items has the operations of std::list on nodes with addresses,
--   State the fields and the private helpers, Ops the methods, Init the constructor. Manage
--   the policy, the adjustment thread and the statistics. Valid has the invariant; Laws, Put
--   (with Linking), Destroy and Clear say what the methods do, and where they are undefined.
-- * Store models src/DataStore.cpp and include/DataStore.h: Codec has compress and decompress
--   over an interface of zlib, State the shards, buckets and submaps and where a key belongs,
--   Ops set, get and del, Persist the files, the sync thread and the destructor, Init the
--   constructor. Contents and Get say what a store holds and what the operations do to it;
--   Threads has set, get and del of many threads in parts, Holds and Written show what they
--   can answer, and Stale a race; Deleted is about a del behind a set; Reload, Restore,
--   Restart, Life and Load are about the files, Placed and Keeps about the place of keys, and
--   Durable about a store's whole life.
-- * Commands models src/CommandHandler.cpp and include/CommandHandler.h: State the table and
--   the statistics, Handle the handlers. Spec is what the commands promise, on a map from keys
--   to values; Serves and Refine show that the handlers keep the promise, Reject what they
--   refuse, and Deleted that a del behind a set of the key is undefined.
-- * Worker models src/ThreadPool.cpp and include/ThreadPool.h: Receive has worker_loop,
--   handle_client_event and process_client_data, Send is send_response, Batch what
--   process_client_data does with one chunk (Bursts and Answers are about many), Clients the
--   clients of the workers and the choice of a worker (Count and Balance hold the proofs),
--   Affinity the placing of workers on processors, with include/ThreadAffinity.h, and Binding
--   what the system makes of it as the threads start (Bound has the proofs).
-- * Config models src/Config.cpp: Trim has the texts, Values the parsers of values, Load the
--   default configuration and the loop over the lines. Classes, Words, Lines and Items have
--   the texts that a file is written with and what loading makes of them; Numbers, Range,
--   Print and RoundTrip are about the values.
-- * Server models src/RedisServer.cpp, the constructor of the thread pool, and src/main.cpp:
--   State has the fields and the constructors, Socket the options of sockets, Loop the set-up
--   of the socket, the accept loop, stop and the statistics, Steps the accept thread and the
--   workers side by side, Main what main does with a configuration file. Start, Bound, Stop,
--   Limit and Reuse hold the proofs.
-- * Demo has the small inputs that the modules Tests of the components share.
--
-- Outcomes. A method that may raise, or wait for ever, has a result of type Run: `blocked` is
-- a thread that waits for ever (the join of a worker thread that does not end), `bad_alloc`
-- and `runtime_error` are exceptions, `dangling` is undefined behaviour (an iterator or a
-- reference whose object is gone, an item that is destroyed twice, an object made in memory
-- that another one owns, a mutex that one thread locks twice, an index out of range, a
-- division by zero), `endless` is used-up fuel, or the end of the model's list of what
-- `accept` answers. The parser has its own outcomes.
--
-- The removal of a cached item is undefined in the code, since the item is destroyed by the
-- list and then by the pool. So `del` is defined for keys that the cache does not hold only,
-- and every key that was set, or found by get, since the start is in the cache. The theorems
-- about many commands therefore have a set of keys, `deletable`: `del` is called for these,
-- and `set` and `get` for the others.
--
-- Bounds and fuel. Sizes and counters are natural numbers with the wrap-around of the code
-- written out (2 ^ 64 for size_t, 2 ^ 32 for uint32_t and zlib's uInt); std::stoi has the
-- range of a 32-bit int. The parser's loop has one round more than the buffer has bytes, which
-- is enough since each round that finds a value moves on. The loop of load_shard has one round
-- more than the file has bytes. The loop of decompress takes its number of rounds from
-- outside, and one more than the value has bytes is enough.
--
-- Parameters. XXH32, std::hash, zlib, the clock, the answers of the allocator, whether the
-- directory of the files can be made, whether the worker threads end, the results of send, the
-- sets of processors and the priorities that the system accepts, and the comparisons in
-- floating point are arguments. ZlibLaw is what the code relies on of zlib: what deflate wrote
-- is not empty and inflates to its input, and inflate with room for output makes progress.
--
-- Threads. Server.Steps has the steps of the accept thread and of the workers in any order:
-- the body of accept_loop is one step, since only the accept thread adds clients, and
-- remove_client is two. Store.Threads has set, get and del of any number of threads, in the
-- parts that each holds one lock of a submap or of a shard of the cache. A round of
-- sync_routine writes the store as it is at one time. A step whose part is undefined is no
-- step of these. Elsewhere an operation runs without other threads between its steps.
--
-- Not modelled: a failing start of a thread, the arrival of signals (what one does is stop)
-- and output. An unordered_map is walked in the order of a list. Allocation by the standard
-- containers succeeds, and so does writing the files of the store.
pub mod Prelude
pub mod Resp
pub mod Pool
pub mod Cache
pub mod Store
pub mod Commands
pub mod Worker
pub mod Config
pub mod Server
pub mod Demo
