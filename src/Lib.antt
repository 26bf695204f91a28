-- ===== src/Lib.antt =====
-- A verification library for the real-time bidding engine of this repository: a TCP server whose
-- workers read length-prefixed bid requests, look up campaigns, draw a bid and answer.
--
-- A request passes through the parts in this order. A worker's read buffer yields a frame
-- (Buffer); the frame is parsed (Parse, with the generated code as the parameter Protobuf); the
-- message is normalized into keys and a deadline (Normalize); the store, which was loaded once
-- from a file (Store), yields the candidates (Retrieve); the auction over them draws creatives and
-- prices (Decision, Rng, Double); the decision becomes a response (Response); Request composes all
-- of this as `handle_request`; and the response is framed into the write buffer (Framing). Worker
-- runs this for every connection, Benchmark records its times, and Server starts the workers.
--
-- The files and the code:
--   Types.antt       include/rtb/engine_types.h, config.h and constants.h
--   Buffer.antt      src/frame.cc, with `ReusableBuffer` of include/rtb/runtime_types.h and the types
--                    of include/rtb/frame.h; Buffer/Bytes has the byte order, Buffer/Inv the
--                    invariant, Buffer/Stream the view as a queue, Buffer/Extract and Buffer/Frames
--                    the frames
--   Framing.antt     src/response_framing.cc
--   Protobuf.antt    the messages of proto/rtb.proto and the interface of the generated code
--   Parse.antt       src/parse.cc and include/rtb/parse.h
--   Normalize.antt   src/normalize.cc
--   Numbers.antt     the number parsing of src/campaign_store.cc and src/server.cc, `std::to_string`
--   Store.antt       src/campaign_store.cc; Store/Csv has its text functions, Store/Index the exact
--                    indexes, Store/Creatives and Store/Load the loader's proofs
--   Retrieve.antt    src/retrieve.cc
--   Rng.antt         `WorkerRng` of include/rtb/runtime_types.h
--   Double.antt      the operations of `double` in use; Double/Fixed is a concrete instance
--   Decision.antt    src/decision.cc
--   Response.antt    src/response_builder.cc
--   Request.antt     src/handle_request.cc and include/rtb/handle_request.h;
--                    Request/Keys and Request/Match say what a bid asks of the message and of a
--                    campaign
--   Server.antt      `parse_server_config` of src/server.cc, with the types of include/rtb/server.h;
--                    Server/Run has its signal handling, the start of the workers and their threads,
--                    Server/Launch `run_server` and `main` of src/main.cc
--   Worker.antt      src/worker_runtime.cc with include/rtb/worker_runtime.h, and `ConnectionState` of
--                    include/rtb/runtime_types.h: the connection map and `flush_pending_write`;
--                    Worker/Frames has `process_ready_frames`, Worker/Client one event of a client,
--                    Worker/Loop the event loop, Worker/Lifetime the start and the shutdown. Their
--                    proofs are in Worker/Calls, Flush, Conversation, Exchange, Answer, Serving, Session
--                    and Event (what a client gets), Times, Connections and Invariant (the map), and
--                    Descriptors, Start and Leak (what is open)
--   Benchmark.antt   src/benchmark.cc and include/rtb/benchmark.h; Benchmark/Report has the two reports
--   Bench.antt       bench/request_pipeline_bench.cc
--   Base.antt        shared names and lemmas
--
-- State is passed explicitly: a function that changes a buffer, a generator or a snapshot returns
-- the new one. Machine integers are natural numbers with their wrap-around written out (`% 2 ^ 64`
-- for `uint64_t` and `size_t`, `% 2 ^ 32` for `uint32_t`); bytes are numbers. A `double` is a value
-- of a type parameter with the operations of `Double`, and `IsIeee` lists the facts about finite
-- IEEE 754 numbers that are used. The steady clock is the sequence of its readings. The only loop on
-- fuel is the one of `to_string`, which gets the number itself as fuel: each round divides it by 10.
-- The workers of `run_server` and the rounds of the in-process benchmark are counted down.
-- The loops of the worker run over the lists of what `write`, `read`, `accept4` and `epoll_wait` return,
-- and end where such a call would block or wait; the calls that the program makes are a list in the
-- result.
--
-- Not modelled: logging; the kernel's side of sockets, epoll, signals and threads, which is an
-- argument (the threads of the workers are a sequence of turns); CPU affinity; the generated protobuf
-- code, the parsing and the printing of a `double` by a stream and the average of the benchmark, which
-- are parameters; and memory allocation failure.
pub mod Base
pub mod Types
pub mod Buffer
pub mod Numbers
pub mod Protobuf
pub mod Framing
pub mod Parse
pub mod Normalize
pub mod Double
pub mod Rng
pub mod Decision
pub mod Response
pub mod Store
pub mod Retrieve
pub mod Request
pub mod Benchmark
pub mod Bench
pub mod Server
pub mod Worker
