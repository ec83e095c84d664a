-- ===== src/Lib.antt =====
-- A model of the native server of the Snail profiler (snail/), the program behind the VS Code
-- extension: it reads traces, analyses their samples and answers JSON-RPC requests.
--
-- Parts, by the file that models them:
--   Common             shared names, Boolean tests and lists over the native numbers, and
--                      `std::unordered_map` as a list of pairs (AssocMap)
--   Text               snail/common/trim.cpp, over texts as lists of character codes
--   Jsonrpc.Transport  snail/jsonrpc/transport: the header loop of stream_message_reader.cpp, and
--                      stream_message_writer.cpp. A stream is its remaining bytes and whether it is
--                      good. The header loop runs on fuel, one unit for a line: the header
--                      that the writer writes has two
--   Jsonrpc.Json       what is used of the JSON library, a parameter of the model
--   Jsonrpc.Protocol   snail/jsonrpc/jsonrpc_v2_protocol.cpp and errors.cpp; an exception is `throws`
--   Jsonrpc.Server     snail/jsonrpc/server.{hpp,cpp}: handlers by name and the texts that are
--                      answered. A session is a history of messages and of calls that handlers make
--                      of `respond` and `report_error`, in any order
--   Server.Scheduler   snail/server/detail/document_task_scheduler.{hpp,cpp}: a state of queues and
--                      counters, and one step for each critical section under the mutex; the
--                      closures in flight may end in any order
--   Server.Storage     snail/server/detail/storage.{hpp,cpp}: Document is `document_storage`, Interface
--                      what the storage uses of snail/analysis and of sorting (a parameter), Page the
--                      span that `get_functions_page` returns; `std::size_t` wraps at 2 ^ 64. An
--                      exception is a constructor of Outcome, a null provider another one
--   Chunked            snail/common/chunked_reader.hpp, for any size of a chunk
--   Common.Stream      `std::ifstream`: bytes, a position and whether a read has failed
--   Xca                snail/common/ms_xca_decompression.cpp. A read or write behind a buffer is a result of
--                      its own (Common.Run); the loop has one unit of fuel more than the input has bytes,
--                      and each round moves on by one at least
--   Common.Bytes       the integers of snail/common/parser/extract.hpp
--   Etl                snail/etl/etl_file.cpp with the views of snail/etl/parser that it uses: Trace
--                      reads one event, Buffer one buffer, Open is `open`, Process is
--                      `process`, and Merge its loop over the processors, with `std::priority_queue` as a
--                      parameter (Queue). The loop has fuel for an event of one byte in every byte
--                      that the buffers may have
--   ThreadPool         snail/common/thread_pool.cpp: one step for each critical section; one thread
--                      submits at a time
--   Analysis.History   snail/analysis/detail/process_history.hpp
--   Analysis.Stacks    snail/analysis/analysis.cpp: the tables of modules, functions and files by
--                      name (Names), the call tree (CallTree), the loops over samples (Analyze)
--                      and the accessors (Access). The samples of a process are given, by source.
--                      Runs is about the loops, Indexed and Linked about ids, Calls about callers and
--                      callees, and Balance, Counts and Selfs about hits
--   Analysis.ModuleMap  snail/analysis/detail/module_map.hpp: the steps of `insert` on the ranges, in the
--                      order of the source; a binary search is the split of ordered ranges
--   Analysis.PerfContext  snail/analysis/detail/perf_data_file_process_context.{hpp,cpp}: the handlers of the
--                      events, `finish` and the queries
--   PerfData           snail/perf_data: Attributes is detail/attributes_database.cpp, Records
--                      parser/records/kernel.{hpp,cpp}, Header `open`, Reading `read_events` and
--                      `read_attributes_section`, Metadata `read_metadata`, Streams
--                      snail/common/parser/read.hpp, Observer
--                      dispatching_event_observer.cpp and Process `process`. The loops over a chunked
--                      reader run on fuel that the caller gives
--   Analysis.PathMap   snail/analysis/path_map.cpp, over `std::regex` as a parameter
--   Analysis.StackCache  snail/analysis/detail/stack_cache.hpp and snail/common/hash_combine.hpp, for any
--                      hash of an instruction pointer
--
-- How they interact: snail_server.cpp serves one message after another. The transport reads its bytes, the
-- protocol turns them into a request, the server finds the handler, and the handlers of
-- snail_server.cpp schedule a task for the document, which asks the storage; the storage calls the
-- analysis, whose providers use the history and the stack cache. A file of perf_data gives its events to the
-- observer of a context (Analysis.PerfContext.Observer), whose samples the analysis asks for.
--
-- Not modelled: the records of trace files (snail/etl/parser/records), their context and the providers over
-- the contexts, symbol resolution through LLVM, the progress reports, sockets and pipes, and the handlers
-- of snail_server.cpp. They are glue, calls of other libraries, or the same bookkeeping for another format. The
-- connection, which reads, calls and writes, is left out; that its loop ends, on `exit` or by an exception
-- of a handler, is a step of a session. Where a handler is called and what it does between its calls is not modelled. An assert is no check in Xca, Etl, Chunked and PerfData, as in a release build.
-- In Etl the calls of `handle_buffer` are left out, and what was delivered before an exception is not kept.
pub mod Analysis
pub mod Chunked
pub mod Common
pub mod Etl
pub mod Jsonrpc
pub mod PerfData
pub mod Server
pub mod Text
pub mod ThreadPool
pub mod Xca
