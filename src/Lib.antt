-- ===== src/Lib.antt =====
-- Verification library of the SMT data stream and log tracing services.
--
-- 01_SMT_DataStream collects files from production devices and archives them; 02_SMT_LogTrace reads
-- the archive, parses it into documents, builds immutable segments and answers searches over them.
--
-- The path of a file through the program, and the modules that follow it:
--   * Collector: the agent on the line takes a sealed file as a task, uploads its chunks to the server
--     and completes the upload (01_SMT_DataStream/src/collector). Collector/Models.antt has the task and
--     the call results of spool_store.h and http_uploader.h, Collector/Uploader.antt the calls and the
--     reading of their answers (http_uploader.cpp: emptyResult, request, createSession, queryProgress,
--     uploadChunk, complete), Collector/Worker.antt the step of a task and the round over the tasks
--     (collector_app.cpp: processTask, scheduleRetry, failTask, processTasks). Backoff, Machine,
--     Chunks and Rounds hold the laws. The network, the JSON parser, the payload files and the clock are
--     the record World: a state and the answer to each call.
--   * Upload: the server checks a request for an upload (01_SMT_DataStream/src/upload/upload_model.cpp
--     and src/common/validation.cpp). Upload/Request.antt has the validators and the checks of
--     parseCreateUploadRequest behind the JSON, Upload/Numbers.antt is parseUnsigned with its 64-bit
--     arithmetic written out.
--   * Parsing: the archived file becomes documents (02_SMT_LogTrace/src/indexing). Parsing/Archive.antt
--     is parseArchive of archive_parser.cpp with its read loop; Utf8, Csv, Runtime and Report are
--     validUtf8, parseCsvRow, parseRuntimeLine and parseFctLine; Parsing/Models.antt has the records of
--     index_models.h; Parsing/Tokenizer.antt is tokenizeTerms of term_tokenizer.cpp. Times, finite
--     doubles and SHA-256 are the record Platform; open, read and close enter as their results.
--   * Index: the loaded segments (segment_models.h) and the snapshot (index_snapshot.cpp).
--     Index/Snapshot.antt is the constructor and findDocument; a null pointer is `none`.
--     Index/Original.antt is readOriginalRecord of original_log_reader.cpp over the outcomes of the
--     system calls.
--   * Store: the segment files (segment_store.cpp). Store/Codec.antt has the writers of words and strings
--     and BinaryReader; Files, Documents, Postings and Terms are the serialize and load functions of the
--     four tables, each with its round trip and with what its checks establish; Store/Load.antt is
--     loadAtPath from the parsed manifest to the loaded segment, and its children show that such a
--     segment meets what Index and Search ask for. Store/Build.antt is SegmentStore::build up to the
--     four tables, with std::map as Base/SortedMap.antt; Build/Inverted and Build/Index say what its index holds,
--     Build/Records which records it writes, and Build/Meaning what the search of a built and loaded segment finds. The JSON parser, SHA-256,
--     times and doubles are the record StorePlatform, the original archives the record BuildPlatform.
--   * Manager: the publication of segments (segment_manager.cpp). Manager.antt is the state: the tables
--     index_batch and indexed_archive, the segment directories and the snapshot, and an exception as a
--     result beside the state. Manager/Repository.antt has the statements of index_state_repository.cpp
--     on batches, Manager/Directories.antt the calls of SegmentStore, Manager/Publish.antt the methods of
--     SegmentManager; Frames, Served, Recovery, Rounds, Listing, Published, Snapshot and History carry the
--     invariant from one call to a history of operations, and Progress is the recovery without
--     failures. What each call of the database and of the file system does is the record Environment:
--     an answer, a refusal, or an update whose answer is lost. A digest in a table is its hexadecimal
--     text, and a table is read in the order of its ids.
--   * Search: the search of a snapshot (search_engine.cpp). Search/Query.antt is matchesFilters,
--     Search/Postings.antt the posting lists, their intersection and termFrequency, and
--     Search/Segment.antt the part of SearchEngine::search that selects the documents, with every
--     read of a segment's terms, postings and documents and the frequencies for the scores.
--   * Cache: the segmented LRU cache (02_SMT_LogTrace/include/logtrace/cache/slru_cache.h), which the
--     search keeps details and files in. Cache/Slru.antt has one function per method.
-- Base has what they share: Boolean tests, lists, association lists, byte strings and signed times.
-- Tests has the concrete inputs.
--
-- Representation: a std::string is the list of its bytes. Unsigned integers are natural numbers; the
-- modelled code compares and counts them, and no counter of it can reach its machine bound on a file
-- or an index that fits in memory. A result `none` of Cache and Search is undefined behaviour of the
-- source, a read outside of a container; so is `outside_of_table` of the store, beside its exceptions. Fuel: the loop of validUtf8 gets more than the length of the
-- text, since each round takes a byte, and the binary search of termFrequency gets more than the number
-- of postings in its range, since each round makes the range shorter. The name of a segment gets the
-- fuel of twenty digits, as many as a number of 64 bits has.
--
-- Not modelled: the Redis scripts and the statements of MySQL other than those of the segment manager,
-- with the handlers around them; the scan of new archives and the rebuild of a batch; the manifest that
-- the build writes and the single files of a directory; the JSON of parsed batches; the scores and the
-- ranking of hits; the spool files and the scan of the input directories; configuration,
-- authentication, RPC, and the start of the servers.
pub mod Base
pub mod Cache
pub mod Collector
pub mod Index
pub mod Manager
pub mod Parsing
pub mod Search
pub mod Store
pub mod Tests
pub mod Upload
