-- ===== src/Lib.antt =====
-- nexide: a Rust runtime that serves Next.js applications on V8 isolates. The HTTP side hands each
-- request to an isolate through a dispatch table and a queue; JavaScript takes requests by op calls,
-- reads their bodies, writes their responses and finishes them; a completion channel carries the
-- answer back to the HTTP side.
--
-- Files and the code they model (paths from the root of the repository):
--
-- - Prelude.antt, Prelude/: names of the standard library, Boolean tests and list lemmas over the
--   native numbers, wrap-around of machine words, error results.
-- - Ops/Request.antt: crates/nexide/src/ops/request.rs, the request line with its validation and the
--   body cursor (`RequestMeta::try_new`, `RequestSlot::read_body`). Ops/Request/Validation.antt and
--   Reading.antt hold its theorems.
-- - Ops/Response.antt: crates/nexide/src/ops/response.rs, the response state machine (`send_head`,
--   `send_chunk`, `finish`), with Ops/Response/Assembly.antt.
-- - Ops/DispatchTable.antt: crates/nexide/src/ops/dispatch_table.rs, the generational arena of
--   in-flight requests. `get_mut` is `slot_mut` for its outcome and `write` for what the caller does
--   through the reference. FreeList, Invariant, Drain, Steps, Aging and Survival below it are about
--   the free list, single operations, `fail_all`, histories, reuse of ids and what an operation
--   leaves alone.
-- - Ops/Queue.antt: crates/nexide/src/ops/queue.rs, the queue of request ids, with
--   Ops/Queue/Order.antt. The async pops are one poll each: `none` is a pending poll.
-- - Engine/Bridge.antt: the request ops of crates/nexide/src/engine/v8_engine/ops_bridge.rs on the
--   state of bridge.rs, with `enqueue_with` and `fail_inflight` of engine.rs. Answers, Keeping and
--   Conservation below it are about the answers over a history of calls, Lifecycle about the calls on one
--   request. Draining is `drain_pending_pops` with the calls that JavaScript makes while it runs, with
--   Fairness on these calls; Pump is about the whole loop.
-- - Image/Memory.antt: crates/nexide/src/image/memory.rs, the LRU cache (`MemCache`), with Entries on
--   its map, Eviction on its limits and Recency on what is evicted. The hash map is a list of entries
--   with distinct keys; the Boolean result of a lock is left out.
-- - Image/Glob.antt: crates/nexide/src/image/glob.rs, the glob matcher (`matches_impl` is `match_head`
--   on the `head_of` the pattern), with Fuel on its recursion and Meaning on what it admits.
-- - Image/Cache.antt: crates/nexide/src/image/cache.rs, the names of cache files and the choice of the
--   freshest one, with Names and Newest.
-- - Pool/Recycle.antt: crates/nexide/src/pool/recycle.rs, the recycle policies, with `f64` as a
--   parameter. Pool/Isolates.antt: crates/nexide/src/pool/isolate_pool.rs, the pool as events of
--   concurrent tasks, with Picking on `pick_index`, and Counting and Events on the
--   counters.
-- - Image/Config.antt: crates/nexide/src/image/config.rs, the allowlists for width and quality.
--   Image/Params.antt: `ValidatedParams::parse` of crates/nexide/src/image/handler.rs, with
--   Validation; the lossy decoding of UTF-8 is a parameter. Image/Fetch.antt: `fetch_remote` of the
--   same file, with Redirects; the HTTP client and URLs are parameters.
--   Image/Output.antt: the choice of the output format and of the size in
--   crates/nexide/src/image/pipeline.rs, and `preselect_output` of handler.rs, with Negotiation and
--   Size.
-- - Engine/HandleTable.antt: crates/nexide/src/engine/v8_engine/handle_table.rs, with Handles.
-- - Cjs/Paths.antt: the operations of std::path that the CommonJS loader uses, on the text of Unix
--   paths, with Ancestors on the walk up to the root. Cjs/Json.antt: serde_json::Value.
-- - Cjs/Exports.antt: `split_package_name`, `match_exports` and `pick_condition` of
--   crates/nexide/src/engine/cjs/resolver.rs, with Patterns and Targets.
-- - Cjs/Registry.antt: crates/nexide/src/engine/cjs/registry.rs, errors.rs and
--   `register_node_builtins` of builtins.rs.
-- - Cjs/Resolver.antt: `Resolved` and `FsResolver` of crates/nexide/src/engine/cjs/resolver.rs; its
--   children are Candidates (the files a path can stand for) and Packages (`resolve`, packages and
--   their imports), with Files and Admission on what is found, Naming and Missing on the
--   names of files, Refusal on errors and Returning on the recursion. The file system and the JSON
--   parser are parameters.
-- - Cjs/Loader.antt: `op_cjs_resolve`, `op_cjs_read_source` and `op_napi_load` of
--   crates/nexide/src/engine/v8_engine/ops_bridge.rs, with Specifiers and Reading. The loader of native
--   modules is a parameter.
-- - Server/Prerender.antt: crates/nexide/src/server/prerender.rs, the prerendered pages and their
--   cache, with Keys on the paths, Capacity on the size of the cache, Freshness on its entries and
--   Responses on what is served. The disk and the hash, JSON and header types are parameters.
--   Server/Config.antt: `ServerConfig::try_new` of crates/nexide/src/server/config.rs.
-- - Ops/Process.antt: the overlay and the visibility rules of crates/nexide/src/ops/process.rs, and the
--   ops on process.env of crates/nexide/src/engine/v8_engine/ops_bridge.rs, with Overlay and
--   Refinement. The environment of the host is a parameter.
-- - Image/Patterns.antt: the allowlists `local_pattern_matches` and `remote_pattern_matches` of
--   crates/nexide/src/image/glob.rs. Image/Source.antt: `resolve_source` of
--   crates/nexide/src/image/handler.rs, with Containment; `fetch_remote` is its parameter, modelled in
--   Image/Fetch.antt. Image/Detect.antt: `detect_format` of crates/nexide/src/image/pipeline.rs.
--   Image/Headers.antt: `parse_cache_control_max_age`, `filename_from_url` and
--   `build_content_disposition` of handler.rs.
-- - Server/Accept.antt: crates/nexide/src/server/accept_loop.rs and the mailboxes of
--   worker_runtime.rs, with Sampling on the two candidates, Delivery on one connection, Conservation on
--   a whole run and Room on the second attempt. The channels of tokio are a parameter.
-- - Pool/Settings.antt: crates/nexide/src/pool/pump_strategy.rs, crates/nexide/src/engine/heap_config.rs
--   and the parsers of integer variables of crates/nexide/src/pool/recycle.rs, with Limits on the
--   bounds.
-- - Ops/Sandbox.antt: `PathSandbox` and `FsError` of crates/nexide/src/ops/fs_sync.rs, with Handle on
--   `FsHandle`, Inside on what is admitted and Agreement on what the handle touches. The backend and canonical paths are parameters.
-- - Tests.antt, Tests/: concrete runs of the definitions.
--
-- Conventions. Text and bodies are lists of bytes. A `oneshot::Sender` is the number of its channel,
-- and what is sent is a `Delivery`; a V8 promise resolver is a number too. An operation on `&mut self`
-- returns the new state. A panic is `none`, an error a `Result`. Numbers are natural numbers;
-- operations on machine words that can wrap or saturate are written with their bound. `usize` is taken
-- to be wide enough for the lengths of lists that fit in memory.
--
-- Bounds and fuel. Each round of `drain_pending_pops` takes an id off the queue, so that one round more
-- than there are ids is fuel enough, also with the calls that JavaScript makes between two rounds, which
-- take ids and wait for more, but put none into the queue. The loop of `fail_all` goes down the slots,
-- without fuel.
-- The loop of `evict` gets as many rounds as the map has entries, and each round removes one. The
-- glob matcher gets the length of the pattern, which every recursive call shortens. Decimal printing
-- gets the number itself, which bounds its digits. The stamps of the LRU cache and the counters of the
-- pool wrap around at 64 bits; theorems that need it say how many calls are made.
-- Percent decoding gets the length of its input, of which each round takes a byte. The loop of
-- `fetch_remote` recurses on its own counter of redirects.
-- The walk from a directory up has one step more than the directory's text has bytes, and the parent is
-- always shorter. `resolve_subpath_imports` has fuel for the depth of its recursion, which the source
-- does not bound: `none` is a call that does not return.
--
-- Not modelled: decoding of JavaScript values, V8 itself, locks and wake-ups, logging, the file system
-- behind its sandbox, and the ops on processes, sockets, DNS, zlib and crypto, which are calls of the
-- operating system or of other crates; N-API bindings and start-up code; JavaScript polyfills.
pub mod Prelude
pub mod Ops
pub mod Engine
pub mod Cjs
pub mod Image
pub mod Pool
pub mod Server
pub mod Tests
