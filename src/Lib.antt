-- ===== src/Lib.antt =====
-- serverlessd: a runtime that keeps JavaScript workers in pods, one thread to a pod.
--
-- The program. An HTTP application takes uploads, removals and worker calls; the first two pass
-- an authenticating handler. It talks to the runtime's task (src/runtime/serverless) by triggers
-- over a channel, and awaits replies on oneshot channels. The runtime keeps worker sources in
-- files and talks to its pods (src/runtime/pod) in the same way. A pod keeps a table of workers
-- and passes triggers on to them. Each worker (src/runtime/worker) is watched by a monitor.
--
-- The model, file by file, with the code that each follows:
--   Prelude            shared names, list lemmas, text; `Outcome` is a value, a panic, undefined
--                      behaviour, or an await that nothing completes
--   Pod                src/runtime/pod/core.rs, trigger.rs, task.rs, and the start of a worker
--                      (src/runtime/worker/handle.rs): `Pod`, `has_vacancy`, `get_next_worker_id`,
--                      `put_worker`, `remove_worker`, `create_worker`, `pod_task`
--   Pod.Client         src/runtime/pod/handle.rs: `PodHandle` and its methods
--   CodeStore          src/runtime/serverless/code_store.rs over interfaces for the file system
--                      and the regex crate
--   Serverless         src/runtime/serverless/core.rs, trigger.rs, handle.rs, task.rs:
--                      `find_vacancy` (find_vancancy there), `create_worker`, `serve`, `run`,
--                      `serverless_task`
--   App                src/runtime/serverless/app.rs: the handlers `worker`, `api_upload_worker`,
--                      `api_remove_worker`, with the calls of handle.rs; App.Interleaving has
--                      them at once, a turn for each trigger; App.Closing has the methods of
--                      handle.rs where the task has ended, and ctrl-c between the turns; App.Service
--                      is an abstract service that the handlers refine
--   Auth               src/runtime/serverless/app_security.rs over an interface for the crates
--                      that decode and digest
--   Router             src/runtime/serverless/app.rs: the routes of `start_server`, the
--                      middleware before the two that change sources, and `handle_error`;
--                      Router.Pages has what the clients see of requests one after the other,
--                      Router.Arrivals follows requests that come through the router at once
--   Monitor            src/runtime/worker/monitor.rs: the loop of `monitor_worker_task`, as a whole
--                      (`watch`) and step by step among others (`monitor_thread`), the requests
--                      to the monitor, and the tick channel
--   Repliers           src/runtime/worker/state.rs: the replier table, and the steps of
--                      src/runtime/worker/task.rs that use it
--   Worker             src/runtime/worker/task.rs, error.rs, and src/language/promise.rs:
--                      `initialize` (`create_task` there, up to its loop), `serve_events`,
--                      `close_state`, `create_cancel_safe_task`; Worker.Environment has what the
--                      start asks of v8, from the built-in files and the source
--   Ownership          src/runtime/worker/state.rs: `create_injected`, `get_from_isolate`,
--                      `open_from_isolate`, and the handles that the worker and its tasks hold
--   Language           src/language/exception.rs over the values of v8: `from_exception`, `throw`
--   Compile            src/compile.rs over v8's modules: `compile_module`
--   Intrinsics         build.rs, src/intrinsics/files.rs and src/intrinsics/building.rs: the
--                      resolution of names, `build_intrinsics`, `extract_intrinsics`
--   Fetch              src/intrinsics/fetch.rs over v8 and the HTTP crates, the client of
--                      src/runtime/worker/state.rs, and the ticks of a waiting request
--   Commands           src/main.rs: `main` and its four commands, `start_one`
--   Tests              runs at concrete inputs, and instances of the interfaces
--
-- State is passed explicitly; a channel is an argument or a list of events. A oneshot sender is
-- the number of the request that waits on it. Concurrency: the environment chooses the order of
-- the runtime's events and of the handlers' turns, which workers still listen in each round, and
-- how the monitor's moves fall between a worker's ticks. The handles of the pods have one owner, the runtime's task, which
-- awaits each reply before it sends again, so a request to a pod and the round that serves it are
-- one step. Channels are taken to have room: a send waits at most until the receiver runs.
-- A worker that listens is taken to consume or drop a trigger in the end, so that the reply channel
-- of its halt completes. What a worker answers to a page is a value that comes with the call: a text,
-- the drop of its sender, or that no answer ever comes; the runtime and the workers are joined by the
-- triggers that the pods have sent. The tasks of fetch are counted: a worker that is closed waits for
-- them.
--
-- No loop needs fuel but `trim_start_matches`, whose fuel is the length of the text: each round
-- shortens the text. The loops of the tasks recur on the list of their events.
--
-- Not under src/, and so parameters: the allocator of `Vec` (documented: the capacity is at least
-- what was asked for, and a push reallocates only a full vector), the file system, the regex
-- crate, the crates that decode and digest, v8 (its answers to a worker and to fetch, its
-- values, its modules: their instantiation asks for each import; a cast to an object panics at any
-- other value), the crates of HTTP requests and headers (an insertion replaces what stands under
-- its name), the rules by which the HTTP framework goes on to the next handler and asks for the page
-- of an error, and the http crate's names of statuses.
--
-- Not modelled: the matching of paths to routes, which is the HTTP framework's, what a call of v8
-- does inside, the scopes that the macros make, the start of runtimes and threads, logging.
pub mod Prelude
pub mod Language
pub mod Compile
pub mod Pod
pub mod CodeStore
pub mod Serverless
pub mod App
pub mod Intrinsics
pub mod Commands
pub mod Fetch
pub mod Ownership
pub mod Auth
pub mod Router
pub mod Monitor
pub mod Repliers
pub mod Worker
mod Tests
