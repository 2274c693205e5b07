-- ===== src/Lib.antt =====
-- PinBridge: the wire protocol and the event machinery of the agent.
--
-- The agent runs inside a process under Intel Pin. Analysis callbacks on the application's threads
-- write fixed-size events; bounded rings hold the newest of them, behind a mutex of Pin's that a
-- writer only tries; readers page through a ring by cursor. Other processes query the agent over
-- framed binary messages. A recorder drains events from a slab to a file, and a single-step engine
-- parks a thread at the instruction that it steps to. The hub decides who may write to the target.
--
-- Files, with the sources under bindings/rust:
--   Wire       pinbridge-proto/src/lib.rs: `EventRecord` (Wire/Record), `HookLogRecord`
--              (Wire/HookLog), `write_frame` and `read_frame` (Wire/Frame), the cursor `Reader` with
--              `put_u32` and `put_u64` (Wire/Reader). A buffer is a list of bytes.
--   Event      pinbridge-agent/src/event.rs, and `to_record` of record.rs.
--   Ring       pinbridge-agent/src/ring.rs, `Ring<CAPACITY>`: `push`, `page_into`,
--              `drain_newest_into`. Ring/Holds relates a ring to the log of all pushes.
--   Channel    pinbridge-agent/src/event_channel.rs, and `lock_spin` of ring.rs.
--   Telemetry  the statics and the functions of pinbridge-agent/src/ring.rs around the global ring.
--   Recorder   pinbridge-agent/src/record.rs. Recorder/Tape is the run-length encoding of `drain_main`
--              (`flush_run`, the `match` on the pending run, the markers). Recorder/Protocol is the
--              slab: `submit` with `try_reserve` (`produce`), the loop of `drain_main` (`drain`) and
--              the store of `stop` as steps on the statics CLAIM, DRAINED, DROPPED, WRITTEN, ARMED,
--              IN_FLIGHT, FAILED and on the tags and payloads by slot. Each load, store or
--              read-modify-write of a shared word is a step of its own, but that the drainer's
--              counters go with its store of DRAINED; a schedule is any list of steps.
--              Protocol/Threads, Slots, Moves, Publish, Invariant and Steps carry the invariant,
--              Schedule, Submit, Finish and Races the consequences. Recorder/Scope is the session's
--              request: the checks and stores of `start_spec` and `extend_ranges`, and the gate
--              `armed_in_range` with the instrumentation range. Recorder/Session joins the
--              protocol and the tape.
--   Stepper    pinbridge-agent/src/stepper.rs, function by function. Stepper/Claims, Replay and
--              Candidates are about landings, Stepper/Parking is the park slot with the threads that wait
--              in it, Stepper/Suspension about what a suspension does to them.
--   Trace      pinbridge-hub-core/src/trace_query.rs, and the file header of record.rs: `open_trace`
--              and the reads of a file (Trace/Artifact), the `i64` columns (Trace/Signed), the
--              database (Trace/Store), `parse_record` and the loop of `build_database`
--              (Trace/Import), `query_database`, `row_to_record` and `query` (Trace/Query).
--              Trace/Session joins the recorder and the hub.
--   Control    pinbridge-hub-core/src/control.rs, and `dispatch_guarded` of service.rs around it.
--              Control/Exclusion is about who writes when the mode changes.
--   Journal    pinbridge-hub-core/src/activities.rs, function by function. Journal/Ids is about the ids, Log is
--              a log that forgets nothing, Kept relates the journal to it.
--   Leases     pinbridge-agent/src/scripting/decisions.rs, the leases of hook points, with the hook points of
--              `apply_stop_action` in scripting/host.rs. Leases/Counts is about the counts, Holders
--              about the queue.
--   CodeFetch  pinbridge-agent/src/scripting/code_fetch.rs: `on_fetch` and the checks of `publish`.
--              CodeFetch/Overlay is a byte-by-byte view, Loop and Policy relate the code to it;
--              CodeFetch/Readers is `ReaderGuard` and `replace_native` as interleaved steps.
--   Breaker    pinbridge-agent/src/bp.rs: the breakpoint table, the callbacks, the exact stop and the
--              rounds of `breaker_main`, which drive Stepper and Trap. Breaker/Table is about the count
--              of active breakpoints under calls one after the other, Race about hits that overlap,
--              Replay about the resume over a breakpoint, Watchdog about steps that do not land.
--   Trap       pinbridge-agent/src/execution_trap.rs, function by function; a mask is the list of its
--              bits. Trap/Sound is about the table, Trap/Claims and Trap/Stops about a stop and its events.
--   Translation pinbridge-agent/src/scripting/memory_translation.rs: the rules that `publish` makes
--              and `NativeRule::translate`. Translation/Rules is about their ranges.
--   Examples   runs and instances of the theorems.
--   Common     shared names, list lemmas and result types.
--
-- Numbers are naturals; a `u32` or `u64` operation that can wrap is written with its modulus, as a
-- release build computes it. `usize` has 64 bits. What Pin's mutex answers is an argument of the
-- functions that ask it, and the theorems hold for every answer. Loops recur on the rounds that are
-- left, where the source computes these before the loop. The loops of trace_query.rs and code_fetch.rs
-- take fuel: the 88 bytes of a record for `fill`, one more than the bytes of the file for `import_loop`,
-- the bytes requested for `fetch_loop`, more than the records found for `browse`. Each round that goes
-- on takes a byte or a record at least, so that is enough, and the theorems about them give the
-- result itself. The recorder's loop is cut into steps instead, with a count of steps after which it
-- has ended. The steps are taken one after the other (a sequentially consistent memory); a payload is
-- written and read in one step each, which the tags make so. A schedule has at most 2^64 steps, so
-- that CLAIM does not wrap. The lock of the journal makes its calls one after the other too.
--
-- Not modelled: the write errors of the recorder's file, the launch of its drainer and the wait of
-- `stop`; the cache of finished databases, the JSON and CSV forms of a record and the parsing of the
-- arguments in trace_query.rs, and what follows its import loop (the commit, the indexes, `trace_meta`); the subscriptions of the script host, interception and hooks; the code that only calls Pin, Windows or CPython; the front ends; the vendored
-- pyo3.
pub mod Common
pub mod Wire
pub mod Event
pub mod Ring
pub mod Breaker
pub mod Channel
pub mod Telemetry
pub mod Trace
pub mod Trap
pub mod Recorder
pub mod Journal
pub mod Leases
pub mod Stepper
pub mod CodeFetch
pub mod Control
pub mod Translation
mod Examples
