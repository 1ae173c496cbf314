-- ===== src/Lib.antt =====
-- K carries an application upgrade through two slots: it stages the candidate's bytes in the
-- experiment slot, stops the stable service, starts and probes the candidate, then commits it or
-- restores the stable version. A journal makes an interrupted upgrade recoverable. This library
-- models the Rust crate's core and proves what it promises.
--
-- Parts, from the repository's root:
--   State, Validate    src/state.rs: phases, slots, evidence, journal entries, operation receipts.
--   Error              src/error.rs: the errors, and `Result`.
--   Action             calls that read and change a world of any type and may fail, which is what
--                      an `async fn` returning `Result` over shared state is.
--   Invariants         src/invariants.rs: the checks over snapshots of an installation.
--   Engine             src/engine.rs: `Engine::{recover, upgrade, rollback, observe_settled}` over
--                      the traits `Effects` and `Host`. The sequence number of an engine is kept
--                      in a `Session` beside the world. `upgrade` is written from its end
--                      backwards: `commit`, `verdict`, `judge`, `probed`, `hand_over`, `replace`.
--   Engine/View, Engine/Contract
--                      what an observer sees of a world (two slots, live processes, parked or not,
--                      the journal) and the contract of the effects, the host, the predicates and
--                      the timer: each call has its effect on the view, or fails with none or all
--                      of it. `Inv` is the implementation's invariant, `Blame` says which errors a
--                      fault that is present explains.
--   Engine/Safe        the states that a crash may leave behind, as a data type.
--   Engine/Leads       a program logic over sessions: what holds after a return, and after an error.
--   Engine/Rollback, Engine/Commit, Engine/Recovery, Engine/Stages, Engine/Upgrade, Engine/Survival
--                      the engine's functions in that logic.
--   Harness            src/harness.rs: `FakeHost`, which crashes at a chosen boundary, with its
--                      mutations. Harness/Keeps shows that it keeps the contract, so that the
--                      engine's theorems hold in it without any assumption on a host;
--                      Harness/Simulation is `simulate`.
--   Protocol           src/protocol.rs: requests and responses.
--   Report             src/report.rs: the lifecycle readback, its report, the transaction's state.
--   Storage            src/storage.rs: the operation receipts and their archive.
--   Lines              src/storage.rs, src/report.rs: files of one JSON entry on a line.
--   Journal            src/storage.rs: the bytes of the journal file, read and appended to by
--                      `FileStore::{read_journal, append}`; a missing file is an empty one.
--   Slots              src/storage.rs: the slot directories, with a fault at any call of the file
--                      system; `FileStore::{stage, promote, clear, bootstrap_locked}`.
--                      Slots/Refines states `promote` as one step on two versions.
--   Provenance         src/report.rs: `FileStore::{read_provenance, append_provenance_at}`.
--   Redaction          src/host.rs: `host_error_detail`.
--   Controller         src/host.rs: `CommandHost::{call, probe}`.
--   Runner             src/runner.rs: policy, receipts, replay and recovery around the engine, and
--                      the wire requests. Runner/Drive is `drive` and `recover`, Runner/Requests is
--                      `execute` and `rollback`.
--   Lock               src/lock.rs: `UpgradeLock` as a step relation over any number of callers.
--   Artifact           src/artifact.rs: releases, budgets and content ranges; Artifact/Transfer is
--                      `Downloader`.
--   Source             src/source.rs: the static manifest and its version order.
--   Supervisor         src/supervisor.rs: `run`, `settled`; Supervisor/Launch is the loop of
--                      attempts, `supervise_bytes` and `resume_runner`. Supervisor/Resolves states
--                      the loop as a chain of attempts, world by world.
--   Base               texts, maps and numbers that the parts share.
--   Tests              the theorems at concrete inputs.
--
-- Numbers: a sequence number is a `u64`, whose increment wraps as in a release build; the model
-- world's pids and the simulation's random numbers are `u32`. Loops are structural recursion; no
-- definition runs on fuel but the decimal digits of a number, which get one unit more than the
-- number has value.
--
-- Parameters: the effects, the host, the predicates, the clock and the timer of the engine; JSON,
-- files and digests; the store's slots, report and provenance files, the hooks, the release source,
-- the downloader and the lock of the runner; the network, the decoders and the timer of the
-- downloader and the manifest source; the worker processes, the clock and the files of the
-- supervisor; the process of the controller; the numbers of the processes of the lock. A call of the engine whose budget runs out
-- leaves the world as it was before the call, or as the call would have left it. A transfer that
-- its timeout lets through is the transfer that ran.
--
-- Not modelled: the steps of `write_durable`, the quarantine, the fence of `CommandHost`, the
-- stages that are shown for phases, and the corpus of recorded seeds; `process_alive` is a system
-- call; `serve`, the acceptance runs and the command line are input and output. The file store
-- replaces a slot in several steps, so the engine's contract is not claimed of it; what holds of
-- these steps is shown of Slots.
pub mod Base
pub mod State
pub mod Error
pub mod Action
pub mod Validate
pub mod Invariants
pub mod Engine
pub mod Harness
pub mod Protocol
pub mod Report
pub mod Storage
pub mod Lines
pub mod Journal
pub mod Artifact
pub mod Source
pub mod Supervisor
pub mod Lock
pub mod Slots
pub mod Redaction
pub mod Controller
pub mod Provenance
pub mod Runner
pub mod Tests
