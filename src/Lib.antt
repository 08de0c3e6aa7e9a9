-- ===== src/Lib.antt =====
-- Vetinari is an orchestrator that drives a team of coding agents over the issues of a
-- repository. It keeps what it knows in a SQLite file, `state.db`; it works on the code through jj
-- and on the issues through crosslink; it answers other nodes' issues through crossbridge. This
-- library models the parts of it that decide what happens to an issue, translated from
-- crates/orchestrator/src.
--
-- The parts and their files:
--   State        crates/orchestrator/src/state.rs. The tables are lists of rows (Rows); `StateDb`
--                (Db) is the tables, a counter of the statements and two answers of the environment,
--                whether the n-th statement fails and what the clock reads at it. Enums has the
--                string-backed enums, Schema the migrations, Issues, Workers and Ledger the
--                statements on the four tables, each under the name of the method it models.
--   World        what the functions of the orchestrator share: `state.db`, the event log, and a
--                state `X` for everything outside the program. World/Jj is the interface of
--                crates/jj_api with the laws of jj that landing relies on; World/Tracker the ones of
--                crates/crosslink_api, of the GitHub client and of the crossbridge transport;
--                World/Toy a small repository that satisfies the laws, for the tests.
--   Events       crates/orchestrator/src/events.rs: `emit` writes the row first, then its mirror; Reader
--                reads the mirror back, torn or rebuilt.
--   Manager      the primitives of `WorkspaceManager` in crates/orchestrator/src/workspace.rs that
--                landing calls. Manager/Safety says what they can do to `main`.
--   Landing      crates/orchestrator/src/landing.rs: Local is the rebase and fast-forward machine,
--                Remote the push and pull request machine, Slug the names of branches. Others is
--                about the issues that a landing is not for.
--   Names        `WorkspaceName` of workspace.rs: the names of workspaces.
--   Recovery     crates/orchestrator/src/recovery.rs: Plan is the decision table of a restart, and
--                Plan/Table the table as a relation; Workers is what is done with workers and their
--                workspaces, Execute the pass over the issues. The files of a workspace (its DONE
--                sentinel, the comments its artifacts translate to, its removal) are the interface
--                `WorkerFiles`.
--   Answer       crates/orchestrator/src/answer.rs: Delivery is the trigger and one delivery, Retry
--                the guards on a retry and on a peer's slug, Sweep the loop over the issues.
--                Delivery/Queue is about the trigger.
--   Artifacts    crates/orchestrator/src/artifacts.rs: Findings, Followups, Done and Plan are what a
--                worker leaves in its workspace, its manifest with the verification, and the
--                comments that it is posted as. Recovery/Files fills `WorkerFiles` with them.
--   Pump         crates/orchestrator/src/pump.rs. Labels is what a peer may not set on an issue and the
--                mirror of the phase, Gate the approval that a peer's work needs before it lands.
--                Site is the interface of everything that a round calls outside the program. Steps
--                has the helpers, Implement a round of the Implementer with its QA run, Review the
--                rounds of the Adversary, Land the two modes of landing, Merge the Merger, Drive the
--                loop over them, and Tick one turn of the pump. Steps/Once, Review/Converged,
--                Implement/Requeues, Merge/Once, Drive/Laws, Tick/Ingest, Tick/Resume and Tick/Unapproved
--                hold the theorems.
--   Spawn        crates/orchestrator/src/spawn.rs: Mounts is what of the repository a role may see,
--                Sandbox the arguments of bwrap for a worker and for the QA gate, Shell the quoting of
--                the inner command. Surface and Shell/Words read these command lines back.
--   Phases, Landing/Steps, Prelude
--                the rules that the proofs share. Code that changes state and may fail is an
--                `Exec E S A`, a function from the state to a result and the new state: what was
--                written before an error stays written. `Keeps` says that an action keeps a
--                predicate whether it succeeds or fails, `Ends` that it so takes one predicate to
--                another, `Leads` what holds after it returns, `Agrees` that two actions do the same
--                wherever a predicate holds.
--
-- Landing and the answer machine write their substate to `state.db` before the operation that it
-- announces; recovery reads it back. Most of the program's loops are recursion on a list, and the
-- review loop counts its own turns down. The loop of `drive_issue` has no bound of its own: it runs
-- on fuel and returns `none` where that runs out, and six turns are proved to be enough.
-- `run_until_idle` runs for a number of ticks. Counters, clock readings and lengths are natural
-- numbers; where the source saturates or divides signed numbers, the model writes it out.
--
-- Not modelled: SQLite beyond the meaning of the statements, jj, crosslink, GitHub, JSON, SHA-256 and
-- the wire, which are parameters; the mutex of the jj gate, since one call is one step; the wording
-- of errors and of some event details. Resolving the binaries of the host, the pane and the
-- process of a worker (crates/orchestrator/src/spawn.rs), the run of the QA script
-- (crates/orchestrator/src/qa.rs) and the rendering of a worker's inputs are process and file
-- output: fields of `Site`. The heartbeat files of events.rs, configuration, the command line,
-- crates/zellij_host and crates/xtask have no model here.
pub mod Prelude
pub mod Error
pub mod State
pub mod World
pub mod Events
pub mod Phases
pub mod Manager
pub mod Landing
pub mod Recovery
pub mod Answer
pub mod Names
pub mod Artifacts
pub mod Pump
pub mod Spawn
