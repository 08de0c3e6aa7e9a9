-- ===== src/State/Rows.antt =====
-- The row types of crates/orchestrator/src/state.rs. An `i64` column that the program only sets to
-- 0, increments or stamps with a clock reading is a natural number; `finding_index`, `-1` for a
-- whole file, is an integer. A path is its text, a JSON payload its members.
use vetinari.Prelude.{ℕ, Text, Option, none, List}
use vetinari.Prelude.Int.{ℤ}
use vetinari.State.Enums.{Phase, ConvergenceMode, n_rounds, WorkerRole, EventKind}

pub record IssueRow : Type 0 where
  pub issue_id : Text
  pub phase : Phase
  pub phase_substate : Option Text
  pub round : ℕ
  pub convergence_mode : ConvergenceMode
  pub empty_round_streak : ℕ
  pub last_diff_hash : Option Text
  pub landing_retry_count : ℕ
  pub updated_at : ℕ
  pub answer_attempts : ℕ
  pub landing_change : Option Text

-- `IssueRow::new`, at the clock reading `now`.
abbrev pub new_issue : Text → Phase → ℕ → IssueRow
new_issue id phase now = record {
  issue_id = id;
  phase = phase;
  phase_substate = none;
  round = 0;
  convergence_mode = n_rounds;
  empty_round_streak = 0;
  last_diff_hash = none;
  landing_retry_count = 0;
  updated_at = now;
  answer_attempts = 0;
  landing_change = none;
}

pub record ActiveWorkerRow : Type 0 where
  pub worker_uuid : Text
  pub issue_id : Text
  pub role : WorkerRole
  pub round : ℕ
  pub workspace_path : Text
  pub pid : Option ℕ
  pub spawned_at : ℕ
  pub last_heartbeat : ℕ

pub record PostedArtifact : Type 0 where
  pub issue_id : Text
  pub artifact_path : Text
  pub content_sha : Text
  pub finding_index : ℤ
  pub worker_uuid : Text
  pub comment_id : Text
  pub posted_at : ℕ

-- A JSON object, by its members; a member's value is its text.
abbrev pub Payload : Type 0
Payload = List (Text × Text)

pub record EventRow : Type 0 where
  pub id : ℕ
  pub ts : ℕ
  pub kind : EventKind
  pub issue_id : Option Text
  pub worker_uuid : Option Text
  pub payload : Payload

-- The four tables of schema v3, in rowid order, with `PRAGMA user_version`.
pub record Tables : Type 0 where
  pub user_version : ℕ
  pub issues : List IssueRow
  pub workers : List ActiveWorkerRow
  pub posted : List PostedArtifact
  pub events : List EventRow
