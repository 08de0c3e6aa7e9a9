-- ===== src/Recovery/Execute.antt =====
-- The pass over the issues: `recover_with`, `recover_issue` and what a plan does, of
-- crates/orchestrator/src/recovery.rs. The files of the workers' workspaces are the interface of
-- Recovery/Workers.antt; crosslink and the pull request opener may be absent.
pub mod Working
pub mod Replay
pub mod Total
pub mod Reconciled
pub mod Tests
use vetinari.Prelude.{
  ℕ, suc, ◌+◌, Bool, true, false, not, ◌&&◌, Text, codes, msg, text_eq, Option, none, some, List,
  [], ◌∷◌, ◌++◌, select, Result, ok, err, to_option, if◌then◌else◌,
}
use vetinari.Prelude.Int.{ℤ, parse_i64}
use vetinari.Prelude.Exec.{Exec, pure, raise, lift, gets, mapping_err, try, ◌>>=◌, ◌>>◌}
use vetinari.Error.{
  StateError, LandingError, RecoveryError, state_db_inconsistent, unknown_substate,
  workspace_missing_for_active_worker, jj_log_mismatches_substate,
}
use vetinari.State.Enums.{
  Phase, orchestrator_error, transition, is_terminal, PhaseSubstate, bookmark_moved_complete,
  merging, rebase_started, phase_enum, as_str,
}
use vetinari.State.Rows.{ActiveWorkerRow, IssueRow, PostedArtifact}
use vetinari.State.Db.{StateDb}
use vetinari.State.Issues.{list_issues, set_phase}
use vetinari.State.Workers.{list_active_workers}
use vetinari.State.Ledger.{Key, is_posted, record_posted}
use vetinari.World.{World, in_db, in_ext}
use vetinari.World.Jj.{Jj}
use vetinari.World.Tracker.{CrosslinkRepo, PrOpener, IssueInfo}
use vetinari.Events.{emit}
use vetinari.Landing.{LandingOutcome, main_bookmark}
use vetinari.Landing.Local.{resume_from, land_local}
use vetinari.Landing.Remote.{RemoteLanding, resume_remote_from}
use vetinari.Landing.Slug.{branch_name}
use vetinari.Answer.{xb_status_answered}
use vetinari.Recovery.Plan.{
  RecoveryPlan, no_action, clean_crashed_worker, replay_done_then_redrive, resume_landing,
  resume_remote_landing, start_landing, complete_answer_close, plan_recovery,
  carries_answer_substate,
}
use vetinari.Artifacts.{kind_text}
use vetinari.Artifacts.Plan.{TranslationItem}
use vetinari.Recovery.Workers.{
  WorkerFiles, state_err, state_step, failing_as, reap, reap_all, reap_if_any,
  landing_change_revset,
}
use vetinari.Recovery.Workers

pub data RecoveryAction : Type 0 where
  cleaned_crashed_worker : Text → RecoveryAction
  replayed_done : Text → ℕ → RecoveryAction
  resumed_landing started_landing : Text → LandingOutcome → RecoveryAction
  completed_answer_close : Text → RecoveryAction
  quarantined : Text → RecoveryError → RecoveryAction

abbrev worker_role_tag : Text
worker_role_tag = codes "implementer"

abbrev landing_err : LandingError → RecoveryError
landing_err _ = state_db_inconsistent (msg "landing resume failed during recovery")

-- `.ok_or_else(…)?`
abbrev need : {X A : Type 0} → Text → Option A → Exec RecoveryError (World X) A
need detail none = raise (state_db_inconsistent detail)
need detail (some a) = pure a

-- `err.to_string()`, by its variable part
abbrev pub reason_of : RecoveryError → Text
reason_of (unknown_substate phase substate) = phase ++ substate
reason_of (workspace_missing_for_active_worker uuid path) = uuid ++ path
reason_of (state_db_inconsistent detail) = detail
reason_of (jj_log_mismatches_substate substate log) = substate

module _ {X : Type 0} where
  unfoldable pub quarantine : Text → Text → Exec RecoveryError (World X) Unit
  quarantine issue_id reason = do
    state_step (set_phase issue_id orchestrator_error none)
    mapping_err state_err (
        emit transition (some issue_id) none (
          (codes "recovery", codes "true")
          ∷ (codes "quarantine", codes "true")
          ∷ (codes "to_phase", as_str orchestrator_error)
          ∷ (codes "reason", reason)
          ∷ []))
    pure tt

module _ {X : Type 0} (repo : CrosslinkRepo X) where
  close_if_open : ℤ → IssueInfo → Exec RecoveryError (World X) Bool
  close_if_open numeric_id info =
      if not (text_eq info.status (codes "open")) then pure false else (do
        failing_as (msg "answer-close label failed") (repo.label_add numeric_id xb_status_answered)
        failing_as (msg "answer-close failed") (repo.close_issue numeric_id)
        pure true)

  unfoldable pub complete_close : Text → Exec RecoveryError (World X) Bool
  unfolding close_if_open
  complete_close issue_id = do
    numeric_id ← need (msg "answer issue id is not an integer") (parse_i64 issue_id)
    info ← failing_as (msg "answer-close read failed") (repo.read_issue numeric_id)
    close_if_open numeric_id info

  -- One comment of the plan, unless the ledger has its key: the number of comments posted.
  post_unless : Text → ℤ → Text → TranslationItem → Bool → Exec RecoveryError (World X) ℕ
  post_unless issue_id numeric_id worker_uuid item true = pure 0
  post_unless issue_id numeric_id worker_uuid item false = do
    comment_id ←
        failing_as (msg "replay comment post failed")
          (repo.comment_write numeric_id (kind_text item.kind) item.body (some worker_role_tag))
    now ← gets (λ w. w.db.now w.db.statements)
    state_step (
        record_posted (record {
          issue_id = issue_id;
          artifact_path = item.artifact_path;
          content_sha = item.content_sha;
          finding_index = item.finding_index;
          worker_uuid = worker_uuid;
          comment_id = comment_id;
          posted_at = now;
        }))
    pure 1

  abbrev key_of_item : Text → TranslationItem → Key
  key_of_item issue_id item = record {
    issue_id = issue_id;
    artifact_path = item.artifact_path;
    content_sha = item.content_sha;
    finding_index = item.finding_index;
  }

  unfoldable pub post_items :
      Text → ℤ → Text → List TranslationItem → Exec RecoveryError (World X) ℕ
  unfolding post_unless
  post_items issue_id numeric_id worker_uuid [] = pure 0
  post_items issue_id numeric_id worker_uuid (item ∷ items) = do
    posted ← state_step (is_posted (key_of_item issue_id item))
    n ← post_unless issue_id numeric_id worker_uuid item posted
    m ← post_items issue_id numeric_id worker_uuid items
    pure (n + m)

module _ {X : Type 0} (jj : Jj X) (files : WorkerFiles X) (root : Text)
    (repo : Option (CrosslinkRepo X)) (opener : Option (PrOpener X)) where
  -- Without crosslink, or for an id that is no number, nothing is replayed.
  replay_into :
      Text → ActiveWorkerRow → Option (CrosslinkRepo X) → Option ℤ → Exec RecoveryError (World X) ℕ
  replay_into issue_id worker (some c) (some numeric_id) = do
    verified ← gets (λ w. files.done_verifies worker.workspace_path w.ext)
    if not verified then pure 0 else (do
      planned ← gets (λ w. files.translation_plan worker.worker_uuid worker.workspace_path w.ext)
      items ← need (msg "replay translation plan failed") (to_option planned)
      post_items c issue_id numeric_id worker.worker_uuid items)
  replay_into issue_id worker _ _ = pure 0

  unfoldable pub replay_done : Text → ActiveWorkerRow → Exec RecoveryError (World X) ℕ
  unfolding replay_into
  replay_done issue_id worker = replay_into issue_id worker repo (parse_i64 issue_id)

  abbrev description_or_title : IssueInfo → Text
  description_or_title info = elim info.description [ none ↦ info.title | some d ↦ d ]

  unfoldable pub resume_remote :
      IssueRow → PhaseSubstate → Exec RecoveryError (World X) LandingOutcome
  resume_remote issue substate = do
    o ← need (msg "mid remote-landing but no GitHub PR opener is configured") opener
    c ← need (msg "mid remote-landing but recovery has no crosslink handle") repo
    configured ← failing_as (msg "could not read `tracker_remote`") c.tracker_remote
    remote ← need (msg "mid remote-landing but `tracker_remote` is now unset") configured
    numeric_id ←
        need (msg "mid remote-landing but its id is not numeric") (parse_i64 issue.issue_id)
    info ← failing_as (msg "could not read crosslink issue") (c.read_issue numeric_id)
    mapping_err landing_err (
        resume_remote_from jj o
          (record {
            issue_id = issue.issue_id;
            change_revset = branch_name issue.issue_id info.title;
            remote = remote;
            branch = branch_name issue.issue_id info.title;
            base = main_bookmark;
            title = info.title;
            body = description_or_title info;
          })
          substate)

  -- The stored change that a human approved, or the one of the issue's workspace.
  change_of : IssueRow → Option Text → Exec RecoveryError (World X) Text
  change_of issue (some stored) = pure stored
  change_of issue none = landing_change_revset jj files root issue.issue_id issue.round

  -- The two substates that need no change get a placeholder.
  resume_local : IssueRow → PhaseSubstate → Exec RecoveryError (World X) LandingOutcome
  unfolding change_of
  resume_local issue merging = mapping_err landing_err (resume_from jj issue.issue_id [] merging)
  resume_local issue bookmark_moved_complete =
      mapping_err landing_err (resume_from jj issue.issue_id [] bookmark_moved_complete)
  resume_local issue substate = do
    change ← change_of issue issue.landing_change
    mapping_err landing_err (resume_from jj issue.issue_id change substate)

  reap_merger : PhaseSubstate → Option ActiveWorkerRow → Exec RecoveryError (World X) Unit
  reap_merger merging worker = reap_if_any jj files root worker
  reap_merger other worker = pure tt

  close_with : Text → Option (CrosslinkRepo X) → Exec RecoveryError (World X) (List RecoveryAction)
  close_with issue_id none = pure []
  close_with issue_id (some c) = do
    closed ← complete_close c issue_id
    pure (if closed then completed_answer_close issue_id ∷ [] else [])

  -- The `match` on the plan.
  unfoldable pub carry_out :
      IssueRow
      → Option ActiveWorkerRow
      → RecoveryPlan
      → Exec RecoveryError (World X) (List RecoveryAction)
  unfolding resume_local reap_merger close_with
  carry_out issue worker no_action = pure []
  carry_out issue worker clean_crashed_worker = do
    Workers.clean_crashed_worker jj files root issue.issue_id worker
    pure (cleaned_crashed_worker issue.issue_id ∷ [])
  carry_out issue worker replay_done_then_redrive = do
    w ← need (msg "planned ReplayDone but has no active_workers row") worker
    posted ← replay_done issue.issue_id w
    Workers.clean_crashed_worker jj files root issue.issue_id (some w)
    pure (replayed_done issue.issue_id posted ∷ [])
  carry_out issue worker (resume_landing substate) = do
    reap_merger substate worker
    outcome ← resume_local issue substate
    pure (resumed_landing issue.issue_id outcome ∷ [])
  carry_out issue worker (resume_remote_landing substate) = do
    outcome ← resume_remote issue substate
    pure (resumed_landing issue.issue_id outcome ∷ [])
  carry_out issue worker start_landing = do
    change ← landing_change_revset jj files root issue.issue_id issue.round
    outcome ← mapping_err landing_err (land_local jj issue.issue_id change)
    pure (started_landing issue.issue_id outcome ∷ [])
  carry_out issue worker complete_answer_close = close_with issue.issue_id repo

  abbrev has_worker : List ActiveWorkerRow → Bool
  has_worker [] = false
  has_worker (w ∷ ws) = true

  abbrev first_worker : List ActiveWorkerRow → Option ActiveWorkerRow
  first_worker [] = none
  first_worker (w ∷ ws) = some w

  abbrev extra_workers : List ActiveWorkerRow → List ActiveWorkerRow
  extra_workers [] = []
  extra_workers (w ∷ ws) = ws

  abbrev has_done : List ActiveWorkerRow → World X → Bool
  has_done [] w = false
  has_done (worker ∷ ws) w = files.done_verifies worker.workspace_path w.ext

  -- The rows of the issue's workers: the first is handled by the plan, the others are reaped.
  recover_with_workers :
      IssueRow → List ActiveWorkerRow → Exec RecoveryError (World X) (List RecoveryAction)
  recover_with_workers issue mine = do
    done ← gets (has_done mine)
    plan ← lift (plan_recovery issue.phase issue.phase_substate (has_worker mine) done)
    actions ← carry_out issue (first_worker mine) plan
    reap_all jj files root (extra_workers mine)
    pure actions

  unfoldable pub recover_issue :
      List ActiveWorkerRow → IssueRow → Exec RecoveryError (World X) (List RecoveryAction)
  unfolding recover_with_workers
  recover_issue workers issue =
      recover_with_workers issue (select (λ w. text_eq w.issue_id issue.issue_id) workers)

  -- The isolation of one issue: what fails is quarantined.
  unfoldable pub settle :
      IssueRow
      → Result RecoveryError (List RecoveryAction)
      → Exec RecoveryError (World X) (List RecoveryAction)
  settle issue (ok actions) = pure actions
  settle issue (err e) = do
    quarantine issue.issue_id (reason_of e)
    pure (quarantined issue.issue_id e ∷ [])

  unfoldable pub recover_issues :
      List ActiveWorkerRow → List IssueRow → Exec RecoveryError (World X) (List RecoveryAction)
  recover_issues workers [] = pure []
  recover_issues workers (issue ∷ issues) =
      if is_terminal issue.phase && not (carries_answer_substate issue)
      then recover_issues workers issues
      else (do
        result ← try (recover_issue workers issue)
        actions ← settle issue result
        rest ← recover_issues workers issues
        pure (actions ++ rest))

  unfoldable pub recover_with : Exec RecoveryError (World X) (List RecoveryAction)
  recover_with = do
    issues ← state_step list_issues
    workers ← state_step list_active_workers
    recover_issues workers issues
