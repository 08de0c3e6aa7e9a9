-- ===== src/Pump/Implement.antt =====
-- `run_implementer_round` and `on_qa_fail` of crates/orchestrator/src/pump.rs.
pub mod Laws
pub mod Retry
pub mod Requeues
pub mod Tests
use vetinari.Prelude.{
  ℕ, ◌+◌, Bool, true, false, not, Text, codes, msg, Option, none, some, List, [], ◌∷◌, ◌++◌, ◌==◌,
  leb, Result, ok, err, if◌then◌else◌,
}
use vetinari.Prelude.Int.{ℤ, show_nat, show_i64}
use vetinari.Prelude.Strings.{newline, is_blank}
use vetinari.Prelude.Exec.{Exec, pure, mapping_err, ◌>>=◌, ◌>>◌}
use vetinari.Error.{
  PumpError, spawn_error, prior_findings_error, landing_failed, LandingError, rebase_failed,
}
use vetinari.State.Enums.{Phase, qa_gate, WorkerRole, EventKind, spawn, transition, qa_result}
use vetinari.State.Rows.{IssueRow}
use vetinari.State.Issues.{get_issue, upsert_issue}
use vetinari.World.{World, in_ext}
use vetinari.Answer.Delivery.{db_step, repo_step}
use vetinari.Recovery.Workers.{forget}
use vetinari.Names.{WorkspaceName, from_parts, rendered}
use vetinari.Artifacts.{ArtifactError}
use vetinari.Artifacts.Findings.{Finding}
use vetinari.Artifacts.Done.{DoneSentinel}
use vetinari.Pump.Gate.{IssueOutcome, requeued}
use vetinari.Pump.Site.{Site, SpawnOutcome, exited, still_running, QaOutcome, qa_pass, qa_fail}
use vetinari.Pump.Steps.{
  worker_role_tag, worker_base_revset, note, store_issue, fresh_uuid, close, transition_issue,
  poison, current_round, register_worker, unregister_worker, change_revset, verify_done,
  translate_artifacts,
}

pub data ImplStep : Type 0 where
  impl_done : IssueOutcome → ImplStep
  qa_passed : WorkspaceName → ImplStep

abbrev pub max_qa_retries : ℕ
max_qa_retries = 3

-- The comment on a failed QA run
abbrev qa_failure : ℤ → Text → Text
qa_failure exit_code output_tail =
    codes "Static QA failed (exit "
    ++ (show_i64 exit_code
        ++ (codes "). Last output:"
            ++ newline ∷ newline ∷ codes "```"
            ++ newline ∷ output_tail
            ++ newline ∷ codes "```"))

abbrev row_round : Option IssueRow → ℕ
row_round none = 0
row_round (some issue) = issue.round

abbrev pub as_done : IssueOutcome → ImplStep
as_done outcome = impl_done outcome

-- The row of an issue that goes back to the Implementer after a failed QA
abbrev pub retried : ℕ → IssueRow → IssueRow
retried round issue = record issue {
  round = round + 1;
  phase = Phase.implementing;
  phase_substate = none;
  empty_round_streak = 0;
}

abbrev pub unstreaked : IssueRow → IssueRow
unstreaked issue = record issue { empty_round_streak = 0 }

-- The reset of the streak when an Implementer is spawned
unfoldable pub reset_streak : {X : Type 0} → Option IssueRow → Exec PumpError (World X) Unit
reset_streak none = pure tt
reset_streak (some issue) =
    if not (issue.empty_round_streak == 0)
    then db_step (upsert_issue (unstreaked issue))
    else pure tt

module _ {X : Type 0} (site : Site X) (issue_id : ℤ) (key : Text) where
  unfoldable pub retry_or_poison : Option IssueRow → Exec PumpError (World X) IssueOutcome
  retry_or_poison issue =
      if leb max_qa_retries (row_round issue + 1)
      then poison site key none (msg "QA still failing after the last attempt")
      else (do
        store_issue (retried (row_round issue)) issue
        transition_issue site key qa_gate Phase.implementing
            (msg "QA failed — blocker posted, re-spawning")
        pure requeued)

  unfoldable pub on_qa_fail : WorkspaceName → ℤ → Text → Exec PumpError (World X) IssueOutcome
  on_qa_fail name exit_code output_tail = do
    repo_step (
        site.repo.comment_write issue_id (codes "blocker") (qa_failure exit_code output_tail)
          (some worker_role_tag))
    mapping_err spawn_error (in_ext (forget site.jj site.files site.root name))
    issue ← db_step (get_issue key)
    retry_or_poison issue

  -- The `match` on the run of the gate
  unfoldable pub on_qa :
      WorkspaceName → Text → Result Text QaOutcome → Exec PumpError (World X) ImplStep
  on_qa name worker_uuid (ok qa_pass) = do
    note qa_result key (some worker_uuid) ((codes "result", codes "pass") ∷ [])
    unregister_worker site worker_uuid
    pure (qa_passed name)
  on_qa name worker_uuid (ok (qa_fail exit_code output_tail)) = do
    note qa_result key (some worker_uuid)
        ((codes "result", codes "fail") ∷ (codes "exit_code", show_i64 exit_code) ∷ [])
    unregister_worker site worker_uuid
    outcome ← on_qa_fail name exit_code output_tail
    pure (impl_done outcome)
  on_qa name worker_uuid (err source) = do
    note qa_result key (some worker_uuid)
        ((codes "result", codes "poison") ∷ (codes "detail", source) ∷ [])
    unregister_worker site worker_uuid
    outcome ← poison site key (some name) (msg "QA gate is broken/poison")
    pure (impl_done outcome)

  unfoldable pub change_differs : Text → Text → Exec PumpError (World X) Bool
  change_differs base change = do
    patch ←
        mapping_err (λ _. landing_failed (rebase_failed change base))
          (in_ext (site.diff base change))
    pure (not (is_blank patch))

  -- The guard against an empty commit, and QA
  unfoldable pub judge_change :
      WorkspaceName → Text → Text → Bool → Exec PumpError (World X) ImplStep
  judge_change name path worker_uuid false = do
    unregister_worker site worker_uuid
    outcome ← poison site key (some name) (msg "empty change — refusing to land")
    pure (impl_done outcome)
  judge_change name path worker_uuid true = do
    transition_issue site key Phase.implementing qa_gate (msg "worker committed; running QA")
    qa ← in_ext (site.run_qa path)
    on_qa name worker_uuid qa

  -- The `match` on the DONE sentinel
  unfoldable pub on_done :
      WorkspaceName
      → Text
      → Text
      → Result ArtifactError DoneSentinel
      → Exec PumpError (World X) ImplStep
  on_done name path worker_uuid (err source) = do
    note transition key (some worker_uuid) ((codes "error", codes "done_sentinel_missing") ∷ [])
    unregister_worker site worker_uuid
    outcome ← poison site key (some name) (msg "no valid DONE sentinel")
    pure (impl_done outcome)
  on_done name path worker_uuid (ok done) = do
    translate_artifacts site issue_id worker_uuid worker_role_tag done
    change ← change_revset site name issue_id
    differs ← change_differs worker_base_revset change
    judge_change name path worker_uuid differs

  unfoldable pub on_exit :
      WorkspaceName → Text → Text → Text → SpawnOutcome → Exec PumpError (World X) ImplStep
  on_exit name path worker_uuid pane still_running = do
    close site pane
    unregister_worker site worker_uuid
    outcome ← poison site key (some name) (msg "worker exceeded its timeout without exiting")
    pure (impl_done outcome)
  on_exit name path worker_uuid pane exited = do
    close site pane
    done ← verify_done site path
    on_done name path worker_uuid done

  unfoldable pub run_implementer_round : List Finding → Exec PumpError (World X) ImplStep
  run_implementer_round prior_findings = do
    round ← current_round site key
    issue ← db_step (get_issue key)
    reset_streak issue
    uuid ← fresh_uuid site
    let name : WorkspaceName = from_parts Phase.implementing key round uuid in
        (do
          path ← mapping_err spawn_error (in_ext (site.prepare name worker_base_revset))
          mapping_err prior_findings_error (in_ext (site.render_prior_findings path prior_findings))
          worker_uuid ← fresh_uuid site
          register_worker site key worker_uuid WorkerRole.implementer round path
          pane ← in_ext (site.launch WorkerRole.implementer issue_id key round path)
          note spawn key (some worker_uuid) (
              (codes "role", worker_role_tag)
              ∷ (codes "round", show_nat round)
              ∷ (codes "pane", pane)
              ∷ (codes "workspace", rendered name)
              ∷ [])
          outcome ← mapping_err spawn_error (in_ext (site.wait pane))
          on_exit name path worker_uuid pane outcome)
