-- ===== src/Pump/Merge.antt =====
-- `resolve_conflict_with_merger`, `park_for_human` and `post_conflict_blocker` of
-- crates/orchestrator/src/pump.rs.
pub mod Laws
pub mod Once
pub mod Tests
use vetinari.Prelude.{
  ℕ, ◌+◌, Bool, true, false, Text, codes, msg, Option, none, some, List, [], ◌∷◌, ◌++◌, leb, Result,
  ok, err, if◌then◌else◌,
}
use vetinari.Prelude.Int.{ℤ, show_nat, show_i64}
use vetinari.Prelude.Exec.{Exec, pure, raise, lift, mapping_err, try, ◌>>=◌, ◌>>◌}
use vetinari.Error.{PumpError, spawn_error, landing_failed, main_bookmark_unresolved}
use vetinari.State.Enums.{Phase, WorkerRole, EventKind, spawn, transition, qa_result}
use vetinari.State.Rows.{IssueRow}
use vetinari.State.Issues.{get_issue, set_phase, upsert_issue}
use vetinari.World.{World, in_ext}
use vetinari.Manager.{bookmark_target, resolve_change}
use vetinari.Answer.Delivery.{db_step, repo_step}
use vetinari.Names.{WorkspaceName, from_parts, rendered}
use vetinari.Artifacts.{ArtifactError}
use vetinari.Artifacts.Done.{DoneSentinel}
use vetinari.Landing.{
  LandingOutcome, merged_outcome, pr_open_outcome, rebase_conflict, awaiting_human_merge_outcome,
  main_bookmark,
}
use vetinari.Landing.Local.{retry_land_after_merge}
use vetinari.Pump.Labels.{set_phase_label}
use vetinari.Pump.Gate.{IssueOutcome, merged_issue, awaiting_human_merge_issue}
use vetinari.Pump.Site.{
  Site, ConflictContext, SpawnOutcome, exited, still_running, QaOutcome, qa_pass, qa_fail,
}
use vetinari.Pump.Steps.{
  merger_role_tag, note, phases_payload, store_issue, fresh_uuid, close, forget_quietly,
  current_round, register_worker, unregister_worker, change_revset, verify_done,
}

abbrev pub max_merger_spawns : ℕ
max_merger_spawns = 1

abbrev pub retries_of : Option IssueRow → ℕ
retries_of none = 0
retries_of (some issue) = issue.landing_retry_count

abbrev pub with_retry : ℕ → IssueRow → IssueRow
with_retry count issue = record issue { landing_retry_count = count + 1 }

module _ {X : Type 0} (site : Site X) (issue_id : ℤ) (key : Text) where
  unfoldable pub post_conflict_blocker : Text → Exec PumpError (World X) Unit
  post_conflict_blocker reason = do
    repo_step (
        site.repo.comment_write issue_id (codes "blocker")
          (msg "Landing parked at `phase:awaiting-human-merge`: " ++ reason) (some merger_role_tag))
    pure tt

  unfoldable pub park_for_human : Text → Exec PumpError (World X) IssueOutcome
  park_for_human reason = do
    db_step (set_phase key Phase.awaiting_human_merge none)
    set_phase_label site.repo issue_id Phase.awaiting_human_merge
    note transition key none (phases_payload Phase.landing Phase.awaiting_human_merge reason)
    post_conflict_blocker reason
    pure awaiting_human_merge_issue

  -- The Merger's workspace goes, and the issue is parked.
  unfoldable pub merge_failed : WorkspaceName → Text → Exec PumpError (World X) IssueOutcome
  merge_failed name reason = do forget_quietly site name; park_for_human reason

  -- The `match` on the retried landing, and the removal of the workspace: a label or a comment that
  -- fails returns at once, a park that fails after the removal.
  unfoldable pub on_retry : WorkspaceName → LandingOutcome → Exec PumpError (World X) IssueOutcome
  on_retry name merged_outcome = do
    set_phase_label site.repo issue_id Phase.merged
    forget_quietly site name
    pure merged_issue
  on_retry name awaiting_human_merge_outcome = do
    set_phase_label site.repo issue_id Phase.awaiting_human_merge
    post_conflict_blocker (msg "retry landing was not a fast-forward after merge")
    forget_quietly site name
    pure awaiting_human_merge_issue
  on_retry name (rebase_conflict commit) = do
    result ← try {F = PumpError} (park_for_human (msg "retry landing unexpectedly re-conflicted"))
    forget_quietly site name
    lift result
  on_retry name (pr_open_outcome url) = do
    result ← try {F = PumpError} (park_for_human (msg "retry landing unexpectedly opened a PR"))
    forget_quietly site name
    lift result

  unfoldable pub retry_landing : WorkspaceName → Text → Exec PumpError (World X) IssueOutcome
  retry_landing name merged = do
    land ← mapping_err landing_failed (retry_land_after_merge site.jj key merged)
    on_retry name land

  unfoldable pub on_merged_qa :
      WorkspaceName → Text → Result Text QaOutcome → Exec PumpError (World X) IssueOutcome
  on_merged_qa name merged (ok qa_pass) = do
    note qa_result key none
        ((codes "result", codes "pass") ∷ (codes "phase", codes "post_merge") ∷ [])
    retry_landing name merged
  on_merged_qa name merged (ok (qa_fail exit_code output_tail)) =
      merge_failed name (msg "post-merge QA failed (exit " ++ show_i64 exit_code)
  on_merged_qa name merged (err source) = merge_failed name (msg "post-merge QA is broken/poison")

  unfoldable pub on_resolved :
      WorkspaceName → Text → Text → Bool → Exec PumpError (World X) IssueOutcome
  on_resolved name path merged true =
      merge_failed name (msg "Merger left the tree conflicted — unresolved merge")
  on_resolved name path merged false = do
    qa ← in_ext (site.run_qa path)
    on_merged_qa name merged qa

  unfoldable pub on_merger_done :
      WorkspaceName
      → Text
      → Text
      → Result ArtifactError DoneSentinel
      → Exec PumpError (World X) IssueOutcome
  on_merger_done name path worker_uuid (err source) = do
    unregister_worker site worker_uuid
    merge_failed name (msg "Merger left no valid DONE sentinel")
  on_merger_done name path worker_uuid (ok done) = do
    unregister_worker site worker_uuid
    _ ← try {F = PumpError} (in_ext (site.snapshot_workspace name))
    merged ← change_revset site name issue_id
    change ← mapping_err landing_failed (in_ext (resolve_change site.jj merged))
    on_resolved name path merged change.has_conflict

  unfoldable pub on_merger_exit :
      WorkspaceName → Text → Text → Text → SpawnOutcome → Exec PumpError (World X) IssueOutcome
  on_merger_exit name path worker_uuid pane still_running = do
    close site pane
    unregister_worker site worker_uuid
    merge_failed name (msg "Merger exceeded its timeout without exiting")
  on_merger_exit name path worker_uuid pane exited = do
    close site pane
    done ← verify_done site path
    on_merger_done name path worker_uuid done

  unfoldable pub target_or_forget : WorkspaceName → Option Text → Exec PumpError (World X) Text
  target_or_forget name (some commit) = pure commit
  target_or_forget name none = do
    forget_quietly site name
    raise (main_bookmark_unresolved issue_id)

  unfoldable pub on_conflict_render :
      WorkspaceName → Result PumpError (Unit {0}) → Exec PumpError (World X) Unit
  on_conflict_render name (ok u) = pure tt
  on_conflict_render name (err source) = do forget_quietly site name; raise source

  unfoldable pub run_merger : Text → Text → Exec PumpError (World X) IssueOutcome
  run_merger change rebased_commit = do
    round ← current_round site key
    uuid ← fresh_uuid site
    let name : WorkspaceName = from_parts Phase.landing key round uuid in
        (do
          path ← mapping_err spawn_error (in_ext (site.prepare name rebased_commit))
          main_now ← mapping_err landing_failed (in_ext (bookmark_target site.jj main_bookmark))
          target_commit ← target_or_forget name main_now
          rendering ← try {F = PumpError} (
              in_ext (
                site.render_conflict_input (record {
                  workspace = path;
                  target_commit = target_commit;
                  change_revset = change;
                  conflicted_commit = rebased_commit;
                })))
          on_conflict_render name rendering
          worker_uuid ← fresh_uuid site
          register_worker site key worker_uuid WorkerRole.merger round path
          pane ← in_ext (site.launch WorkerRole.merger issue_id key round path)
          note spawn key (some worker_uuid) (
              (codes "role", merger_role_tag)
              ∷ (codes "round", show_nat round)
              ∷ (codes "pane", pane)
              ∷ (codes "workspace", rendered name)
              ∷ [])
          outcome ← mapping_err spawn_error (in_ext (site.wait pane))
          on_merger_exit name path worker_uuid pane outcome)

  -- One Merger for an issue; the count is stored before it is spawned. `row` is the row read twice.
  unfoldable pub resolve_conflict_with_merger : Text → Text → Exec PumpError (World X) IssueOutcome
  resolve_conflict_with_merger change rebased_commit = do
    row ← db_step (get_issue key)
    if leb max_merger_spawns (retries_of row)
        then park_for_human (msg "rebase still conflicts after a Merger attempt")
        else (do
          issue ← db_step (get_issue key)
          store_issue (with_retry (retries_of row)) issue
          run_merger change rebased_commit)
