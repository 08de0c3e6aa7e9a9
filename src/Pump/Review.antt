-- ===== src/Pump/Review.antt =====
-- `run_adversary_review`, `on_adversary_findings` and `on_clean_round` of
-- crates/orchestrator/src/pump.rs. `land` is an argument.
pub mod Laws
pub mod Converged
use vetinari.Prelude.{
  ℕ, zero, suc, ◌+◌, Bool, true, false, Text, codes, msg, Option, none, some, List, [], ◌∷◌, ◌++◌,
  length, leb, Result, ok, err, if◌then◌else◌,
}
use vetinari.Prelude.Int.{ℤ, show_nat}
use vetinari.Prelude.Exec.{Exec, pure, raise, lift, mapping_err, try, ◌>>=◌, ◌>>◌}
use vetinari.Error.{PumpError, spawn_error, adversary_error}
use vetinari.State.Enums.{
  Phase, qa_gate, adversary_review, converged, WorkerRole, EventKind, spawn, transition,
  convergence,
}
use vetinari.State.Rows.{IssueRow}
use vetinari.State.Issues.{get_issue, set_phase, upsert_issue}
use vetinari.World.{World, in_ext}
use vetinari.World.Tracker.{IssueInfo}
use vetinari.Answer.Delivery.{db_step, repo_step}
use vetinari.Names.{WorkspaceName, from_parts, rendered}
use vetinari.Artifacts.{ArtifactError}
use vetinari.Artifacts.Findings.{Finding}
use vetinari.Artifacts.Done.{DoneSentinel, findings_from_done}
use vetinari.Pump.Labels.{set_phase_label}
use vetinari.Pump.Gate.{IssueOutcome}
use vetinari.Pump.Site.{task_from_issue, Site, ReviewInputs, SpawnOutcome, exited, still_running}
use vetinari.Pump.Steps.{
  adversary_role_tag, worker_base_revset, note, store_issue, phases_payload, fresh_uuid, close,
  forget_quietly, transition_issue, poison, current_round, register_worker, unregister_worker,
  change_revset, verify_done, translate_artifacts,
}

-- A re-implementation comes with the findings so far.
pub data ReviewStep : Type 0 where
  review_done : IssueOutcome → ReviewStep
  reimplement : List Finding → ReviewStep

abbrev pub max_adversary_rounds : ℕ
max_adversary_rounds = 6

abbrev pub next_try : ℕ → IssueRow → IssueRow
next_try next_round issue = record issue {
  round = next_round;
  empty_round_streak = 0;
  phase_substate = none;
}

abbrev pub one_more_clean : IssueRow → IssueRow
one_more_clean issue = record issue { empty_round_streak = issue.empty_round_streak + 1 }

-- The streak after a clean round
abbrev pub streak_after : Option IssueRow → ℕ
streak_after none = 0
streak_after (some issue) = issue.empty_round_streak + 1

abbrev bool_text : Bool → Text
bool_text true = codes "true"
bool_text false = codes "false"

module _ {X : Type 0} (site : Site X) where
  unfoldable pub has_converged : ℕ → Bool
  has_converged empty_round_streak = leb site.n_rounds empty_round_streak

  unfoldable pub on_clean_round : Text → Exec PumpError (World X) Bool
  on_clean_round key = do
    issue ← db_step (get_issue key)
    store_issue one_more_clean issue
    note convergence key none (
        (codes "empty_round_streak", show_nat (streak_after issue))
        ∷ (codes "converged", bool_text (has_converged (streak_after issue)))
        ∷ [])
    pure (has_converged (streak_after issue))

module _ {X : Type 0} (site : Site X) (issue_id : ℤ) (key : Text) where
  unfoldable pub on_adversary_findings :
      ℕ → List Finding → List Finding → Exec PumpError (World X) ReviewStep
  on_adversary_findings round findings prior_findings =
      if leb max_adversary_rounds (round + 1)
      then (do
        outcome ← poison site key none (msg "still has adversary findings after the last round")
        pure (review_done outcome))
      else (do
        issue ← db_step (get_issue key)
        store_issue (next_try (round + 1)) issue
        db_step (set_phase key Phase.implementing none)
        set_phase_label site.repo issue_id Phase.implementing
        note transition key none (
            phases_payload adversary_review Phase.implementing
              (msg "adversary findings — re-implementing")
            ++ (codes "findings", show_nat (length findings))
              ∷ (codes "empty_round_streak", codes "0")
              ∷ (codes "round", show_nat (round + 1))
              ∷ [])
        pure (reimplement (prior_findings ++ findings)))

module _ {X : Type 0} (site : Site X) (key : Text) where
  -- An incomplete review: its worker and its workspace go, and the issue is poisoned.
  unfoldable pub incomplete : WorkspaceName → Text → Text → Exec PumpError (World X) ReviewStep
  incomplete adv_name worker_uuid reason = do
    unregister_worker site worker_uuid
    forget_quietly site adv_name
    outcome ← poison site key none reason
    pure (review_done outcome)

module _ {X : Type 0} (site : Site X) (impl_name : WorkspaceName) where
  -- A failed rendering is a fault of the pump; both workspaces go first.
  unfoldable pub on_render : WorkspaceName → Result Text (Unit {0}) → Exec PumpError (World X) Unit
  on_render adv_name (ok u) = pure tt
  on_render adv_name (err source) = do
    forget_quietly site adv_name
    forget_quietly site impl_name
    raise (adversary_error source)

module _ {X : Type 0} (site : Site X)
    (land : ℤ → Text → Text → Exec PumpError (World X) IssueOutcome) (issue_id : ℤ)
    (key change : Text) (impl_name : WorkspaceName) (prior_findings : List Finding)
    (task : Text) where
  -- What follows a clean round: `more` is the next turn of the loop.
  unfoldable pub on_convergence :
      Exec PumpError (World X) ReviewStep → Bool → Exec PumpError (World X) ReviewStep
  on_convergence more true = do
    transition_issue site key adversary_review converged
        (msg "adversary clean; convergence criterion met")
    outcome ← land issue_id key change
    pure (review_done outcome)
  on_convergence more false = more

  unfoldable pub on_findings :
      Exec PumpError (World X) ReviewStep
      → WorkspaceName
      → Text
      → ℕ
      → DoneSentinel
      → List Finding
      → Exec PumpError (World X) ReviewStep
  on_findings more adv_name worker_uuid round done [] = do
    forget_quietly site adv_name
    is_converged ← on_clean_round site key
    on_convergence more is_converged
  on_findings more adv_name worker_uuid round done (f ∷ fs) = do
    translate_artifacts site issue_id worker_uuid adversary_role_tag done
    forget_quietly site adv_name
    on_adversary_findings site issue_id key round (f ∷ fs) prior_findings

  unfoldable pub on_attested :
      Exec PumpError (World X) ReviewStep
      → WorkspaceName
      → Text
      → ℕ
      → DoneSentinel
      → Result ArtifactError (List Finding)
      → Exec PumpError (World X) ReviewStep
  on_attested more adv_name worker_uuid round done (err source) =
      incomplete site key adv_name worker_uuid (msg "no DONE-attested findings.jsonl")
  on_attested more adv_name worker_uuid round done (ok findings) = do
    unregister_worker site worker_uuid
    on_findings more adv_name worker_uuid round done findings

  unfoldable pub on_review_done :
      Exec PumpError (World X) ReviewStep
      → WorkspaceName
      → Text
      → ℕ
      → Result ArtifactError DoneSentinel
      → Exec PumpError (World X) ReviewStep
  on_review_done more adv_name worker_uuid round (err source) =
      incomplete site key adv_name worker_uuid (msg "adversary left no valid DONE sentinel")
  on_review_done more adv_name worker_uuid round (ok done) =
      on_attested more adv_name worker_uuid round done (findings_from_done site.formats done)

  unfoldable pub on_review_exit :
      Exec PumpError (World X) ReviewStep
      → WorkspaceName
      → Text
      → Text
      → ℕ
      → Text
      → SpawnOutcome
      → Exec PumpError (World X) ReviewStep
  on_review_exit more adv_name path worker_uuid round pane still_running = do
    close site pane
    incomplete site key adv_name worker_uuid (msg "adversary exceeded its timeout without exiting")
  on_review_exit more adv_name path worker_uuid round pane exited = do
    close site pane
    done ← verify_done site path
    on_review_done more adv_name worker_uuid round done

  abbrev inputs : Text → ReviewInputs
  inputs path = record {
    workspace = path;
    diff_from = change ++ b'-' ∷ [];
    diff_to = change;
    log_revset = change;
    prior_findings = prior_findings;
    task = task;
  }

  unfoldable pub review_turn :
      Exec PumpError (World X) ReviewStep → Exec PumpError (World X) ReviewStep
  review_turn more = do
    round ← current_round site key
    uuid ← fresh_uuid site
    let adv_name : WorkspaceName = from_parts adversary_review key round uuid in
        (do
          path ← mapping_err spawn_error (in_ext (site.prepare adv_name worker_base_revset))
          rendering ← try {F = PumpError} (in_ext (site.render_inputs (inputs path)))
          on_render site impl_name adv_name rendering
          worker_uuid ← fresh_uuid site
          register_worker site key worker_uuid WorkerRole.adversary round path
          pane ← in_ext (site.launch WorkerRole.adversary issue_id key round path)
          note spawn key (some worker_uuid) (
              (codes "role", adversary_role_tag)
              ∷ (codes "round", show_nat round)
              ∷ (codes "pane", pane)
              ∷ (codes "workspace", rendered adv_name)
              ∷ [])
          outcome ← mapping_err spawn_error (in_ext (site.wait pane))
          on_review_exit more adv_name path worker_uuid round pane outcome)

  -- `for _ in 0..MAX_ADVERSARY_ROUNDS`
  unfoldable pub review_turns : ℕ → Exec PumpError (World X) ReviewStep
  review_turns zero = do
    outcome ← poison site key none (msg "did not converge within the adversary rounds")
    pure (review_done outcome)
  review_turns (suc n) = review_turn (review_turns n)

module _ {X : Type 0} (site : Site X)
    (land : ℤ → Text → Text → Exec PumpError (World X) IssueOutcome) (issue_id : ℤ)
    (key : Text) where
  unfoldable pub run_adversary_review :
      WorkspaceName → List Finding → Exec PumpError (World X) ReviewStep
  run_adversary_review impl_name prior_findings = do
    change ← change_revset site impl_name issue_id
    transition_issue site key qa_gate adversary_review (msg "QA passed — adversary review")
    forget_quietly site impl_name
    info ← repo_step (site.repo.read_issue issue_id)
    review_turns site land issue_id key change impl_name prior_findings
        (task_from_issue info.title info.description) max_adversary_rounds
