-- ===== src/Pump/Drive.antt =====
-- `drive_issue` of crates/orchestrator/src/pump.rs: the loop of implementation and review. It runs on
-- fuel, and returns `none` if that runs out.
pub mod Laws
pub mod Tests
use mathlib.Core.Option
use vetinari.Prelude.{ℕ, zero, suc, Text, codes, msg, Option, none, some, List}
use vetinari.Prelude.Int.{ℤ, show_i64}
use vetinari.Prelude.Exec.{Exec, pure, ◌>>=◌, ◌>>◌}
use vetinari.Error.{PumpError}
use vetinari.State.Enums.{Phase, graphed}
use vetinari.State.Issues.{get_issue}
use vetinari.World.{World}
use vetinari.Answer.Delivery.{db_step}
use vetinari.Artifacts.Findings.{Finding}
use vetinari.Pump.Gate.{IssueOutcome}
use vetinari.Pump.Site.{Site}
use vetinari.Pump.Steps.{transition_issue, phase_of, rehydrate_prior_findings}
use vetinari.Pump.Implement.{ImplStep, impl_done, qa_passed, run_implementer_round}
use vetinari.Pump.Review.{ReviewStep, review_done, reimplement, run_adversary_review}
use vetinari.Pump.Land

module _ {X : Type 0} (site : Site X)
    (land : ℤ → Text → Text → Exec PumpError (World X) IssueOutcome) (issue_id : ℤ)
    (key : Text) where
  -- `loop` is the next turn.
  unfoldable pub after_review :
      (List Finding → Exec PumpError (World X) (Option IssueOutcome))
      → ReviewStep
      → Exec PumpError (World X) (Option IssueOutcome)
  after_review loop (review_done outcome) = pure (some outcome)
  after_review loop (reimplement prior_findings) = loop prior_findings

  unfoldable pub after_implement :
      (List Finding → Exec PumpError (World X) (Option IssueOutcome))
      → List Finding
      → ImplStep
      → Exec PumpError (World X) (Option IssueOutcome)
  after_implement loop prior_findings (impl_done outcome) = pure (some outcome)
  after_implement loop prior_findings (qa_passed name) = do
    step ← run_adversary_review site land issue_id key name prior_findings
    after_review loop step

  unfoldable pub drive_loop : ℕ → List Finding → Exec PumpError (World X) (Option IssueOutcome)
  drive_loop zero prior_findings = pure none
  drive_loop (suc fuel) prior_findings = do
    step ← run_implementer_round site issue_id key prior_findings
    after_implement (drive_loop fuel) prior_findings step

module _ {X : Type 0} (site : Site X)
    (land : ℤ → Text → Text → Exec PumpError (World X) IssueOutcome) (fuel : ℕ) (issue_id : ℤ) where
  unfoldable pub drive_issue_with : Exec PumpError (World X) (Option IssueOutcome)
  drive_issue_with = do
    row ← db_step (get_issue (show_i64 issue_id))
    transition_issue site (show_i64 issue_id) (phase_of graphed row) Phase.implementing
        (msg "build pump pickup")
    prior_findings ← rehydrate_prior_findings site issue_id
    drive_loop site land issue_id (show_i64 issue_id) fuel prior_findings

-- `drive_issue` lands by `land`.
unfoldable pub drive_issue :
    {X : Type 0} → Site X → ℕ → ℤ → Exec PumpError (World X) (Option IssueOutcome)
drive_issue site fuel issue_id = drive_issue_with site (Land.land site) fuel issue_id
