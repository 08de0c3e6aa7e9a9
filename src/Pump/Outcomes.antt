-- ===== src/Pump/Outcomes.antt =====
-- Where a returned outcome of the build pump leaves its issue.
use mathlib.Core.Option.{some-injective}
use vetinari.Prelude.{ℕ, ◌%◌, ◌^◌, ◌≡◌, ap, ◌∙◌, Text, Option, none, some}
use vetinari.Prelude.Exec.Returns.{Leads, Leads-bind, Leads-pure}
use vetinari.State.Enums.{Phase}
use vetinari.State.Rows.{IssueRow}
use vetinari.World.{World}
use vetinari.Phases.RowHas.{RowHas, Got, Leads-get, has-upsert_lem}
use vetinari.Names.{WorkspaceName}
use vetinari.Pump.Gate.{
  IssueOutcome, merged_issue, pr_open_issue, awaiting_human_merge_issue,
  awaiting_inbound_approval_issue, requeued, orchestrator_error_issue,
}
use vetinari.Pump.Site.{Site}
use vetinari.Pump.Steps.{store_issue, poison, current_round, round_of}
use vetinari.Pump.Steps.Laws.{StandsAt, poison-Leads}

abbrev pub outcome_phase : IssueOutcome → Phase
outcome_phase merged_issue = Phase.merged
outcome_phase pr_open_issue = Phase.pr_open
outcome_phase awaiting_human_merge_issue = Phase.awaiting_human_merge
outcome_phase awaiting_inbound_approval_issue = Phase.awaiting_inbound_approval
outcome_phase requeued = Phase.implementing
outcome_phase orchestrator_error_issue = Phase.orchestrator_error

-- The issue has a row, at the outcome's phase and with no substate.
abbrev pub Ended : {X : Type 0} → Text → IssueOutcome → World X → Type 0
Ended k o = RowHas k (StandsAt (outcome_phase o))

abbrev pub RoundIs : ℕ → IssueRow → Type 0
RoundIs n r = r.round ≡ n

module _ {X : Type 0} (site : Site X) (k : Text) where
  pub poison-Ended :
      (P : IssueRow → Type 0) (name : Option WorkspaceName) (reason : Text)
      → Leads (RowHas k P) (λ o w. Ended k o w) (poison site k name reason)
  poison-Ended P name reason = record {
    at = λ w h o e. let (is, there) = (poison-Leads site k P name reason).at w h o e in rw is there;
  }

  pub round-Leads :
      (n : ℕ)
      → Leads
          (RowHas k (RoundIs n))
          (λ m w. (m ≡ n % 2 ^ 32) × RowHas k (RoundIs n) w)
          (current_round site k)
  unfolding current_round
  round-Leads n = Leads-bind _ _ (Leads-get k (RoundIs n)) (λ row. Leads-pure (round_of row) (λ w g.
      (
        ap round_of g.read ∙ ap (λ (m : ℕ). m % 2 ^ 32) g.sat,
        record { holds = (g.issue, g.found, g.sat) },
      )))

-- Storing the row that was read, changed
pub store-Leads :
    {X : Type 0} (k : Text) (P Q : IssueRow → Type 0) (f : IssueRow → IssueRow)
    (o : Option IssueRow)
    → ((r : IssueRow) → o ≡ some r → P r → ((f r).issue_id ≡ r.issue_id) × Q (f r))
    → Leads {S = World X} (Got k P o) (λ u w. RowHas k Q w) (store_issue f o)
unfolding store_issue
store-Leads k P Q f none step = record { at = λ w g u e. cc (g.read) }
store-Leads k P Q f (some i) step =
    has-upsert_lem k P Q (some i) (f i) (λ r e h. rw (some-injective i r e) (step r e h))
