-- ===== src/Pump/Gate.antt =====
-- The approval gate of `land`, and the park of an issue that a peer submitted.
pub mod Laws
use vetinari.Prelude.{
  Bool, true, false, not, ◌&&◌, Text, codes, msg, Option, none, some, List, [], ◌∷◌, if◌then◌else◌,
}
use vetinari.Prelude.Int.{ℤ}
use vetinari.Prelude.Exec.{Exec, pure, mapping_err, ◌>>=◌, ◌>>◌}
use vetinari.Error.{PumpError}
use vetinari.State.Enums.{Phase, converged, awaiting_inbound_approval, phase_enum, as_str}
use vetinari.State.Issues.{set_landing_change, set_phase}
use vetinari.World.{World}
use vetinari.World.Tracker.{CrosslinkRepo, IssueInfo}
use vetinari.Answer.{is_inbound}
use vetinari.Answer.Delivery.{db_step, repo_step, emit_answer}
use vetinari.Pump.Labels.{set_phase_label, has_label, inbound_approved_label}

pub data IssueOutcome : Type 0 where
  merged_issue pr_open_issue awaiting_human_merge_issue awaiting_inbound_approval_issue :
      IssueOutcome
  requeued orchestrator_error_issue : IssueOutcome

abbrev inbound_role_tag : Text
inbound_role_tag = codes "crossbridge"

module _ {X : Type 0} (repo : CrosslinkRepo X) where
  -- The reviewed change is stored before the phase flips.
  unfoldable pub park_for_inbound_approval : ℤ → Text → Text → Exec PumpError (World X) IssueOutcome
  park_for_inbound_approval issue_id key change = do
    db_step (set_landing_change key change)
    db_step (set_phase key awaiting_inbound_approval none)
    set_phase_label repo issue_id awaiting_inbound_approval
    emit_answer key (
        (codes "from_phase", as_str converged)
        ∷ (codes "to_phase", as_str awaiting_inbound_approval)
        ∷ (
          codes "reason",
          msg "xb:inbound (untrusted origin) — parked for human approval; never auto-lands",
        )
        ∷ (codes "gate", codes "REQ-SWARM-1")
        ∷ [])
    repo_step (
        repo.comment_write issue_id (codes "blocker")
          (msg "Parked at `phase:awaiting-inbound-approval`") (some inbound_role_tag))
    pure awaiting_inbound_approval_issue

  abbrev pub unapproved : IssueInfo → Bool
  unapproved info = is_inbound info.labels && not (has_label info.labels inbound_approved_label)

  -- `land` up to the choice of the mode; `past_gate` is the rest of it, in either mode.
  unfoldable pub land :
      (ℤ → Text → Text → Exec PumpError (World X) IssueOutcome)
      → ℤ
      → Text
      → Text
      → Exec PumpError (World X) IssueOutcome
  land past_gate issue_id key change = do
    info ← repo_step (repo.read_issue issue_id)
    if unapproved info
        then park_for_inbound_approval issue_id key change
        else past_gate issue_id key change
