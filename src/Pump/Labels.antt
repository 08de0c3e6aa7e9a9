-- ===== src/Pump/Labels.antt =====
-- The labels of an issue: which of them a peer may not set, their removal on adoption, and the mirror
-- of the phase.
pub mod Laws
use vetinari.Prelude.{
  ℕ, suc, Bool, true, false, not, ◌&&◌, ◌||◌, Text, codes, msg, text_eq, starts_with, Option, none,
  some, List, [], ◌∷◌, ◌++◌, any, if◌then◌else◌,
}
use vetinari.Prelude.Int.{ℤ, show_i64}
use vetinari.Prelude.Exec.{Exec, pure, mapping_err, ◌>>=◌, ◌>>◌}
use vetinari.Error.{PumpError}
use vetinari.State.Enums.{Phase, phase_enum, as_str}
use vetinari.World.{World}
use vetinari.World.Tracker.{CrosslinkRepo, IssueInfo}
use vetinari.Answer.Delivery.{repo_step, emit_answer}

abbrev pub phase_label_prefix : Text
phase_label_prefix = codes "phase:"

abbrev pub graphed_label : Text
graphed_label = codes "phase:graphed"

abbrev pub inbound_approved_label : Text
inbound_approved_label = codes "inbound-approved:land"

abbrev pub followup_proposed_label : Text
followup_proposed_label = codes "followup:proposed"

abbrev pub xb_status_prefix : Text
xb_status_prefix = codes "xb-status:"

abbrev pub xb_status_open_label : Text
xb_status_open_label = codes "xb-status:open"

unfoldable pub is_peer_forbidden_inbound_label : Text → Bool
is_peer_forbidden_inbound_label label =
    text_eq label inbound_approved_label
    || (text_eq label followup_proposed_label
        || (starts_with phase_label_prefix label && not (text_eq label graphed_label)
            || starts_with xb_status_prefix label && not (text_eq label xb_status_open_label)))

unfoldable pub has_label : List Text → Text → Bool
has_label labels label = any (λ l. text_eq l label) labels

module _ {X : Type 0} (repo : CrosslinkRepo X) where
  -- The number of labels that were removed; each removal is followed by its event.
  unfoldable pub sanitize_inbound_labels : ℤ → List Text → Exec PumpError (World X) ℕ
  sanitize_inbound_labels issue_id [] = pure 0
  sanitize_inbound_labels issue_id (label ∷ labels) =
      if not (is_peer_forbidden_inbound_label label)
      then sanitize_inbound_labels issue_id labels
      else (do
        repo_step (repo.label_remove issue_id label)
        emit_answer (show_i64 issue_id) (
            (codes "inbound_sanitize", codes "stripped_peer_label")
            ∷ (codes "label", label)
            ∷ (
              codes "reason",
              msg "untrusted xb:inbound origin — a peer must not set this privileged label",
            )
            ∷ [])
        stripped ← sanitize_inbound_labels issue_id labels
        pure (suc stripped))

  unfoldable pub remove_stale : ℤ → Text → List Text → Exec PumpError (World X) Unit
  remove_stale issue_id want [] = pure tt
  remove_stale issue_id want (label ∷ labels) =
      if starts_with phase_label_prefix label && not (text_eq label want)
      then (do repo_step (repo.label_remove issue_id label); remove_stale issue_id want labels)
      else remove_stale issue_id want labels

  unfoldable pub set_phase_label : ℤ → Phase → Exec PumpError (World X) Unit
  set_phase_label issue_id phase = do
    info ← repo_step (repo.read_issue issue_id)
    remove_stale issue_id (phase_label_prefix ++ as_str phase) info.labels
    repo_step (repo.label_add issue_id (phase_label_prefix ++ as_str phase))
    pure tt
