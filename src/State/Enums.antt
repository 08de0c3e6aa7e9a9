-- ===== src/State/Enums.antt =====
-- The string-backed enums of crates/orchestrator/src/state.rs.
pub mod Laws
use vetinari.Prelude.{Bool, true, false, List, [], ◌∷◌, Option, Text, codes, text_eq, find}

-- What `str_enum!` generates for an enum: its arms in the order written.
pub record StrEnum (A : Type 0) : Type 0 where
  pub variants : List A
  pub as_str : A → Text

-- `from_db_str`: the arms are tried in order.
unfoldable pub from_db_str : {A : Type 0} ⦃e : StrEnum A⦄ → Text → Option A
from_db_str ⦃e⦄ s = find (λ v. text_eq s (e.as_str v)) e.variants

abbrev pub as_str : {A : Type 0} ⦃e : StrEnum A⦄ → A → Text
as_str ⦃e⦄ = e.as_str

pub data Phase : Type 0 where
  graphed implementing qa_gate adversary_review converged landing merged pr_open : Phase
  awaiting_human_merge awaiting_inbound_approval orchestrator_error : Phase

abbrev phase_token : Phase → Text
phase_token graphed = codes "graphed"
phase_token implementing = codes "implementing"
phase_token qa_gate = codes "qa-gate"
phase_token adversary_review = codes "adversary-review"
phase_token converged = codes "converged"
phase_token landing = codes "landing"
phase_token merged = codes "merged"
phase_token pr_open = codes "pr-open"
phase_token awaiting_human_merge = codes "awaiting-human-merge"
phase_token awaiting_inbound_approval = codes "awaiting-inbound-approval"
phase_token orchestrator_error = codes "orchestrator-error"

instance abbrev pub phase_enum : StrEnum Phase
phase_enum = record {
  variants =
      graphed ∷ implementing ∷ qa_gate ∷ adversary_review ∷ converged ∷ landing ∷ merged ∷ pr_open
      ∷ awaiting_human_merge ∷ awaiting_inbound_approval ∷ orchestrator_error ∷ [];
  as_str = phase_token;
}

unfoldable pub is_drivable : Phase → Bool
is_drivable graphed = true
is_drivable implementing = true
is_drivable qa_gate = true
is_drivable _ = false

unfoldable pub is_terminal : Phase → Bool
is_terminal merged = true
is_terminal pr_open = true
is_terminal awaiting_human_merge = true
is_terminal awaiting_inbound_approval = true
is_terminal orchestrator_error = true
is_terminal _ = false

pub data PhaseSubstate : Type 0 where
  qa_running qa_passed_pending_transition rebase_started rebase_done_bookmark_pending :
      PhaseSubstate
  merging bookmark_moved_complete push_started push_done_pr_pending pr_created : PhaseSubstate
  answer_pending answer_sent answer_unreachable : PhaseSubstate

abbrev substate_token : PhaseSubstate → Text
substate_token qa_running = codes "qa_running"
substate_token qa_passed_pending_transition = codes "qa_passed_pending_transition"
substate_token rebase_started = codes "rebase_started"
substate_token rebase_done_bookmark_pending = codes "rebase_done_bookmark_pending"
substate_token merging = codes "merging"
substate_token bookmark_moved_complete = codes "bookmark_moved_complete"
substate_token push_started = codes "push_started"
substate_token push_done_pr_pending = codes "push_done_pr_pending"
substate_token pr_created = codes "pr_created"
substate_token answer_pending = codes "answer_pending"
substate_token answer_sent = codes "answer_sent"
substate_token answer_unreachable = codes "answer_unreachable"

instance abbrev pub substate_enum : StrEnum PhaseSubstate
substate_enum = record {
  variants =
      qa_running ∷ qa_passed_pending_transition ∷ rebase_started ∷ rebase_done_bookmark_pending
      ∷ merging ∷ bookmark_moved_complete ∷ push_started ∷ push_done_pr_pending ∷ pr_created
      ∷ answer_pending ∷ answer_sent ∷ answer_unreachable ∷ [];
  as_str = substate_token;
}

pub data ConvergenceMode : Type 0 where
  n_rounds judge_mode : ConvergenceMode

instance abbrev pub convergence_enum : StrEnum ConvergenceMode
convergence_enum = record {
  variants = n_rounds ∷ judge_mode ∷ [];
  as_str = elim [ n_rounds ↦ codes "n-rounds" | judge_mode ↦ codes "judge" ];
}

pub data WorkerRole : Type 0 where
  implementer adversary judge merger : WorkerRole

instance abbrev pub role_enum : StrEnum WorkerRole
role_enum = record {
  variants = implementer ∷ adversary ∷ judge ∷ merger ∷ [];
  as_str = elim [
    | implementer ↦ codes "implementer"
    | adversary ↦ codes "adversary"
    | judge ↦ codes "judge"
    | merger ↦ codes "merger"
  ];
}

pub data EventKind : Type 0 where
  spawn transition qa_result watchdog_kill convergence : EventKind

instance abbrev pub event_enum : StrEnum EventKind
event_enum = record {
  variants = spawn ∷ transition ∷ qa_result ∷ watchdog_kill ∷ convergence ∷ [];
  as_str = elim [
    | spawn ↦ codes "spawn"
    | transition ↦ codes "transition"
    | qa_result ↦ codes "qa_result"
    | watchdog_kill ↦ codes "watchdog_kill"
    | convergence ↦ codes "convergence"
  ];
}
