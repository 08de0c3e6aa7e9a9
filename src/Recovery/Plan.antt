-- ===== src/Recovery/Plan.antt =====
-- The decision table of recovery: `plan_recovery` of crates/orchestrator/src/recovery.rs.
pub mod Table
pub mod Tests
use vetinari.Prelude.{
  ◌≡◌, Bool, true, false, not, Text, codes, msg, Option, none, some, Result, ok, err, ◌++◌,
  if◌then◌else◌,
}
use vetinari.Error.{RecoveryError, unknown_substate, state_db_inconsistent}
use vetinari.State.Enums.{
  Phase, graphed, implementing, qa_gate, adversary_review, converged, landing, phase_enum,
  is_terminal, PhaseSubstate, qa_running, qa_passed_pending_transition, rebase_started,
  rebase_done_bookmark_pending, merging, bookmark_moved_complete, push_started,
  push_done_pr_pending, pr_created, answer_pending, answer_sent, answer_unreachable, substate_enum,
  as_str, from_db_str,
}
use vetinari.State.Rows.{IssueRow}

pub data RecoveryPlan : Type 0 where
  no_action clean_crashed_worker replay_done_then_redrive : RecoveryPlan
  resume_landing resume_remote_landing : PhaseSubstate → RecoveryPlan
  start_landing complete_answer_close : RecoveryPlan

abbrev is_answer : Option PhaseSubstate → Bool
is_answer (some answer_pending) = true
is_answer (some answer_sent) = true
is_answer (some answer_unreachable) = true
is_answer _ = false

unfoldable pub carries_answer_substate : IssueRow → Bool
carries_answer_substate issue = elim issue.phase_substate [
  | none ↦ false
  | some raw ↦ is_answer (from_db_str raw)
]

abbrev inconsistent : Text → Result RecoveryError RecoveryPlan
inconsistent detail = err (state_db_inconsistent detail)

abbrev shown : Option PhaseSubstate → Text
shown none = codes "<none>"
shown (some s) = as_str s

-- The answer substates ride a terminal phase: the first `match`.
abbrev plan_answer : Phase → PhaseSubstate → RecoveryPlan → Result RecoveryError RecoveryPlan
plan_answer phase sub plan =
    if not (is_terminal phase)
    then inconsistent (
        msg "answer substate `"
        ++ as_str sub
        ++ msg "` on non-terminal phase `"
        ++ as_str phase
        ++ msg "` — impossible pairing")
    else ok plan

abbrev no_combination : Phase → Option PhaseSubstate → Result RecoveryError RecoveryPlan
no_combination phase sub = inconsistent (
    msg "phase `"
    ++ as_str phase
    ++ msg "` with substate `"
    ++ shown sub
    ++ msg "` is not a recognized recoverable combination")

-- The `match` on a phase that is not terminal.
unfoldable pub plan_open :
    Phase → Option PhaseSubstate → Bool → Bool → Result RecoveryError RecoveryPlan
plan_open graphed none has_worker has_done = ok no_action
plan_open implementing none has_worker has_done =
    if not has_worker
    then ok no_action
    else if has_done
    then ok replay_done_then_redrive
    else ok clean_crashed_worker
plan_open qa_gate none has_worker has_done = ok clean_crashed_worker
plan_open qa_gate (some qa_running) has_worker has_done = ok clean_crashed_worker
plan_open qa_gate (some qa_passed_pending_transition) has_worker has_done = ok clean_crashed_worker
plan_open landing (some rebase_started) has_worker has_done = ok (resume_landing rebase_started)
plan_open landing (some rebase_done_bookmark_pending) has_worker has_done =
    ok (resume_landing rebase_done_bookmark_pending)
plan_open landing (some merging) has_worker has_done = ok (resume_landing merging)
plan_open landing (some bookmark_moved_complete) has_worker has_done =
    ok (resume_landing bookmark_moved_complete)
plan_open landing (some push_started) has_worker has_done = ok (resume_remote_landing push_started)
plan_open landing (some push_done_pr_pending) has_worker has_done =
    ok (resume_remote_landing push_done_pr_pending)
plan_open landing (some pr_created) has_worker has_done = ok (resume_remote_landing pr_created)
plan_open converged none has_worker has_done = ok start_landing
plan_open adversary_review none has_worker has_done = ok clean_crashed_worker
plan_open phase sub has_worker has_done = no_combination phase sub

-- The terminal phases are left alone, whatever substate they carry.
abbrev plan_past_answers :
    Phase → Option PhaseSubstate → Bool → Bool → Result RecoveryError RecoveryPlan
plan_past_answers phase sub has_worker has_done =
    if is_terminal phase then ok no_action else plan_open phase sub has_worker has_done

-- The plan for a substate that parsed, or for none.
unfoldable pub plan_known :
    Phase → Option PhaseSubstate → Bool → Bool → Result RecoveryError RecoveryPlan
plan_known phase (some answer_pending) has_worker has_done =
    plan_answer phase answer_pending no_action
plan_known phase (some answer_unreachable) has_worker has_done =
    plan_answer phase answer_unreachable no_action
plan_known phase (some answer_sent) has_worker has_done =
    plan_answer phase answer_sent complete_answer_close
plan_known phase sub has_worker has_done = plan_past_answers phase sub has_worker has_done

abbrev plan_parsed :
    Phase → Text → Option PhaseSubstate → Bool → Bool → Result RecoveryError RecoveryPlan
plan_parsed phase raw none has_worker has_done = err (unknown_substate (as_str phase) raw)
plan_parsed phase raw (some sub) has_worker has_done =
    plan_known phase (some sub) has_worker has_done

unfoldable pub plan_recovery : Phase → Option Text → Bool → Bool → Result RecoveryError RecoveryPlan
plan_recovery phase none has_worker has_done = plan_known phase none has_worker has_done
plan_recovery phase (some raw) has_worker has_done =
    plan_parsed phase raw (from_db_str raw) has_worker has_done
