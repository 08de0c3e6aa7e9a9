-- ===== src/Recovery/Plan/Table.antt =====
-- The recovery table as the design states it, and that the decision function computes it.
use vetinari.Prelude.{
  ◌≡◌, refl, Bool, true, false, Text, Option, none, some, ok, ok-injective, ◌↔◌, ◌⊎◌, inl, inr, sym,
  ◌∙◌, ap, Bool-cases, Option-cases,
}
use mathlib.Core.Path.{subst}
use vetinari.State.Enums.{
  Phase, graphed, implementing, qa_gate, adversary_review, converged, landing, is_terminal,
  is_drivable, PhaseSubstate, qa_running, qa_passed_pending_transition, rebase_started,
  rebase_done_bookmark_pending, merging, bookmark_moved_complete, push_started,
  push_done_pr_pending, pr_created, answer_pending, answer_sent, answer_unreachable, substate_enum,
  as_str, from_db_str,
}
use vetinari.State.Issues.{substate_column}
use vetinari.State.Enums.Laws.{enums_round_trip}
use vetinari.Recovery.Plan.{
  RecoveryPlan, no_action, clean_crashed_worker, replay_done_then_redrive, resume_landing,
  resume_remote_landing, start_landing, complete_answer_close, plan_recovery, plan_known, plan_open,
}

-- The substates of the two landing machines.
pub data IsLocal : PhaseSubstate → Type 0 where
  is_started : IsLocal rebase_started
  is_rebased : IsLocal rebase_done_bookmark_pending
  is_merging : IsLocal merging
  is_moved : IsLocal bookmark_moved_complete

pub data IsRemote : PhaseSubstate → Type 0 where
  is_pushing : IsRemote push_started
  is_pushed : IsRemote push_done_pr_pending
  is_created : IsRemote pr_created

pub data IsQa : Option PhaseSubstate → Type 0 where
  at_gate : IsQa none
  at_run : IsQa (some qa_running)
  at_pass : IsQa (some qa_passed_pending_transition)

-- One constructor for each line of the table: what is found, and what is done about it.
pub data Recovers : Phase → Option PhaseSubstate → Bool → Bool → RecoveryPlan → Type 0 where
  waiting : {w d : Bool} → Recovers graphed none w d no_action
  requeued : {d : Bool} → Recovers implementing none false d no_action
  finished : Recovers implementing none true true replay_done_then_redrive
  crashed : Recovers implementing none true false clean_crashed_worker
  in_qa :
      {s : Option PhaseSubstate} {w d : Bool} → IsQa s → Recovers qa_gate s w d clean_crashed_worker
  in_review : {w d : Bool} → Recovers adversary_review none w d clean_crashed_worker
  unlanded : {w d : Bool} → Recovers converged none w d start_landing
  mid_landing :
      {s : PhaseSubstate} {w d : Bool}
      → IsLocal s
      → Recovers landing (some s) w d (resume_landing s)
  mid_push :
      {s : PhaseSubstate} {w d : Bool}
      → IsRemote s
      → Recovers landing (some s) w d (resume_remote_landing s)
  unclosed :
      {p : Phase} {w d : Bool}
      → is_terminal p ≡ true
      → Recovers p (some answer_sent) w d complete_answer_close
  ended :
      {p : Phase} {s : Option PhaseSubstate} {w d : Bool}
      → is_terminal p ≡ true
      → ¬ (s ≡ some answer_sent)
      → Recovers p s w d no_action

-- What is planned for a terminal phase.
abbrev ended_plan : Option PhaseSubstate → RecoveryPlan
ended_plan (some answer_sent) = complete_answer_close
ended_plan _ = no_action

terminal_plan :
    (p : Phase) (s : Option PhaseSubstate) (w d : Bool)
    → is_terminal p ≡ true
    → plan_known p s w d ≡ ok (ended_plan s)
unfolding plan_known
terminal_plan p none w d t = rw t refl
terminal_plan p (some qa_running) w d t = rw t refl
terminal_plan p (some _) w d t = rw t refl

ended_Recovers :
    (p : Phase) (s : Option PhaseSubstate) (w d : Bool)
    → is_terminal p ≡ true
    → Recovers p s w d (ended_plan s)
ended_Recovers p none w d t = ended t (λ e. cc e)
ended_Recovers p (some qa_running) w d t = ended t (λ e. cc e)
ended_Recovers p (some answer_sent) w d t = unclosed t
ended_Recovers p (some _) w d t = ended t (λ e. cc e)

open_sound :
    (p : Phase) (s : Option PhaseSubstate) (w d : Bool) (plan : RecoveryPlan)
    → plan_open p s w d ≡ ok plan
    → Recovers p s w d plan
unfolding plan_open
open_sound graphed none w d plan h = subst (Recovers graphed none w d) (ok-injective h) waiting
open_sound implementing none false d plan h =
    subst (Recovers implementing none false d) (ok-injective h) requeued
open_sound implementing none true true plan h =
    subst (Recovers implementing none true true) (ok-injective h) finished
open_sound implementing none true false plan h =
    subst (Recovers implementing none true false) (ok-injective h) crashed
open_sound qa_gate none w d plan h =
    subst (Recovers qa_gate none w d) (ok-injective h) (in_qa at_gate)
open_sound qa_gate (some qa_running) w d plan h =
    subst (Recovers qa_gate _ w d) (ok-injective h) (in_qa at_run)
open_sound qa_gate (some qa_passed_pending_transition) w d plan h =
    subst (Recovers qa_gate _ w d) (ok-injective h) (in_qa at_pass)
open_sound landing (some rebase_started) w d plan h =
    subst (Recovers landing _ w d) (ok-injective h) (mid_landing is_started)
open_sound landing (some rebase_done_bookmark_pending) w d plan h =
    subst (Recovers landing _ w d) (ok-injective h) (mid_landing is_rebased)
open_sound landing (some merging) w d plan h =
    subst (Recovers landing _ w d) (ok-injective h) (mid_landing is_merging)
open_sound landing (some bookmark_moved_complete) w d plan h =
    subst (Recovers landing _ w d) (ok-injective h) (mid_landing is_moved)
open_sound landing (some push_started) w d plan h =
    subst (Recovers landing _ w d) (ok-injective h) (mid_push is_pushing)
open_sound landing (some push_done_pr_pending) w d plan h =
    subst (Recovers landing _ w d) (ok-injective h) (mid_push is_pushed)
open_sound landing (some pr_created) w d plan h =
    subst (Recovers landing _ w d) (ok-injective h) (mid_push is_created)
open_sound converged none w d plan h = subst (Recovers converged none w d) (ok-injective h) unlanded
open_sound adversary_review none w d plan h =
    subst (Recovers adversary_review none w d) (ok-injective h) in_review
open_sound p s w d plan h = cc h

-- No answer substate is planned for on a phase that is not terminal.
known_open :
    (p : Phase) (s : Option PhaseSubstate) (w d : Bool) (plan : RecoveryPlan)
    → is_terminal p ≡ false
    → plan_known p s w d ≡ ok plan
    → plan_open p s w d ≡ ok plan
unfolding plan_known
known_open p none w d plan t h = rw t at h
known_open p (some answer_pending) w d plan t h = cc (rw t at h)
known_open p (some answer_sent) w d plan t h = cc (rw t at h)
known_open p (some answer_unreachable) w d plan t h = cc (rw t at h)
known_open p (some _) w d plan t h = rw t at h

known_sound :
    (p : Phase) (s : Option PhaseSubstate) (w d : Bool) (plan : RecoveryPlan)
    → plan_known p s w d ≡ ok plan
    → Recovers p s w d plan
known_sound p s w d plan h = elim (Bool-cases (is_terminal p)) [
  | inl t ↦
      subst (Recovers p s w d) (ok-injective (sym (terminal_plan p s w d t) ∙ h))
        (ended_Recovers p s w d t)
  | inr t ↦ open_sound p s w d plan (known_open p s w d plan t h)
]

ended_plan_other : (s : Option PhaseSubstate) → ¬ (s ≡ some answer_sent) → ended_plan s ≡ no_action
ended_plan_other none n = refl
ended_plan_other (some answer_sent) n = absurd (n refl)
ended_plan_other (some _) n = refl

known_complete :
    (p : Phase) (s : Option PhaseSubstate) (w d : Bool) (plan : RecoveryPlan)
    → Recovers p s w d plan
    → plan_known p s w d ≡ ok plan
unfolding plan_known plan_open is_terminal
known_complete _ _ w d _ waiting = refl
known_complete _ _ w d _ requeued = refl
known_complete _ _ w d _ finished = refl
known_complete _ _ w d _ crashed = refl
known_complete _ _ w d _ (in_qa at_gate) = refl
known_complete _ _ w d _ (in_qa at_run) = refl
known_complete _ _ w d _ (in_qa at_pass) = refl
known_complete _ _ w d _ in_review = refl
known_complete _ _ w d _ unlanded = refl
known_complete _ _ w d _ (mid_landing is_started) = refl
known_complete _ _ w d _ (mid_landing is_rebased) = refl
known_complete _ _ w d _ (mid_landing is_merging) = refl
known_complete _ _ w d _ (mid_landing is_moved) = refl
known_complete _ _ w d _ (mid_push is_pushing) = refl
known_complete _ _ w d _ (mid_push is_pushed) = refl
known_complete _ _ w d _ (mid_push is_created) = refl
known_complete p _ w d _ (unclosed t) = terminal_plan p (some answer_sent) w d t
known_complete p s w d _ (ended t n) = terminal_plan p s w d t ∙ ap ok (ended_plan_other s n)

parsed_plan :
    (p : Phase) (raw : Option Text) (w d : Bool) (plan : RecoveryPlan)
    → plan_recovery p raw w d ≡ ok plan
    → (s : Option PhaseSubstate) × (raw ≡ substate_column s) × (plan_known p s w d ≡ ok plan)
unfolding plan_recovery
parsed_plan p none w d plan h = (none, refl, h)
parsed_plan p (some raw) w d plan h = elim (Option-cases (from_db_str {A = PhaseSubstate} raw)) [
  | inl e ↦ cc (rw e at h)
  | inr (s, e) ↦ (some s, ap some ((enums_round_trip.1 raw s).0 e), rw e at h)
]

column_plan :
    (p : Phase) (s : Option PhaseSubstate) (w d : Bool)
    → plan_recovery p (substate_column s) w d ≡ plan_known p s w d
unfolding plan_recovery
column_plan p none w d = refl
column_plan p (some s) w d = rw ((enums_round_trip.1 (as_str s) s).1 refl) refl

-- `plan_recovery` decides on a plan exactly if the column's value is the token of a substate, or
-- null, and the table has a line for that phase and substate, that presence of a worker row and of
-- `DONE`, and that plan. In particular each combination of the table has one plan, and each other
-- one is an error.
pub plan_recovery_table :
    (p : Phase) (raw : Option Text) (w d : Bool) (plan : RecoveryPlan)
    → (plan_recovery p raw w d ≡ ok plan)
      ↔ ((s : Option PhaseSubstate) × (raw ≡ substate_column s) × Recovers p s w d plan)
plan_recovery_table p raw w d plan = (
  (λ h. let (s, e, k) = parsed_plan p raw w d plan h in (s, e, known_sound p s w d plan k)),
  (λ h. let (s, e, r) = h in rw e (column_plan p s w d ∙ known_complete p s w d plan r)),
)

left_Recovers :
    (p : Phase) (s : Option PhaseSubstate) (w d : Bool) (plan : RecoveryPlan)
    → Recovers p s w d plan
    → plan ≡ no_action
    → (is_terminal p ≡ true) ⊎ ((is_drivable p ≡ true) × (s ≡ none))
unfolding is_drivable
left_Recovers _ _ w d _ waiting h = inr (refl, refl)
left_Recovers _ _ w d _ requeued h = inr (refl, refl)
left_Recovers _ _ w d _ (unclosed t) h = inl t
left_Recovers _ _ w d _ (ended t n) h = inl t
left_Recovers _ _ w d _ finished h = cc h
left_Recovers _ _ w d _ crashed h = cc h
left_Recovers _ _ w d _ (in_qa q) h = cc h
left_Recovers _ _ w d _ in_review h = cc h
left_Recovers _ _ w d _ unlanded h = cc h
left_Recovers _ _ w d _ (mid_landing l) h = cc h
left_Recovers _ _ w d _ (mid_push l) h = cc h

-- An issue that recovery plans to leave alone is at a terminal phase, or at a phase that the pump
-- drives and with no substate: none is left stranded in the middle of a phase.
pub no_action-IsTerminal_or_IsDrivable :
    (p : Phase) (raw : Option Text) (w d : Bool)
    → plan_recovery p raw w d ≡ ok no_action
    → (is_terminal p ≡ true) ⊎ ((is_drivable p ≡ true) × (raw ≡ none))
no_action-IsTerminal_or_IsDrivable p raw w d h =
    let (s, e, r) = (plan_recovery_table p raw w d no_action).0 h in
    elim (left_Recovers p s w d no_action r refl) [
      | inl t ↦ inl t
      | inr (drivable, at_none) ↦ inr (drivable, e ∙ ap substate_column at_none)
    ]
