-- ===== src/Recovery/Plan/Tests.antt =====
-- Tests of the decision table of recovery.
use vetinari.Prelude.{◌≡◌, refl, true, false, codes, Option, none, some, ok, ◌↔◌, ◌⊎◌}
use vetinari.Prelude.{Text, text_eq}
use vetinari.State.Enums.{
  implementing, landing, merged, merging, from_db_str, is_drivable, is_terminal, PhaseSubstate,
}
use vetinari.State.Issues.{substate_column}
use vetinari.Recovery.Plan.{
  plan_recovery, plan_known, plan_open, resume_landing, no_action, complete_answer_close,
}
use vetinari.Recovery.Plan.Table.{Recovers, plan_recovery_table, no_action-IsTerminal_or_IsDrivable}

a_merger_crash :
    plan_recovery landing (some (codes "merging")) true false ≡ ok (resume_landing merging)
unfolding plan_recovery plan_known plan_open from_db_str text_eq is_terminal
a_merger_crash = refl

an_open_answer :
    plan_recovery merged (some (codes "answer_sent")) false false ≡ ok complete_answer_close
unfolding plan_recovery plan_known from_db_str text_eq is_terminal
an_open_answer = refl

a_requeue : plan_recovery implementing none false false ≡ ok no_action
unfolding plan_recovery plan_known plan_open is_terminal
a_requeue = refl

plan_recovery_table_example :
    (plan_recovery landing (some (codes "merging")) true false ≡ ok (resume_landing merging)) ↔ (
      (s : Option PhaseSubstate) × (some (codes "merging") ≡ substate_column s)
      × Recovers landing s true false (resume_landing merging))
plan_recovery_table_example =
    plan_recovery_table landing (some (codes "merging")) true false (resume_landing merging)

no_action-IsTerminal_or_IsDrivable_example :
    (is_terminal implementing ≡ true)
    ⊎ ((is_drivable implementing ≡ true) × (◌≡◌ {A = Option Text} none none))
no_action-IsTerminal_or_IsDrivable_example =
    no_action-IsTerminal_or_IsDrivable implementing none false false a_requeue
