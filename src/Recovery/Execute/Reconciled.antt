-- ===== src/Recovery/Execute/Reconciled.antt =====
-- Where an issue stands after recovery has put it back or aside, and what a second pass plans.
use vetinari.Prelude.{◌≡◌, refl, Bool, true, false, Text, Option, none, some, ok}
use vetinari.Prelude.Exec.{◌>>◌, pure, mapping_err}
use vetinari.Prelude.Exec.Returns.{Leads, Leads-then, Leads-pure, Leads-any, Leads-mapping_err}
use vetinari.State.Enums.{
  Phase, implementing, orchestrator_error, transition, is_terminal, is_drivable,
}
use vetinari.State.Issues
use vetinari.State.Issues.{substate_column}
use vetinari.State.Issues.Laws.{row}
use vetinari.State.Rows.{IssueRow, ActiveWorkerRow, Payload}
use vetinari.World.{World}
use vetinari.World.Jj.{Jj}
use vetinari.Events.{emit}
use vetinari.Phases.{PhaseIs, Leads-set_phase, Leads-emit}
use vetinari.Recovery.Plan.{plan_recovery, plan_known, plan_open, no_action}
use vetinari.Recovery.Workers.{WorkerFiles, state_err, state_step, emit_recovery}
use vetinari.Recovery.Workers
use vetinari.Recovery.Execute.{quarantine}

module _ {X : Type 0} {R : World X → Type 0} (k : Text) where
  step-Leads :
      (p : Phase) → Leads R (λ u w. PhaseIs k p none w) (state_step (Issues.set_phase k p none))
  step-Leads p = Leads-mapping_err state_err _ (Leads-set_phase k p none)

module _ {X : Type 0} (k : Text) where
  event-Leads :
      (p : Phase) (payload : Payload)
      → Leads
          (PhaseIs {X = X} k p none)
          (λ u w. PhaseIs k p none w)
          (mapping_err state_err (emit transition (some k) none payload) >> pure tt)
  event-Leads p payload =
      Leads-then _ _
        (Leads-mapping_err state_err _ (Leads-emit k p none transition (some k) none payload))
        (λ a. Leads-pure tt (λ w h. h))

  quarantine-Leads :
      (reason : Text)
      → Leads {S = World X}
          (λ w. Unit)
          (λ u w. PhaseIs k orchestrator_error none w)
          (quarantine k reason)
  unfolding quarantine
  quarantine-Leads reason =
      Leads-then _ _ (step-Leads k orchestrator_error) (λ u. event-Leads orchestrator_error _)

  clean-Leads :
      (jj : Jj X) (files : WorkerFiles X) (root : Text) (o : Option ActiveWorkerRow)
      → Leads
          (λ w. Unit)
          (λ u w. PhaseIs k implementing none w)
          (Workers.clean_crashed_worker jj files root k o)
  unfolding Workers.clean_crashed_worker emit_recovery
  clean-Leads jj files root o =
      Leads-then {R = λ a w. Unit} _ _ (record { at = λ w h a e. tt })
        (λ u.
          Leads-any _ _
            (λ r. Leads-then _ _ (step-Leads k implementing) (λ v. event-Leads implementing _)))

requeued_plan :
    (r : IssueRow) (d : Bool)
    → r.phase ≡ implementing
    → r.phase_substate ≡ none
    → plan_recovery r.phase r.phase_substate false d ≡ ok no_action
unfolding plan_recovery plan_known plan_open is_terminal
requeued_plan r d p s = rw p (rw s refl)

-- An issue whose crashed worker was cleaned up stands at `implementing` with no substate, which the
-- pump drives, and a second pass that finds no worker row for it plans no action.
pub clean_crashed_worker_lem :
    {X : Type 0} (jj : Jj X) (files : WorkerFiles X) (root k : Text) (o : Option ActiveWorkerRow)
    (w : World X) (r : IssueRow)
    → (Workers.clean_crashed_worker jj files root k o w).0 ≡ ok tt
    → row k (Workers.clean_crashed_worker jj files root k o w).1.db ≡ some r
    → (r.phase ≡ implementing)
      × (r.phase_substate ≡ none)
      × (is_drivable r.phase ≡ true)
      × ((d : Bool) → plan_recovery r.phase r.phase_substate false d ≡ ok no_action)
unfolding is_drivable
clean_crashed_worker_lem jj files root k o w r h e =
    let (p, s) = ((clean-Leads k jj files root o).at w tt tt h).at r e in
    (p, s, rw p refl, λ d. requeued_plan r d p s)

-- A quarantined issue stands at `orchestrator-error` with no substate: a terminal phase, which the
-- pump does not drive and for which every later pass plans no action.
pub quarantine_lem :
    {X : Type 0} (k reason : Text) (w : World X) (r : IssueRow)
    → (quarantine k reason w).0 ≡ ok tt
    → row k (quarantine k reason w).1.db ≡ some r
    → (r.phase ≡ orchestrator_error)
      × (r.phase_substate ≡ none)
      × (is_terminal r.phase ≡ true)
      × (is_drivable r.phase ≡ false)
      × ((worker d : Bool) → plan_recovery r.phase r.phase_substate worker d ≡ ok no_action)
unfolding is_terminal is_drivable plan_recovery plan_known
quarantine_lem k reason w r h e =
    let (p, s) = ((quarantine-Leads k reason).at w tt tt h).at r e in
    (p, s, rw p refl, rw p refl, λ worker d. rw p (rw s refl))
