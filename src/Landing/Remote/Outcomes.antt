-- ===== src/Landing/Remote/Outcomes.antt =====
-- What a returned outcome of the remote landing machine says about `state.db`.
use vetinari.Prelude.{◌≡◌, Text, Option, none, some, ok}
use vetinari.Prelude.Exec.{Exec, try}
use vetinari.Prelude.Exec.Keeps.{Keeps, keeps_rules}
use vetinari.Prelude.Exec.Returns.{
  Leads, Leads-then, Leads-bind, Leads-pure, Leads-raise, Leads-any,
}
use vetinari.Error.{LandingError}
use vetinari.State.Enums.{Phase, PhaseSubstate, push_started, push_done_pr_pending, pr_created}
use vetinari.State.Rows.{IssueRow}
use vetinari.State.Issues.Laws.{row}
use vetinari.World.{World, in_ext}
use vetinari.World.Jj.{Jj}
use vetinari.World.Tracker.{PrOpener}
use vetinari.Manager.{forget_bookmark}
use vetinari.Phases.{PhaseIs, OnIssues-in_ext, IsKnown}
use vetinari.Error.{LandingError}
use vetinari.Landing.{LandingOutcome, pr_open_outcome, emit_pr_open}
use vetinari.Landing
use vetinari.Landing.Steps.{
  set_phase-Leads, emit_pr_open-Leads, emit_pr_open-OnIssues, set_phase-Known,
}
use vetinari.Landing.Local.Outcomes.{Settled, Settled-row, settled_phase, settled_substate}
use vetinari.Landing.Remote.{
  RemoteLanding, complete_pr_open, pr_step, push_step, finish_created, resume_remote_from,
}

module _ {X : Type 0} (jj : Jj X) (opener : PrOpener X) (params : RemoteLanding) where
  abbrev k : Text
  k = params.issue_id

  -- The cleanup of the branch bookmark leaves the row.
  forget-Leads :
      (branch : Text)
      → Leads
          (PhaseIs k Phase.pr_open none)
          (λ a w. PhaseIs k Phase.pr_open none w)
          (try {F = LandingError} (in_ext (forget_bookmark jj branch)))
  unfolding try in_ext
  forget-Leads branch = record { at = λ w h a e. record { at = h.at } }

  complete-Settled :
      {R : World X → Type 0} (branch url : Text)
      → Leads R (λ o w. Settled k o w) (complete_pr_open jj opener k branch url)
  unfolding complete_pr_open
  complete-Settled branch url = Leads-then _ _ (set_phase-Leads k Phase.pr_open none) (λ _.
      Leads-then _ _ (emit_pr_open-Leads k k Phase.pr_open none branch url) (λ _.
        Leads-bind {R = λ a w. PhaseIs k Phase.pr_open none w} _ _ (forget-Leads branch)
          (λ _. Leads-pure (pr_open_outcome url) (λ w h. h))))

  pr_step-Settled :
      {R : World X → Type 0} → Leads R (λ o w. Settled k o w) (pr_step jj opener params)
  unfolding pr_step
  pr_step-Settled = Leads-any _ _ (λ found. Leads-any _ _ (λ url.
      Leads-then _ _ (set_phase-Leads k Phase.landing (some pr_created))
        (λ _. complete-Settled params.branch url)))

  push_step-Settled :
      {R : World X → Type 0} → Leads R (λ o w. Settled k o w) (push_step jj opener params)
  unfolding push_step
  push_step-Settled = Leads-then _ _ (set_phase-Leads k Phase.landing (some push_started)) (λ _.
      Leads-then {R = λ a w. Unit} _ _ (record { at = λ w h a e. tt })
        (λ _.
          Leads-then {R = λ a w. Unit} _ _ (record { at = λ w h a e. tt })
            (λ _.
              Leads-then _ _ (set_phase-Leads k Phase.landing (some push_done_pr_pending))
                (λ _. pr_step-Settled))))

  resume-Settled :
      {R : World X → Type 0} (from : PhaseSubstate)
      → Leads R (λ o w. Settled k o w) (resume_remote_from jj opener params from)
  unfolding resume_remote_from finish_created
  resume-Settled push_started = push_step-Settled
  resume-Settled push_done_pr_pending = pr_step-Settled
  resume-Settled pr_created =
      Leads-any _ _ (λ found. Leads-any _ _ (λ url. complete-Settled params.branch url))
  resume-Settled other = Leads-raise _

-- What the writes of each step and the calls of jj and GitHub keep, the whole machine keeps.
module _ {X : Type 0} (jj : Jj X) (opener : PrOpener X) (params : RemoteLanding)
    {Q : World X → Type 0}
    (set_phase-Keeps : (p : Phase) (s : Option PhaseSubstate)
      → Keeps Q (Landing.set_phase params.issue_id p s))
    (emit-Keeps : (branch url : Text) → Keeps Q (emit_pr_open params.issue_id branch url))
    (ext-Keeps : (A : Type 0) (m : Exec LandingError X A) → Keeps Q (in_ext m)) where
  complete-Keeps :
      (branch url : Text) → Keeps Q (complete_pr_open jj opener params.issue_id branch url)
  unfolding complete_pr_open
  complete-Keeps branch url = search (keeps_rules, set_phase-Keeps, emit-Keeps, ext-Keeps) depth 9

  pr_step-Keeps : Keeps Q (pr_step jj opener params)
  unfolding pr_step
  pr_step-Keeps = search (keeps_rules, set_phase-Keeps, ext-Keeps, complete-Keeps) depth 9

  pub resume-Keeps : (from : PhaseSubstate) → Keeps Q (resume_remote_from jj opener params from)
  unfolding resume_remote_from push_step finish_created
  resume-Keeps push_started =
      search (keeps_rules, set_phase-Keeps, ext-Keeps, pr_step-Keeps) depth 9
  resume-Keeps push_done_pr_pending = pr_step-Keeps
  resume-Keeps pr_created = search (keeps_rules, ext-Keeps, complete-Keeps) depth 9
  resume-Keeps other = search keeps_rules

-- Whatever jj and GitHub answer and wherever the remote machine is entered: if it returns an outcome
-- for an issue that has a row, then that issue still has a row and stands at the outcome's phase.
pub remote_outcome_phase :
    {X : Type 0} (jj : Jj X) (opener : PrOpener X) (params : RemoteLanding) (from : PhaseSubstate)
    (w : World X) (o : LandingOutcome)
    → (resume_remote_from jj opener params from w).0 ≡ ok o
    → IsKnown params.issue_id w.db.tables.issues
    → (r : IssueRow) × (row params.issue_id (resume_remote_from jj opener params from w).1.db
        ≡ some r)
      × (r.phase ≡ settled_phase o)
      × (r.phase_substate ≡ settled_substate o)
remote_outcome_phase jj opener params from w o h known =
    let k = params.issue_id in
    let kept =
      (resume-Keeps jj opener params (λ p s. set_phase-Known k k p s)
          (λ b u. emit_pr_open-OnIssues k b u) (λ A m. OnIssues-in_ext m) from).at
        w (record { holds = known }) in
    let r = kept.holds.0 in
    let settled = (resume-Settled jj opener params {R = λ w. Unit} from).at w tt o h in
    let (p, s) =
      Settled-row k o (resume_remote_from jj opener params from w).1 r settled kept.holds.1 in
    (r, kept.holds.1, p, s)
