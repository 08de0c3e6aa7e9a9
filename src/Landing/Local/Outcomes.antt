-- ===== src/Landing/Local/Outcomes.antt =====
-- What a returned outcome of the local landing machine says about `state.db`.
use vetinari.Prelude.{◌≡◌, Text, Option, none, some, ok, Result, err}
use vetinari.Prelude.Exec.{Exec}
use vetinari.Prelude.Exec.Keeps.{Keeps, keeps_rules}
use vetinari.Prelude.Exec.Returns.{Leads, Leads-then, Leads-pure, Leads-raise, Leads-if, Leads-any}
use vetinari.Error.{LandingError, not_fast_forward}
use vetinari.State.Enums.{
  Phase, PhaseSubstate, as_str, substate_enum, merging, rebase_started,
  rebase_done_bookmark_pending, bookmark_moved_complete,
}
use vetinari.State.Rows.{IssueRow}
use vetinari.State.Issues.Laws.{row}
use vetinari.World.{World, in_ext}
use vetinari.World.Jj.{Jj, CommitInfo}
use vetinari.Phases.{PhaseIs, OnIssues, OnIssues-in_ext, IsKnown}
use vetinari.Landing.{
  emit_transition, LandingOutcome, merged_outcome, pr_open_outcome, awaiting_human_merge_outcome,
}
use vetinari.Landing
use vetinari.Landing.Steps.{
  set_phase-Leads, emit_transition-Leads, emit_transition-OnIssues, set_phase-Known,
}
use vetinari.Landing.Local.{
  merged_step, complete_move, park, after_move, move_step, bookmark_step, after_rebase, rebase_step,
  resume_from, retry_land_after_merge,
}

-- Where the issue stands once the machine has returned an outcome for it.
abbrev pub Settled : {X : Type 0} → Text → LandingOutcome → World X → Type 0
Settled k merged_outcome w = PhaseIs k Phase.merged none w
Settled k (pr_open_outcome url) w = PhaseIs k Phase.pr_open none w
Settled k (LandingOutcome.rebase_conflict c) w = PhaseIs k Phase.landing (some (as_str merging)) w
Settled k awaiting_human_merge_outcome w = PhaseIs k Phase.awaiting_human_merge none w

module _ {X : Type 0} (jj : Jj X) (k : Text) where
  merged-Settled : {R : World X → Type 0} → Leads R (λ o w. Settled k o w) (merged_step jj k)
  unfolding merged_step
  merged-Settled = Leads-then _ _ (set_phase-Leads k Phase.merged none) (λ _.
      Leads-then _ _ (emit_transition-Leads k k Phase.merged none _ _ _)
        (λ _. Leads-pure merged_outcome (λ w h. h)))

  park-Settled :
      {R : World X → Type 0} (reason : Text) → Leads R (λ o w. Settled k o w) (park jj k reason)
  unfolding park
  park-Settled reason = Leads-then _ _ (set_phase-Leads k Phase.awaiting_human_merge none) (λ _.
      Leads-then _ _ (emit_transition-Leads k k Phase.awaiting_human_merge none _ _ _)
        (λ _. Leads-pure awaiting_human_merge_outcome (λ w h. h)))

  complete-Settled : {R : World X → Type 0} → Leads R (λ o w. Settled k o w) (complete_move jj k)
  unfolding complete_move
  complete-Settled =
      Leads-then _ _ (set_phase-Leads k Phase.landing (some bookmark_moved_complete))
        (λ _. merged-Settled)

  after_move-Settled :
      {R : World X → Type 0} (r : Result LandingError (Unit {0}))
      → Leads R (λ o w. Settled k o w) (after_move jj k r)
  unfolding after_move
  after_move-Settled (ok u) = complete-Settled
  after_move-Settled (err (not_fast_forward b c t)) = park-Settled _
  after_move-Settled (err other) = Leads-raise other

  pub move-Settled :
      {R : World X → Type 0} (target : Text)
      → Leads R (λ o w. Settled k o w) (move_step jj k target)
  unfolding move_step
  move-Settled target =
      Leads-any _ _
        (λ now. Leads-if _ _ _ complete-Settled (Leads-any _ _ (λ r. after_move-Settled r)))

  bookmark-Settled :
      {R : World X → Type 0} (change : Text)
      → Leads R (λ o w. Settled k o w) (bookmark_step jj k change)
  unfolding bookmark_step
  bookmark-Settled change = Leads-any _ _ (λ t. move-Settled t.commit_id)

  after_rebase-Settled :
      {R : World X → Type 0} (target : CommitInfo)
      → Leads R (λ o w. Settled k o w) (after_rebase jj k target)
  unfolding after_rebase
  after_rebase-Settled target =
      Leads-if target.has_conflict _ _
        (Leads-then _ _ (set_phase-Leads k Phase.landing (some merging)) (λ _.
          Leads-then _ _ (emit_transition-Leads k k Phase.landing _ _ _ _)
            (λ _. Leads-pure (LandingOutcome.rebase_conflict target.commit_id) (λ w h. h))))
        (Leads-then _ _ (set_phase-Leads k Phase.landing (some rebase_done_bookmark_pending))
          (λ _. move-Settled target.commit_id))

  rebase-Settled :
      {R : World X → Type 0} (change : Text)
      → Leads R (λ o w. Settled k o w) (rebase_step jj k change)
  unfolding rebase_step
  rebase-Settled change =
      Leads-then _ _ (set_phase-Leads k Phase.landing (some rebase_started))
        (λ _. Leads-any _ _ (λ landed. Leads-any _ _ (λ t. after_rebase-Settled t)))

  pub resume-Settled :
      {R : World X → Type 0} (change : Text) (from : PhaseSubstate)
      → Leads R (λ o w. Settled k o w) (resume_from jj k change from)
  unfolding resume_from
  resume-Settled change rebase_started = rebase-Settled change
  resume-Settled change rebase_done_bookmark_pending = bookmark-Settled change
  resume-Settled change bookmark_moved_complete = merged-Settled
  resume-Settled change merging = park-Settled _
  resume-Settled change other = Leads-raise _

-- What the two writes of each step and the calls of jj keep, the whole machine keeps.
module _ {X : Type 0} (jj : Jj X) (k : Text) {Q : World X → Type 0}
    (set_phase-Keeps : (p : Phase) (s : Option PhaseSubstate) → Keeps Q (Landing.set_phase k p s))
    (emit-Keeps : (from to : Phase) (reason : Text) → Keeps Q (emit_transition k from to reason))
    (ext-Keeps : (A : Type 0) (m : Exec LandingError X A) → Keeps Q (in_ext m)) where
  after_move-Keeps : (r : Result LandingError (Unit {0})) → Keeps Q (after_move jj k r)
  unfolding after_move complete_move merged_step park
  after_move-Keeps (ok u) = search (keeps_rules, set_phase-Keeps, emit-Keeps)
  after_move-Keeps (err (not_fast_forward b c t)) =
      search (keeps_rules, set_phase-Keeps, emit-Keeps)
  after_move-Keeps (err other) = search keeps_rules

  move_step-Keeps : (target : Text) → Keeps Q (move_step jj k target)
  unfolding move_step complete_move merged_step
  move_step-Keeps target =
      search (keeps_rules, set_phase-Keeps, emit-Keeps, ext-Keeps, after_move-Keeps) depth 9

  after_rebase-Keeps : (t : CommitInfo) → Keeps Q (after_rebase jj k t)
  unfolding after_rebase
  after_rebase-Keeps t = search (keeps_rules, set_phase-Keeps, emit-Keeps, move_step-Keeps) depth 9

  pub resume-Keeps : (change : Text) (from : PhaseSubstate) → Keeps Q (resume_from jj k change from)
  unfolding resume_from rebase_step bookmark_step merged_step park
  resume-Keeps change rebase_started =
      search (keeps_rules, set_phase-Keeps, ext-Keeps, after_rebase-Keeps) depth 9
  resume-Keeps change rebase_done_bookmark_pending =
      search (keeps_rules, ext-Keeps, move_step-Keeps)
  resume-Keeps change bookmark_moved_complete = search (keeps_rules, set_phase-Keeps, emit-Keeps)
  resume-Keeps change merging = search (keeps_rules, set_phase-Keeps, emit-Keeps)
  resume-Keeps change other = search keeps_rules

  pub retry-Keeps : (merged : Text) → Keeps Q (retry_land_after_merge jj k merged)
  unfolding retry_land_after_merge
  retry-Keeps merged = search (keeps_rules, set_phase-Keeps, move_step-Keeps)

abbrev pub settled_phase : LandingOutcome → Phase
settled_phase merged_outcome = Phase.merged
settled_phase (pr_open_outcome url) = Phase.pr_open
settled_phase (LandingOutcome.rebase_conflict c) = Phase.landing
settled_phase awaiting_human_merge_outcome = Phase.awaiting_human_merge

abbrev pub settled_substate : LandingOutcome → Option Text
settled_substate (LandingOutcome.rebase_conflict c) = some (as_str merging)
settled_substate other = none

pub Settled-row :
    {X : Type 0} (k : Text) (o : LandingOutcome) (w : World X) (r : IssueRow)
    → Settled k o w
    → row k w.db ≡ some r
    → (r.phase ≡ settled_phase o) × (r.phase_substate ≡ settled_substate o)
Settled-row k merged_outcome w r s e = s.at r e
Settled-row k (pr_open_outcome url) w r s e = s.at r e
Settled-row k (LandingOutcome.rebase_conflict c) w r s e = s.at r e
Settled-row k awaiting_human_merge_outcome w r s e = s.at r e

module _ {X : Type 0} (jj : Jj X) (k change : Text) (from : PhaseSubstate) (w : World X) where
  -- Whatever jj answers and wherever the machine is entered: if it returns an outcome for an issue
  -- that has a row, then that issue still has a row and stands at the outcome's phase: `merged` and
  -- `awaiting-human-merge` with no substate, or `landing` with substate `merging` for a conflict.
  pub resume_outcome_phase :
      (o : LandingOutcome)
      → (resume_from jj k change from w).0 ≡ ok o
      → IsKnown k w.db.tables.issues
      → (r : IssueRow) × (row k (resume_from jj k change from w).1.db ≡ some r)
        × (r.phase ≡ settled_phase o)
        × (r.phase_substate ≡ settled_substate o)
  resume_outcome_phase o h known =
      let kept =
        (resume-Keeps jj k (λ p s. set_phase-Known k k p s)
            (λ f t r. emit_transition-OnIssues k f t r) (λ A m. OnIssues-in_ext m) change from).at
          w (record { holds = known }) in
      let r = kept.holds.0 in
      let settled = (resume-Settled jj k {R = λ w. Unit} change from).at w tt o h in
      let (p, s) = Settled-row k o (resume_from jj k change from w).1 r settled kept.holds.1 in
      (r, kept.holds.1, p, s)

module _ {X : Type 0} (jj : Jj X) (k : Text) where
  retry-Settled :
      {R : World X → Type 0} (merged : Text)
      → Leads R (λ o w. Settled k o w) (retry_land_after_merge jj k merged)
  unfolding retry_land_after_merge
  retry-Settled merged =
      Leads-then _ _ (set_phase-Leads k Phase.landing (some rebase_done_bookmark_pending))
        (λ _. move-Settled jj k merged)

  retry-Known :
      (merged : Text) → Keeps (OnIssues {X = X} (IsKnown k)) (retry_land_after_merge jj k merged)
  retry-Known merged =
      retry-Keeps jj k (λ p s. set_phase-Known k k p s) (λ f t r. emit_transition-OnIssues k f t r)
        (λ A m. OnIssues-in_ext m) merged

  -- The same for the retry after a merge
  pub retry_phase :
      (merged : Text) (w : World X) (o : LandingOutcome)
      → (retry_land_after_merge jj k merged w).0 ≡ ok o
      → IsKnown k w.db.tables.issues
      → (r : IssueRow) × (row k (retry_land_after_merge jj k merged w).1.db ≡ some r)
        × (r.phase ≡ settled_phase o)
        × (r.phase_substate ≡ settled_substate o)
  retry_phase merged w o h known =
      let kept = (retry-Known merged).at w (record { holds = known }) in
      let r = kept.holds.0 in
      let settled = (retry-Settled {R = λ w. Unit} merged).at w tt o h in
      let (p, s) =
        Settled-row k o (retry_land_after_merge jj k merged w).1 r settled kept.holds.1 in
      (r, kept.holds.1, p, s)
