-- ===== src/Pump/Tick/Resume.antt =====
-- The resume of an inbound issue: where it leaves the issue.
use vetinari.Prelude.{
  ◌≡◌, refl, ◌∙◌, Bool, true, false, Text, Option, none, some, ok, if◌then◌else◌,
}
use vetinari.Prelude.Int.{ℤ, parse_i64}
use vetinari.Prelude.Exec.{pure}
use vetinari.Prelude.Exec.Returns.{
  Leads, Leads-bind, Leads-then, Leads-pure, Leads-if, Leads-after, Leads-then_after, Leads-kept,
}
use vetinari.Error.{PumpError}
use vetinari.State.Enums.{answer_pending, as_str, phase_enum, substate_enum}
use vetinari.State.Rows.{IssueRow}
use vetinari.State.Issues.Laws.{row}
use vetinari.World.{World}
use vetinari.Phases.{IsKnown}
use vetinari.Phases.RowHas.{RowHas, has-set_phase_substate}
use vetinari.Pump.Gate.{IssueOutcome}
use vetinari.Pump.Site.{Site}
use vetinari.Pump.Steps.Laws.{pump_rules, StandsAt, AnyRow}
use vetinari.Pump.Outcomes.{outcome_phase, Ended}
use vetinari.Pump.Land.Laws.{land-Ended}
use vetinari.Pump.Tick.{answer_still_owed, rearm, resume_change, resume_numbered, resume_row}

-- The substate after a resume: armed again if an answer was owed
abbrev pub owed_substate : Bool → Option Text
owed_substate true = some (as_str answer_pending)
owed_substate false = none

abbrev pub Resumed : Bool → IssueOutcome → IssueRow → Type 0
Resumed owed o r = (r.phase ≡ outcome_phase o) × (r.phase_substate ≡ owed_substate owed)

abbrev ChangeLeaves : {X : Type 0} → Text → Bool → Option IssueOutcome → World X → Type 0
ChangeLeaves k owed none w = RowHas k AnyRow w
ChangeLeaves k owed (some o) w = RowHas k (Resumed owed o) w

abbrev RowLeaves : {X : Type 0} → Text → Bool → Option (ℤ × IssueOutcome) → World X → Type 0
RowLeaves k owed none w = RowHas k AnyRow w
RowLeaves k owed (some (i, o)) w = RowHas k (Resumed owed o) w

-- The number of the issue beside its outcome
numbered_as :
    {X : Type 0} (i : ℤ) (r : IssueRow) (o : Option IssueOutcome)
    → Leads {E = PumpError} {S = World X}
        (λ w. ChangeLeaves r.issue_id (answer_still_owed r) o w)
        (λ x w. RowLeaves r.issue_id (answer_still_owed r) x w)
        (pure (elim o as (λ _. Option (ℤ × IssueOutcome)) [ none ↦ none | some x ↦ some (i, x) ]))
numbered_as i r none = Leads-pure none (λ w h. h)
numbered_as i r (some o) = Leads-pure (some (i, o)) (λ w h. h)

module _ {X : Type 0} (site : Site X) where
  rearm-Leads :
      (k : Text) (o : IssueOutcome) (owed : Bool)
      → Leads (Ended {X = X} k o) (λ u w. RowHas k (Resumed owed o) w) (rearm site k owed)
  unfolding rearm
  rearm-Leads k o false = Leads-pure tt (λ w h. h)
  rearm-Leads k o true =
      Leads-then _ _
        (has-set_phase_substate k (StandsAt (outcome_phase o)) (Resumed true o)
          (some answer_pending) (λ now r h. (h.0, refl)))
        (λ u. Leads-kept _ (search pump_rules))

  change-Leads :
      (i : ℤ) (r : IssueRow) (o : Option Text)
      → Leads
          (RowHas {X = X} r.issue_id AnyRow)
          (λ x w. ChangeLeaves r.issue_id (answer_still_owed r) x w)
          (resume_change site i r o)
  unfolding resume_change
  change-Leads i r none = Leads-then_after _ _ (search pump_rules) (Leads-pure none (λ w h. h))
  change-Leads i r (some change) = Leads-bind _ _ (land-Ended site i r.issue_id AnyRow change) (λ o.
      Leads-then _ _ (rearm-Leads r.issue_id o (answer_still_owed r))
        (λ u. Leads-pure (some o) (λ w h. h)))

  numbered-Leads :
      (r : IssueRow) (o : Option ℤ)
      → Leads
          (RowHas {X = X} r.issue_id AnyRow)
          (λ x w. RowLeaves r.issue_id (answer_still_owed r) x w)
          (resume_numbered site r o)
  unfolding resume_numbered
  numbered-Leads r none = Leads-pure none (λ w h. h)
  numbered-Leads r (some i) = Leads-after _ _ (search pump_rules) (λ info.
      Leads-if _ _ _ (Leads-pure none (λ w h. h))
        (Leads-bind _ _ (change-Leads i r r.landing_change) (λ o. numbered_as i r o)))

  resume-Leads :
      (r : IssueRow)
      → Leads
          (RowHas {X = X} r.issue_id AnyRow)
          (λ x w. RowLeaves r.issue_id (answer_still_owed r) x w)
          (resume_row site r)
  unfolding resume_row
  resume-Leads r =
      Leads-if _ _ _ (Leads-pure none (λ w h. h)) (numbered-Leads r (parse_i64 r.issue_id))

owed_lem : (b : Bool) → owed_substate b ≡ (if b then some (as_str answer_pending) else none)
owed_lem true = refl
owed_lem false = refl

-- An inbound issue that is resumed keeps its obligation to answer. Where the resume of a row lands its
-- stored change and returns an outcome, the issue still has a row, at the outcome's phase; if the
-- answer of its park was still owed its substate is `answer_pending` again, so that the next sweep
-- delivers it, and otherwise it has none, so that nothing is answered twice.
pub resume_rearms :
    {X : Type 0} (site : Site X) (r : IssueRow) (i : ℤ) (o : IssueOutcome) (w : World X)
    → IsKnown r.issue_id w.db.tables.issues
    → (resume_row site r w).0 ≡ ok (some (i, o))
    → (q : IssueRow) × (row r.issue_id (resume_row site r w).1.db ≡ some q)
      × (q.phase ≡ outcome_phase o)
      × (q.phase_substate ≡ (if answer_still_owed r then some (as_str answer_pending) else none))
resume_rearms site r i o w (x, there) h =
    let s = (resume-Leads site r).at w (record { holds = (x, there, tt) }) (some (i, o)) h in
    let (q, found, at) = s.holds in (q, found, at.0, at.1 ∙ owed_lem (answer_still_owed r))
