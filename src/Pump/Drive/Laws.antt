-- ===== src/Pump/Drive/Laws.antt =====
-- Driving an issue ends: six turns of the loop are enough, and a returned outcome says where the
-- issue stands.
use mathlib.Core.Option.{some-injective}
use vetinari.Prelude.{
  ℕ, zero, suc, ◌+◌, ◌%◌, ◌^◌, ◌≤◌, ◌≡◌, refl, Text, Option, none, some, List, arith, ok, err, sym,
  ap, ◌∙◌, ◌⊎◌, inl, inr, Result-cases,
}
use vetinari.Prelude.Int.{ℤ, show_i64}
use vetinari.Prelude.Exec.{Exec}
use vetinari.Prelude.Exec.Returns.{
  Leads, Leads-bind, Leads-then, Leads-pure, Leads-after, Leads-fact,
}
use vetinari.Error.{PumpError}
use vetinari.State.Enums.{Phase}
use vetinari.State.Rows.{IssueRow}
use vetinari.State.Issues.Laws.{row}
use vetinari.World.{World}
use vetinari.Phases.{IsKnown}
use vetinari.Phases.RowHas.{RowHas}
use vetinari.Artifacts.Findings.{Finding}
use vetinari.Pump.Gate.{IssueOutcome}
use vetinari.Pump.Site.{Site}
use vetinari.Pump.Steps.Laws.{pump_rules, transition-Leads}
use vetinari.Pump.Outcomes.{outcome_phase, Ended, RoundIs}
use vetinari.Pump.Implement.{ImplStep, impl_done, qa_passed}
use vetinari.Pump.Implement.Laws.{ImplLeaves, implement-Leaves}
use vetinari.Pump.Review.{ReviewStep, review_done, reimplement}
use vetinari.Pump.Review.Laws.{ReviewLeaves, Ready, round_after, review-Leaves}
use vetinari.Pump.Land
use vetinari.Pump.Land.Laws.{land-Ended}
use vetinari.Pump.Drive.{after_review, after_implement, drive_loop, drive_issue_with, drive_issue}

-- The loop did not run out of fuel, and the issue has ended.
pub record Settled {X : Type 0} (k : Text) (o : Option IssueOutcome) (w : World X) : Type 0 where
  pub outcome : IssueOutcome
  pub returned : o ≡ some outcome
  pub ended : Ended k outcome w

module _ {X : Type 0} (site : Site X)
    (land : ℤ → Text → Text → Exec PumpError (World X) IssueOutcome) (i : ℤ) (k : Text)
    (lands : (change : Text)
      → Leads (RowHas k (Ready site.n_rounds)) (λ o w. Ended k o w) (land i k change)) where
  review-Settled :
      (fuel n : ℕ) (s : ReviewStep)
      → 6 ≤ n % 2 ^ 32 + suc fuel
      → ((m : ℕ) (fs : List Finding)
          → 1 ≤ fuel
          → 6 ≤ m % 2 ^ 32 + fuel
          → Leads (RowHas k (RoundIs m)) (λ o w. Settled k o w) (drive_loop site land i k fuel fs))
      → Leads
          (λ w. ReviewLeaves k n s w)
          (λ o w. Settled k o w)
          (after_review site land i k (drive_loop site land i k fuel) s)
  unfolding after_review
  review-Settled fuel n (review_done o) enough loop =
      Leads-pure (some o) (λ w h. record { outcome = o; returned = refl; ended = h })
  review-Settled fuel n (reimplement fs) enough loop =
      Leads-fact _ (λ below. loop (round_after n) fs (omega arith) (omega arith))

  implement-Settled :
      (fuel n : ℕ) (prior : List Finding) (s : ImplStep)
      → 6 ≤ n % 2 ^ 32 + suc fuel
      → ((m : ℕ) (fs : List Finding)
          → 1 ≤ fuel
          → 6 ≤ m % 2 ^ 32 + fuel
          → Leads (RowHas k (RoundIs m)) (λ o w. Settled k o w) (drive_loop site land i k fuel fs))
      → Leads
          (λ w. ImplLeaves k n s w)
          (λ o w. Settled k o w)
          (after_implement site land i k (drive_loop site land i k fuel) prior s)
  unfolding after_implement
  implement-Settled fuel n prior (impl_done o) enough loop =
      Leads-pure (some o) (λ w h. record { outcome = o; returned = refl; ended = h })
  implement-Settled fuel n prior (qa_passed name) enough loop =
      Leads-bind _ _ (review-Leaves site land i k n lands name prior)
        (λ s. review-Settled fuel n s enough loop)

  loop-Settled :
      (fuel n : ℕ) (prior : List Finding)
      → 1 ≤ fuel
      → 6 ≤ n % 2 ^ 32 + fuel
      → Leads (RowHas k (RoundIs n)) (λ o w. Settled k o w) (drive_loop site land i k fuel prior)
  unfolding drive_loop
  loop-Settled zero n prior some_fuel enough = absurd (omega arith)
  loop-Settled (suc fuel) n prior some_fuel enough =
      Leads-bind _ _ (implement-Leaves site i k n prior) (λ s.
        implement-Settled fuel n prior s enough (λ m fs one six. loop-Settled fuel m fs one six))

module _ {X : Type 0} (site : Site X) (fuel : ℕ) (i : ℤ) where
  drive-Settled :
      (n : ℕ)
      → 6 ≤ fuel
      → Leads
          (RowHas (show_i64 i) (RoundIs n))
          (λ o w. Settled (show_i64 i) o w)
          (drive_issue site fuel i)
  unfolding drive_issue drive_issue_with
  drive-Settled n enough = Leads-after _ _ (search pump_rules) (λ r.
      Leads-then _ _
        (transition-Leads site (show_i64 i) (RoundIs n) (RoundIs n) _ Phase.implementing _
          (λ now s h. h))
        (λ u. Leads-after _ _ (search pump_rules) (λ prior.
          loop-Settled site (Land.land site) i (show_i64 i)
            (λ change. land-Ended site i (show_i64 i) (Ready site.n_rounds) change) fuel n prior
            (omega arith) (omega arith))))

  -- The loop of implementation and review ends: for an issue that has a row, six turns are enough
  -- whatever the workers, the QA gate, jj and crosslink do, since a review that sends the issue back
  -- raises its round and gives up at the sixth. So `drive_issue` returns an outcome or an error of the
  -- code, and never for want of fuel.
  pub drive_issue-Terminates :
      (w : World X)
      → 6 ≤ fuel
      → IsKnown (show_i64 i) w.db.tables.issues
      → ((outcome : IssueOutcome) × ((drive_issue site fuel i w).0 ≡ ok (some outcome)))
        ⊎ ((e : PumpError) × ((drive_issue site fuel i w).0 ≡ err e))
  drive_issue-Terminates w enough (r, there) = elim (Result-cases (drive_issue site fuel i w).0) [
    | inr failed ↦ inr failed
    | inl (o, h) ↦
        let s = (drive-Settled r.round enough).at w (record { holds = (r, there, refl) }) o h in
        inl (s.outcome, h ∙ ap ok s.returned)
  ]

  -- A returned outcome agrees with `state.db`: whatever happens outside the program, the issue still
  -- has a row, which stands at the outcome's phase with no substate. So only a requeued issue, back at
  -- `implementing`, is picked up again.
  pub drive_outcome_phase :
      (w : World X) (outcome : IssueOutcome)
      → 6 ≤ fuel
      → IsKnown (show_i64 i) w.db.tables.issues
      → (drive_issue site fuel i w).0 ≡ ok (some outcome)
      → (r : IssueRow) × (row (show_i64 i) (drive_issue site fuel i w).1.db ≡ some r)
        × (r.phase ≡ outcome_phase outcome)
        × (r.phase_substate ≡ none)
  drive_outcome_phase w outcome enough (r, there) h =
      let s =
        (drive-Settled r.round enough).at w (record { holds = (r, there, refl) }) (some outcome)
          h in
      let (q, found, at) = s.ended.holds in
      let same = some-injective outcome s.outcome s.returned in
      (q, found, at.0 ∙ ap outcome_phase (sym same), at.1)
