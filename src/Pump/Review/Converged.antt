-- ===== src/Pump/Review/Converged.antt =====
-- `land` runs on converged issues only: what it does elsewhere makes no difference to a review or to
-- the drive of an issue.
use vetinari.Prelude.{
  ℕ, zero, suc, ◌≤◌, ◌≡◌, refl, Bool, true, false, Text, Option, some, List, [], ◌∷◌, Result, ok,
  err,
}
use vetinari.Prelude.Int.{ℤ, show_i64}
use vetinari.Prelude.Exec.{Exec}
use vetinari.Prelude.Exec.Agrees.{
  Agrees, Agrees-refl, Agrees-weaken, Agrees-fact, Agrees-bind, Agrees-then, Agrees-rest,
  Agrees-both, Agrees-after, Agrees-then_after,
}
use vetinari.Error.{PumpError}
use vetinari.State.Enums.{Phase, qa_gate, adversary_review, converged}
use vetinari.State.Rows.{IssueRow}
use vetinari.State.Issues.Laws.{row}
use vetinari.World.{World}
use vetinari.Phases.{IsKnown}
use vetinari.Phases.RowHas.{RowHas, RowHas-map}
use vetinari.Names.{WorkspaceName}
use vetinari.Artifacts.{ArtifactError}
use vetinari.Artifacts.Findings.{Finding}
use vetinari.Artifacts.Done.{DoneSentinel}
use vetinari.Pump.Gate.{IssueOutcome}
use vetinari.Pump.Site.{Site, SpawnOutcome, exited, still_running}
use vetinari.Pump.Steps.Laws.{pump_rules, transition-Leads}
use vetinari.Pump.Outcomes.{RoundIs, round-Leads}
use vetinari.Pump.Implement.{ImplStep, impl_done, qa_passed}
use vetinari.Pump.Implement.Laws.{ImplLeaves, implement-Leaves}
use vetinari.Pump.Review.{
  ReviewStep, review_done, reimplement, on_convergence, on_findings, on_attested, on_review_done,
  on_review_exit, review_turn, review_turns, run_adversary_review,
}
use vetinari.Pump.Review.Laws.{
  ReviewLeaves, Ready, Streak, round_after, clean-Leads, review-Leaves, render-Keeps,
}
use vetinari.Pump.Land
use vetinari.Pump.Land.Laws.{land-Ended}
use vetinari.Pump.Drive.{after_review, after_implement, drive_loop, drive_issue_with, drive_issue}

module _ {X : Type 0} (site : Site X)
    (land land' : ℤ → Text → Text → Exec PumpError (World X) IssueOutcome) (i : ℤ) (k change : Text)
    (impl : WorkspaceName) (prior : List Finding) (task : Text) (n : ℕ)
    (same : Agrees (RowHas k (Ready site.n_rounds)) (land i k change) (land' i k change)) where
  convergence-Agrees :
      (more more' : Exec PumpError (World X) ReviewStep) (b : Bool)
      → Agrees (RowHas k (RoundIs n)) more more'
      → Agrees
          (RowHas k (Streak site.n_rounds n b))
          (on_convergence site land i k change impl prior task more b)
          (on_convergence site land' i k change impl prior task more' b)
  unfolding on_convergence
  convergence-Agrees more more' true a =
      Agrees-then _ _ _
        (transition-Leads site k (Streak site.n_rounds n true) (Ready site.n_rounds)
          adversary_review converged _ (λ now r h. (refl, h.1 refl)))
        (λ u. Agrees-rest _ _ _ same)
  convergence-Agrees more more' false a = Agrees-weaken _ _ (λ w h. RowHas-map k w (λ r s. s.0) h) a

  findings-Agrees :
      (more more' : Exec PumpError (World X) ReviewStep) (name : WorkspaceName) (u : Text) (m : ℕ)
      (done : DoneSentinel) (fs : List Finding)
      → Agrees (RowHas k (RoundIs n)) more more'
      → Agrees
          (RowHas k (RoundIs n))
          (on_findings site land i k change impl prior task more name u m done fs)
          (on_findings site land' i k change impl prior task more' name u m done fs)
  unfolding on_findings
  findings-Agrees more more' name u m done [] a =
      Agrees-then_after _ _ _ (search pump_rules)
        (Agrees-bind _ _ _ (clean-Leads site k n) (λ b. convergence-Agrees more more' b a))
  findings-Agrees more more' name u m done (f ∷ fs) a = Agrees-refl _

  attested-Agrees :
      (more more' : Exec PumpError (World X) ReviewStep) (name : WorkspaceName) (u : Text) (m : ℕ)
      (done : DoneSentinel) (r : Result ArtifactError (List Finding))
      → Agrees (RowHas k (RoundIs n)) more more'
      → Agrees
          (RowHas k (RoundIs n))
          (on_attested site land i k change impl prior task more name u m done r)
          (on_attested site land' i k change impl prior task more' name u m done r)
  unfolding on_attested
  attested-Agrees more more' name u m done (err e) a = Agrees-refl _
  attested-Agrees more more' name u m done (ok fs) a =
      Agrees-then_after _ _ _ (search pump_rules) (findings-Agrees more more' name u m done fs a)

  done-Agrees :
      (more more' : Exec PumpError (World X) ReviewStep) (name : WorkspaceName) (u : Text) (m : ℕ)
      (d : Result ArtifactError DoneSentinel)
      → Agrees (RowHas k (RoundIs n)) more more'
      → Agrees
          (RowHas k (RoundIs n))
          (on_review_done site land i k change impl prior task more name u m d)
          (on_review_done site land' i k change impl prior task more' name u m d)
  unfolding on_review_done
  done-Agrees more more' name u m (err e) a = Agrees-refl _
  done-Agrees more more' name u m (ok d) a = attested-Agrees more more' name u m d _ a

  exit-Agrees :
      (more more' : Exec PumpError (World X) ReviewStep) (name : WorkspaceName) (path u : Text)
      (m : ℕ) (pane : Text) (o : SpawnOutcome)
      → Agrees (RowHas k (RoundIs n)) more more'
      → Agrees
          (RowHas k (RoundIs n))
          (on_review_exit site land i k change impl prior task more name path u m pane o)
          (on_review_exit site land' i k change impl prior task more' name path u m pane o)
  unfolding on_review_exit
  exit-Agrees more more' name path u m pane still_running a =
      Agrees-then_after _ _ _ (search pump_rules) (Agrees-refl _)
  exit-Agrees more more' name path u m pane exited a =
      Agrees-then_after _ _ _ (search pump_rules)
        (Agrees-after _ _ _ (search pump_rules) (λ d. done-Agrees more more' name u m d a))

  turn-Agrees :
      (more more' : Exec PumpError (World X) ReviewStep)
      → Agrees (RowHas k (RoundIs n)) more more'
      → Agrees
          (RowHas k (RoundIs n))
          (review_turn site land i k change impl prior task more)
          (review_turn site land' i k change impl prior task more')
  unfolding review_turn
  turn-Agrees more more' a = Agrees-bind _ _ _ (round-Leads site k n) (λ m. Agrees-fact _ _ (λ is.
      Agrees-after _ _ _ (search pump_rules) (λ uuid.
        Agrees-after _ _ _ (search pump_rules) (λ path.
          Agrees-after _ _ _ (search pump_rules) (λ rendering.
            Agrees-then_after _ _ _ (render-Keeps site impl _ rendering) (
              Agrees-after _ _ _ (search pump_rules) (λ worker.
                Agrees-then_after _ _ _ (search pump_rules) (
                  Agrees-after _ _ _ (search pump_rules) (λ pane.
                    Agrees-then_after _ _ _ (search pump_rules) (
                      Agrees-after _ _ _ (search pump_rules)
                        (λ o. exit-Agrees more more' _ path worker m pane o a)))))))))))

  turns-Agrees :
      (turns : ℕ)
      → Agrees
          (RowHas k (RoundIs n))
          (review_turns site land i k change impl prior task turns)
          (review_turns site land' i k change impl prior task turns)
  unfolding review_turns
  turns-Agrees zero = Agrees-refl _
  turns-Agrees (suc t) = turn-Agrees _ _ (turns-Agrees t)

module _ {X : Type 0} (site : Site X)
    (land' : ℤ → Text → Text → Exec PumpError (World X) IssueOutcome) (i : ℤ) (k : Text)
    (same : (change : Text)
      → Agrees
          (RowHas k (Ready site.n_rounds))
          (Land.land site i k change)
          (land' i k change)) where
  review-Agrees :
      (n : ℕ) (name : WorkspaceName) (prior : List Finding)
      → Agrees
          (RowHas k (RoundIs n))
          (run_adversary_review site (Land.land site) i k name prior)
          (run_adversary_review site land' i k name prior)
  unfolding run_adversary_review
  review-Agrees n name prior = Agrees-after _ _ _ (search pump_rules) (λ change.
      Agrees-then _ _ _
        (transition-Leads site k (RoundIs n) (RoundIs n) qa_gate adversary_review _ (λ now r h. h))
        (λ u. Agrees-then_after _ _ _ (search pump_rules) (
          Agrees-after _ _ _ (search pump_rules) (λ info.
            turns-Agrees site (Land.land site) land' i k change name prior _ n (same change) _))))

  -- Where the loops agree from every round, so does what follows a review.
  after_review-Agrees :
      (n : ℕ) (loop loop' : List Finding → Exec PumpError (World X) (Option IssueOutcome))
      (s : ReviewStep)
      → ((m : ℕ) (fs : List Finding) → Agrees (RowHas k (RoundIs m)) (loop fs) (loop' fs))
      → Agrees
          (λ w. ReviewLeaves k n s w)
          (after_review site (Land.land site) i k loop s)
          (after_review site land' i k loop' s)
  unfolding after_review
  after_review-Agrees n loop loop' (review_done o) a = Agrees-refl _
  after_review-Agrees n loop loop' (reimplement fs) a =
      Agrees-fact _ _ (λ below. a (round_after n) fs)

  after_implement-Agrees :
      (n : ℕ) (loop loop' : List Finding → Exec PumpError (World X) (Option IssueOutcome))
      (prior : List Finding) (s : ImplStep)
      → ((m : ℕ) (fs : List Finding) → Agrees (RowHas k (RoundIs m)) (loop fs) (loop' fs))
      → Agrees
          (λ w. ImplLeaves k n s w)
          (after_implement site (Land.land site) i k loop prior s)
          (after_implement site land' i k loop' prior s)
  unfolding after_implement
  after_implement-Agrees n loop loop' prior (impl_done o) a = Agrees-refl _
  after_implement-Agrees n loop loop' prior (qa_passed name) a =
      Agrees-both _ _ _ _ (review-Agrees n name prior)
        (review-Leaves site (Land.land site) i k n
          (λ change. land-Ended site i k (Ready site.n_rounds) change) name prior)
        (λ s. after_review-Agrees n loop loop' s a)

  loop-Agrees :
      (fuel n : ℕ) (prior : List Finding)
      → Agrees
          (RowHas k (RoundIs n))
          (drive_loop site (Land.land site) i k fuel prior)
          (drive_loop site land' i k fuel prior)
  unfolding drive_loop
  loop-Agrees zero n prior = Agrees-refl _
  loop-Agrees (suc fuel) n prior =
      Agrees-bind _ _ _ (implement-Leaves site i k n prior)
        (λ s. after_implement-Agrees n _ _ prior s (λ m fs. loop-Agrees fuel m fs))

ready :
    {X : Type 0} (site : Site X) (land' : ℤ → Text → Text → Exec PumpError (World X) IssueOutcome)
    (i : ℤ) {change : Text}
    → ((v : World X) (r : IssueRow)
        → row (show_i64 i) v.db ≡ some r
        → r.phase ≡ converged
        → site.n_rounds ≤ r.empty_round_streak
        → Land.land site i (show_i64 i) change v ≡ land' i (show_i64 i) change v)
    → Agrees
        (RowHas (show_i64 i) (Ready site.n_rounds))
        (Land.land site i (show_i64 i) change)
        (land' i (show_i64 i) change)
ready site land' i same = record { at = λ v h. same v h.holds.0 h.holds.1 h.holds.2.0 h.holds.2.1 }

-- Only a converged issue lands. Take any other action in the place of `land` that does the same where
-- the issue stands at `converged` with a streak of clean reviews at least as long as the configuration
-- asks for: driving an issue that has a row comes out the same, state and result. So nothing on the
-- way calls `land` before the issue has converged.
pub drive_lands_converged :
    {X : Type 0} (site : Site X) (land' : ℤ → Text → Text → Exec PumpError (World X) IssueOutcome)
    (fuel : ℕ) (i : ℤ) (w : World X)
    → IsKnown (show_i64 i) w.db.tables.issues
    → ((change : Text) (v : World X) (r : IssueRow)
        → row (show_i64 i) v.db ≡ some r
        → r.phase ≡ converged
        → site.n_rounds ≤ r.empty_round_streak
        → Land.land site i (show_i64 i) change v ≡ land' i (show_i64 i) change v)
    → drive_issue site fuel i w ≡ drive_issue_with site land' fuel i w
unfolding drive_issue drive_issue_with
drive_lands_converged site land' fuel i w (r, there) same =
    (Agrees-after _ _ _ (search pump_rules) (λ o.
        Agrees-then _ _ _
          (transition-Leads site (show_i64 i) (RoundIs r.round) (RoundIs r.round) _
            Phase.implementing _ (λ now s h. h))
          (λ u. Agrees-after _ _ _ (search pump_rules) (λ prior.
            loop-Agrees site land' i (show_i64 i) (λ change. ready site land' i (same change)) fuel
              r.round prior)))).at
      w (record { holds = (r, there, refl) })
