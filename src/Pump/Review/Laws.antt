-- ===== src/Pump/Review/Laws.antt =====
-- What an adversary review leaves: an ended issue, or the row at the next round, which is below the
-- bound. `land` is asked to end the issue where it has converged, and nowhere else.
use vetinari.Prelude.{
  ℕ, zero, suc, ◌+◌, ◌%◌, ◌^◌, ◌<◌, ◌≤◌, ◌≡◌, refl, ap, sym, Bool, true, false, leb, Text, Option,
  none, List, [], ◌∷◌, ◌++◌, Result, ok, err, arith, Bool-cases, inl, inr, leb→le,
}
use vetinari.Prelude.Int.{ℤ}
use vetinari.Prelude.Exec.{Exec, pure, ◌>>=◌}
use vetinari.Prelude.Exec.Keeps.{Keeps}
use vetinari.Prelude.Exec.Returns.{
  Leads, Leads-bind, Leads-then, Leads-pure, Leads-after, Leads-then_after, Leads-weaken,
  Leads-fact,
}
use vetinari.Error.{PumpError}
use vetinari.State.Enums.{Phase, qa_gate, adversary_review, converged}
use vetinari.State.Rows.{IssueRow}
use vetinari.World.{World}
use vetinari.Phases.{OnIssues}
use vetinari.Phases.RowHas.{RowHas, RowHas-map, Leads-get, has-set_phase_lem}
use vetinari.Names.{WorkspaceName}
use vetinari.Artifacts.{ArtifactError}
use vetinari.Artifacts.Findings.{Finding}
use vetinari.Artifacts.Done.{DoneSentinel}
use vetinari.Pump.Gate.{IssueOutcome}
use vetinari.Pump.Site.{Site, SpawnOutcome, exited, still_running}
use vetinari.Pump.Steps.Laws.{pump_rules, transition-Leads}
use vetinari.Pump.Outcomes.{Ended, RoundIs, poison-Ended, round-Leads, store-Leads}
use vetinari.Pump.Review.{
  ReviewStep, review_done, reimplement, streak_after, has_converged, on_clean_round,
  on_adversary_findings, on_convergence, on_findings, incomplete, on_attested, on_review_done,
  on_review_exit, on_render, review_turn, review_turns, run_adversary_review, max_adversary_rounds,
}

-- The next round of an issue at round `n`, as the source computes it
abbrev pub round_after : ℕ → ℕ
round_after n = n % 2 ^ 32 + 1

abbrev pub ReviewLeaves : {X : Type 0} → Text → ℕ → ReviewStep → World X → Type 0
ReviewLeaves k n (review_done o) w = Ended k o w
ReviewLeaves k n (reimplement fs) w = (round_after n < 6) × RowHas k (RoundIs (round_after n)) w

-- The issue has converged on as many clean rounds in a row as the configuration asks for.
abbrev pub Ready : ℕ → IssueRow → Type 0
Ready n_rounds r = (r.phase ≡ converged) × (n_rounds ≤ r.empty_round_streak)

abbrev pub Streak : ℕ → ℕ → Bool → IssueRow → Type 0
Streak n_rounds n b r = (r.round ≡ n) × (b ≡ true → n_rounds ≤ r.empty_round_streak)

module _ {X : Type 0} (site : Site X) (k : Text) (n : ℕ) where
  counted :
      (o : Option IssueRow) (r : IssueRow)
      → (r.round ≡ n) × (r.empty_round_streak ≡ streak_after o)
      → Streak site.n_rounds n (has_converged site (streak_after o)) r
  unfolding has_converged
  counted o r h = (h.0, λ e. rw h.1 (leb→le site.n_rounds (streak_after o) e))

  pub clean-Leads :
      Leads
        (RowHas k (RoundIs n))
        (λ b w. RowHas k (Streak site.n_rounds n b) w)
        (on_clean_round site k)
  unfolding on_clean_round
  clean-Leads = Leads-bind _ _ (Leads-get k (RoundIs n)) (λ o.
      Leads-then _ _
        (store-Leads k (RoundIs n) (λ r. (r.round ≡ n) × (r.empty_round_streak ≡ streak_after o)) _
          o (λ r e h. (refl, (h, ap streak_after (sym e)))))
        (λ u.
          Leads-then_after _ _ (search pump_rules) (
            Leads-pure (has_converged site (streak_after o))
              (λ w h. RowHas-map k w (counted o) h))))

module _ {X : Type 0} (site : Site X) (i : ℤ) (k : Text) (n : ℕ) where
  done-Leaves :
      (m : Exec PumpError (World X) IssueOutcome) {P : World X → Type 0}
      → Leads P (λ x w. Ended k x w) m
      → Leads P (λ s w. ReviewLeaves k n s w) (m >>= λ x. pure (review_done x))
  done-Leaves m l = Leads-bind _ _ l (λ x. Leads-pure (review_done x) (λ w h. h))

  incomplete-Leaves :
      (name : WorkspaceName) (u reason : Text)
      → Leads (RowHas k (RoundIs n)) (λ s w. ReviewLeaves k n s w) (incomplete site k name u reason)
  unfolding incomplete
  incomplete-Leaves name u reason = Leads-then_after _ _ (search pump_rules) (
      Leads-then_after _ _ (search pump_rules)
        (done-Leaves _ (poison-Ended site k (RoundIs n) none _)))

  findings-Leaves :
      (m : ℕ) (fs prior : List Finding)
      → m ≡ n % 2 ^ 32
      → Leads
          (RowHas k (RoundIs n))
          (λ s w. ReviewLeaves k n s w)
          (on_adversary_findings site i k m fs prior)
  unfolding on_adversary_findings
  findings-Leaves m fs prior is = elim (Bool-cases (leb max_adversary_rounds (m + 1))) [
    | inl last ↦ rw last (done-Leaves _ (poison-Ended site k (RoundIs n) none _))
    | inr more ↦
        let below : round_after n < 6 = ground (arith, more, is) in
        let next : (m + 1) ≡ round_after n = omega arith in
        rw more (
          Leads-bind _ _ (Leads-get k (RoundIs n)) (λ o.
            Leads-then _ _
              (store-Leads k (RoundIs n) (RoundIs (round_after n)) _ o (λ r e h. (refl, next)))
              (λ u.
                Leads-then _ _
                  (has-set_phase_lem k (RoundIs (round_after n)) (RoundIs (round_after n))
                    Phase.implementing none (λ now r h. h))
                  (λ v. Leads-then_after _ _ (search pump_rules) (
                    Leads-then_after _ _ (search pump_rules)
                      (Leads-pure (reimplement (prior ++ fs)) (λ w h. (below, h))))))))
  ]

module _ {X : Type 0} (site : Site X) (impl : WorkspaceName) where
  pub render-Keeps :
      {P : List IssueRow → Type 0} (name : WorkspaceName) (r : Result Text (Unit {0}))
      → Keeps (OnIssues P) (on_render site impl name r)
  unfolding on_render
  render-Keeps name (ok u) = search pump_rules
  render-Keeps name (err e) = search pump_rules

module _ {X : Type 0} (site : Site X)
    (land : ℤ → Text → Text → Exec PumpError (World X) IssueOutcome) (i : ℤ) (k change : Text)
    (impl : WorkspaceName) (prior : List Finding) (task : Text) (n : ℕ)
    (lands : Leads (RowHas k (Ready site.n_rounds)) (λ o w. Ended k o w) (land i k change)) where
  convergence-Leaves :
      (more : Exec PumpError (World X) ReviewStep) (b : Bool)
      → Leads (RowHas k (RoundIs n)) (λ s w. ReviewLeaves k n s w) more
      → Leads
          (RowHas k (Streak site.n_rounds n b))
          (λ s w. ReviewLeaves k n s w)
          (on_convergence site land i k change impl prior task more b)
  unfolding on_convergence
  convergence-Leaves more true l =
      Leads-then _ _
        (transition-Leads site k (Streak site.n_rounds n true) (Ready site.n_rounds)
          adversary_review converged _ (λ now r h. (refl, h.1 refl)))
        (λ u. done-Leaves site i k n _ lands)
  convergence-Leaves more false l = Leads-weaken _ (λ w h. RowHas-map k w (λ r s. s.0) h) l

  judged-Leaves :
      (more : Exec PumpError (World X) ReviewStep) (name : WorkspaceName) (u : Text) (m : ℕ)
      (done : DoneSentinel) (fs : List Finding)
      → Leads (RowHas k (RoundIs n)) (λ s w. ReviewLeaves k n s w) more
      → m ≡ n % 2 ^ 32
      → Leads
          (RowHas k (RoundIs n))
          (λ s w. ReviewLeaves k n s w)
          (on_findings site land i k change impl prior task more name u m done fs)
  unfolding on_findings
  judged-Leaves more name u m done [] l is =
      Leads-then_after _ _ (search pump_rules)
        (Leads-bind _ _ (clean-Leads site k n) (λ b. convergence-Leaves more b l))
  judged-Leaves more name u m done (f ∷ fs) l is =
      Leads-then_after _ _ (search pump_rules)
        (Leads-then_after _ _ (search pump_rules) (findings-Leaves site i k n m (f ∷ fs) prior is))

  attested-Leaves :
      (more : Exec PumpError (World X) ReviewStep) (name : WorkspaceName) (u : Text) (m : ℕ)
      (done : DoneSentinel) (r : Result ArtifactError (List Finding))
      → Leads (RowHas k (RoundIs n)) (λ s w. ReviewLeaves k n s w) more
      → m ≡ n % 2 ^ 32
      → Leads
          (RowHas k (RoundIs n))
          (λ s w. ReviewLeaves k n s w)
          (on_attested site land i k change impl prior task more name u m done r)
  unfolding on_attested
  attested-Leaves more name u m done (err e) l is = incomplete-Leaves site i k n name u _
  attested-Leaves more name u m done (ok fs) l is =
      Leads-then_after _ _ (search pump_rules) (judged-Leaves more name u m done fs l is)

  review_done-Leaves :
      (more : Exec PumpError (World X) ReviewStep) (name : WorkspaceName) (u : Text) (m : ℕ)
      (d : Result ArtifactError DoneSentinel)
      → Leads (RowHas k (RoundIs n)) (λ s w. ReviewLeaves k n s w) more
      → m ≡ n % 2 ^ 32
      → Leads
          (RowHas k (RoundIs n))
          (λ s w. ReviewLeaves k n s w)
          (on_review_done site land i k change impl prior task more name u m d)
  unfolding on_review_done
  review_done-Leaves more name u m (err e) l is = incomplete-Leaves site i k n name u _
  review_done-Leaves more name u m (ok d) l is = attested-Leaves more name u m d _ l is

  exit-Leaves :
      (more : Exec PumpError (World X) ReviewStep) (name : WorkspaceName) (path u : Text) (m : ℕ)
      (pane : Text) (o : SpawnOutcome)
      → Leads (RowHas k (RoundIs n)) (λ s w. ReviewLeaves k n s w) more
      → m ≡ n % 2 ^ 32
      → Leads
          (RowHas k (RoundIs n))
          (λ s w. ReviewLeaves k n s w)
          (on_review_exit site land i k change impl prior task more name path u m pane o)
  unfolding on_review_exit
  exit-Leaves more name path u m pane still_running l is =
      Leads-then_after _ _ (search pump_rules) (incomplete-Leaves site i k n name u _)
  exit-Leaves more name path u m pane exited l is =
      Leads-then_after _ _ (search pump_rules)
        (Leads-after _ _ (search pump_rules) (λ d. review_done-Leaves more name u m d l is))

  turn-Leaves :
      (more : Exec PumpError (World X) ReviewStep)
      → Leads (RowHas k (RoundIs n)) (λ s w. ReviewLeaves k n s w) more
      → Leads
          (RowHas k (RoundIs n))
          (λ s w. ReviewLeaves k n s w)
          (review_turn site land i k change impl prior task more)
  unfolding review_turn
  turn-Leaves more l = Leads-bind _ _ (round-Leads site k n) (λ m. Leads-fact _ (λ is.
      Leads-after _ _ (search pump_rules) (λ uuid. Leads-after _ _ (search pump_rules) (λ path.
        Leads-after _ _ (search pump_rules) (λ rendering.
          Leads-then_after _ _ (render-Keeps site impl _ rendering) (
            Leads-after _ _ (search pump_rules) (λ worker.
              Leads-then_after _ _ (search pump_rules) (
                Leads-after _ _ (search pump_rules) (λ pane.
                  Leads-then_after _ _ (search pump_rules) (
                    Leads-after _ _ (search pump_rules)
                      (λ o. exit-Leaves more _ path worker m pane o l is)))))))))))

  pub turns-Leaves :
      (turns : ℕ)
      → Leads
          (RowHas k (RoundIs n))
          (λ s w. ReviewLeaves k n s w)
          (review_turns site land i k change impl prior task turns)
  unfolding review_turns
  turns-Leaves zero = done-Leaves site i k n _ (poison-Ended site k (RoundIs n) none _)
  turns-Leaves (suc t) = turn-Leaves _ (turns-Leaves t)

module _ {X : Type 0} (site : Site X)
    (land : ℤ → Text → Text → Exec PumpError (World X) IssueOutcome) (i : ℤ) (k : Text) (n : ℕ)
    (lands : (change : Text)
      → Leads (RowHas k (Ready site.n_rounds)) (λ o w. Ended k o w) (land i k change)) where
  pub review-Leaves :
      (name : WorkspaceName) (prior : List Finding)
      → Leads
          (RowHas k (RoundIs n))
          (λ s w. ReviewLeaves k n s w)
          (run_adversary_review site land i k name prior)
  unfolding run_adversary_review
  review-Leaves name prior = Leads-after _ _ (search pump_rules) (λ change.
      Leads-then _ _
        (transition-Leads site k (RoundIs n) (RoundIs n) qa_gate adversary_review _ (λ now r h. h))
        (λ u. Leads-then_after _ _ (search pump_rules) (
          Leads-after _ _ (search pump_rules)
            (λ info. turns-Leaves site land i k change name prior _ n (lands change) _))))
