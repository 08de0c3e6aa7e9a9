-- ===== src/Pump/Implement/Laws.antt =====
-- What a round of implementation leaves: an ended issue, or the row at the same round.
use mathlib.Core.Option.{some-injective}
use vetinari.Prelude.{
  ℕ, refl, Bool, true, false, not, Text, Option, none, some, List, Result, ok, err, ◌==◌,
}
use vetinari.Prelude.Int.{ℤ}
use vetinari.Prelude.Exec.{Exec, pure, ◌>>=◌}
use vetinari.Error.{PumpError}
use vetinari.Prelude.Exec.Keeps.{Keeps}
use vetinari.Prelude.Exec.Returns.{
  Leads, Leads-bind, Leads-then, Leads-pure, Leads-if, Leads-after, Leads-then_after, Leads-weaken,
}
use vetinari.State.Enums.{Phase, qa_gate}
use vetinari.State.Rows.{IssueRow}
use vetinari.World.{World}
use vetinari.Phases.{OnIssues}
use vetinari.Phases.RowHas.{RowHas, Got, Leads-get, Got-RowHas, has-upsert_lem}
use vetinari.Names.{WorkspaceName}
use vetinari.Artifacts.{ArtifactError}
use vetinari.Artifacts.Findings.{Finding}
use vetinari.Artifacts.Done.{DoneSentinel}
use vetinari.Pump.Gate.{IssueOutcome, requeued}
use vetinari.Pump.Site.{Site, SpawnOutcome, exited, still_running, QaOutcome, qa_pass, qa_fail}
use vetinari.Pump.Steps.Laws.{pump_rules, StandsAt, AnyRow, transition-Leads}
use vetinari.Pump.Outcomes.{Ended, RoundIs, poison-Ended, round-Leads, store-Leads}
use vetinari.Pump.Implement.{
  ImplStep, impl_done, qa_passed, unstreaked, reset_streak, retry_or_poison, on_qa_fail, on_qa,
  change_differs, judge_change, on_done, on_exit, run_implementer_round,
}

-- After a pass of QA the round is what it was.
abbrev pub ImplLeaves : {X : Type 0} → Text → ℕ → ImplStep → World X → Type 0
ImplLeaves k n (impl_done o) w = Ended k o w
ImplLeaves k n (qa_passed name) w = RowHas k (RoundIs n) w

module _ {X : Type 0} (k : Text) (n : ℕ) where
  reset-Leads :
      (o : Option IssueRow)
      → Leads {S = World X} (Got k (RoundIs n) o) (λ u w. RowHas k (RoundIs n) w) (reset_streak o)
  unfolding reset_streak
  reset-Leads none = record { at = λ w g u e. cc (g.read) }
  reset-Leads (some i) =
      Leads-if (not (i.empty_round_streak == 0)) _ _
        (has-upsert_lem k (RoundIs n) (RoundIs n) (some i) (unstreaked i)
          (λ r e h. rw (some-injective i r e) (refl, h)))
        (Leads-pure tt (λ w g. Got-RowHas k (RoundIs n) (some i) w g))

module _ {X : Type 0} (site : Site X) (i : ℤ) (k : Text) (n : ℕ) where
  retry-Ended :
      (o : Option IssueRow)
      → Leads (Got k (RoundIs n) o) (λ x w. Ended k x w) (retry_or_poison site i k o)
  unfolding retry_or_poison
  retry-Ended o =
      Leads-if _ _ _
        (Leads-weaken _ (λ w g. Got-RowHas k (RoundIs n) o w g)
          (poison-Ended site k (RoundIs n) none _))
        (Leads-then _ _ (store-Leads k (RoundIs n) AnyRow _ o (λ r e h. (refl, tt))) (λ u.
          Leads-then _ _
            (transition-Leads site k AnyRow (StandsAt Phase.implementing) qa_gate Phase.implementing
              _ (λ now r h. (refl, refl)))
            (λ v. Leads-pure requeued (λ w h. h))))

  qa_fail-Ended :
      (name : WorkspaceName) (code : ℤ) (tail : Text)
      → Leads (RowHas k (RoundIs n)) (λ x w. Ended k x w) (on_qa_fail site i k name code tail)
  unfolding on_qa_fail
  qa_fail-Ended name code tail = Leads-then_after _ _ (search pump_rules) (
      Leads-then_after _ _ (search pump_rules)
        (Leads-bind _ _ (Leads-get k (RoundIs n)) (λ o. retry-Ended o)))

  -- An outcome of the round, once its issue has ended
  as_done-Leaves :
      (m : Exec PumpError (World X) IssueOutcome) {P : World X → Type 0}
      → Leads P (λ x w. Ended k x w) m
      → Leads P (λ s w. ImplLeaves k n s w) (m >>= λ x. pure (impl_done x))
  as_done-Leaves m l = Leads-bind _ _ l (λ x. Leads-pure (impl_done x) (λ w h. h))

  qa-Leaves :
      (name : WorkspaceName) (u : Text) (r : Result Text QaOutcome)
      → Leads (RowHas k (RoundIs n)) (λ s w. ImplLeaves k n s w) (on_qa site i k name u r)
  unfolding on_qa
  qa-Leaves name u (ok qa_pass) =
      Leads-then_after _ _ (search pump_rules)
        (Leads-then_after _ _ (search pump_rules) (Leads-pure (qa_passed name) (λ w h. h)))
  qa-Leaves name u (ok (qa_fail code tail)) =
      Leads-then_after _ _ (search pump_rules)
        (Leads-then_after _ _ (search pump_rules) (as_done-Leaves _ (qa_fail-Ended name code tail)))
  qa-Leaves name u (err e) = Leads-then_after _ _ (search pump_rules) (
      Leads-then_after _ _ (search pump_rules)
        (as_done-Leaves _ (poison-Ended site k (RoundIs n) (some name) _)))

  judge-Leaves :
      (name : WorkspaceName) (path u : Text) (b : Bool)
      → Leads
          (RowHas k (RoundIs n))
          (λ s w. ImplLeaves k n s w)
          (judge_change site i k name path u b)
  unfolding judge_change
  judge-Leaves name path u false =
      Leads-then_after _ _ (search pump_rules)
        (as_done-Leaves _ (poison-Ended site k (RoundIs n) (some name) _))
  judge-Leaves name path u true =
      Leads-then _ _
        (transition-Leads site k (RoundIs n) (RoundIs n) Phase.implementing qa_gate _
          (λ now r h. h))
        (λ v. Leads-after _ _ (search pump_rules) (λ qa. qa-Leaves name u qa))

  differs-Keeps :
      (base change : Text) {P : List IssueRow → Type 0}
      → Keeps (OnIssues P) (change_differs site i k base change)
  unfolding change_differs
  differs-Keeps base change = search pump_rules depth 9

  done-Leaves :
      (name : WorkspaceName) (path u : Text) (d : Result ArtifactError DoneSentinel)
      → Leads (RowHas k (RoundIs n)) (λ s w. ImplLeaves k n s w) (on_done site i k name path u d)
  unfolding on_done
  done-Leaves name path u (err e) = Leads-then_after _ _ (search pump_rules) (
      Leads-then_after _ _ (search pump_rules)
        (as_done-Leaves _ (poison-Ended site k (RoundIs n) (some name) _)))
  done-Leaves name path u (ok d) = Leads-then_after _ _ (search pump_rules) (
      Leads-after _ _ (search pump_rules) (λ change.
        Leads-after _ _ (differs-Keeps _ change) (λ differs. judge-Leaves name path u differs)))

  exit-Leaves :
      (name : WorkspaceName) (path u pane : Text) (o : SpawnOutcome)
      → Leads
          (RowHas k (RoundIs n))
          (λ s w. ImplLeaves k n s w)
          (on_exit site i k name path u pane o)
  unfolding on_exit
  exit-Leaves name path u pane still_running = Leads-then_after _ _ (search pump_rules) (
      Leads-then_after _ _ (search pump_rules)
        (as_done-Leaves _ (poison-Ended site k (RoundIs n) (some name) _)))
  exit-Leaves name path u pane exited =
      Leads-then_after _ _ (search pump_rules)
        (Leads-after _ _ (search pump_rules) (λ d. done-Leaves name path u d))

  pub implement-Leaves :
      (prior : List Finding)
      → Leads
          (RowHas k (RoundIs n))
          (λ s w. ImplLeaves k n s w)
          (run_implementer_round site i k prior)
  unfolding run_implementer_round
  implement-Leaves prior = Leads-bind _ _ (round-Leads site k n) (λ round.
      Leads-bind _ _ (Leads-weaken _ (λ w h. h.1) (Leads-get k (RoundIs n))) (λ o.
        Leads-then _ _ (reset-Leads k n o) (λ u. Leads-after _ _ (search pump_rules) (λ uuid.
          Leads-after _ _ (search pump_rules) (λ path. Leads-then_after _ _ (search pump_rules) (
            Leads-after _ _ (search pump_rules) (λ worker.
              Leads-then_after _ _ (search pump_rules) (
                Leads-after _ _ (search pump_rules) (λ pane.
                  Leads-then_after _ _ (search pump_rules) (
                    Leads-after _ _ (search pump_rules)
                      (λ o'. exit-Leaves _ path worker pane o')))))))))))
