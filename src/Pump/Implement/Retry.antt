-- ===== src/Pump/Implement/Retry.antt =====
-- What a failed QA run makes of the issue.
use mathlib.Core.Path.{subst}
use vetinari.Prelude.{
  ℕ, ◌+◌, ◌≤◌, ◌<◌, ◌≡◌, refl, sym, ap, ◌∙◌, ◌⊎◌, leb, Text, Option, none, some, arith, Bool-cases,
  inl, inr, ok,
}
use vetinari.Prelude.Int.{ℤ}
use vetinari.Prelude.Exec.Returns.{Leads, Leads-bind, Leads-then, Leads-pure, Leads-then_after}
use vetinari.State.Enums.{orchestrator_error, implementing, qa_gate}
use vetinari.State.Rows.{IssueRow}
use vetinari.State.Issues.Laws.{row}
use vetinari.World.{World}
use vetinari.Phases.RowHas.{RowHas, Got, Leads-get, Got-RowHas}
use vetinari.Names.{WorkspaceName}
use vetinari.Pump.Gate.{
  IssueOutcome, merged_issue, pr_open_issue, awaiting_human_merge_issue,
  awaiting_inbound_approval_issue, requeued, orchestrator_error_issue,
}
use vetinari.Pump.Site.{Site}
use vetinari.Pump.Steps.Laws.{pump_rules, StandsAt, poison-Leads, transition-Leads}
use vetinari.Pump.Outcomes.{RoundIs, store-Leads}
use vetinari.Pump.Implement.{max_qa_retries, row_round, retry_or_poison, on_qa_fail}

-- Back at the Implementer, one round on, with the streak of clean rounds gone
abbrev pub Requeued : ℕ → IssueRow → Type 0
Requeued n r =
    (r.round ≡ n + 1)
    × (r.empty_round_streak ≡ 0)
    × (r.phase ≡ implementing)
    × (r.phase_substate ≡ none)

abbrev pub RetryLeaves : {X : Type 0} → Text → ℕ → IssueOutcome → World X → Type 0
RetryLeaves k n requeued w = (n + 1 < 3) × RowHas k (Requeued n) w
RetryLeaves k n orchestrator_error_issue w = (3 ≤ n + 1) × RowHas k (StandsAt orchestrator_error) w
RetryLeaves k n _ w = ⊥

abbrev pub Advanced : ℕ → IssueRow → Type 0
Advanced n r = (r.round ≡ n + 1) × (r.empty_round_streak ≡ 0)

read_round :
    {X : Type 0} (k : Text) (n : ℕ) (o : Option IssueRow) (w : World X)
    → Got k (RoundIs n) o w
    → row_round o ≡ n
read_round k n o w g = ap row_round g.read ∙ g.sat

poisoned :
    {X : Type 0} (k : Text) (n : ℕ) (o : IssueOutcome) (w : World X)
    → 3 ≤ n + 1
    → (o ≡ orchestrator_error_issue) × RowHas k (StandsAt orchestrator_error) w
    → RetryLeaves k n o w
poisoned k n o w spent (is, there) = subst (λ x. RetryLeaves k n x w) (sym is) (spent, there)

module _ {X : Type 0} (site : Site X) (i : ℤ) (k : Text) (n : ℕ) where
  decided :
      (o : Option IssueRow)
      → row_round o ≡ n
      → Leads (Got k (RoundIs n) o) (λ x w. RetryLeaves k n x w) (retry_or_poison site i k o)
  unfolding retry_or_poison
  decided o at_round = elim (Bool-cases (leb max_qa_retries (row_round o + 1))) [
    | inl spent ↦ rw spent (record {
      at = λ w g x e.
          poisoned k n x _ (ground (arith, spent, at_round))
            ((poison-Leads site k (RoundIs n) none _).at w (Got-RowHas k (RoundIs n) o w g) x e);
    })
    | inr left ↦ rw left (
        Leads-then _ _
          (store-Leads k (RoundIs n) (Advanced n) _ o
            (λ r e h. (refl, (ap (λ (m : ℕ). m + 1) at_round, refl))))
          (λ u.
            Leads-then _ _
              (transition-Leads site k (Advanced n) (Requeued n) qa_gate implementing _
                (λ now r h. (h.0, h.1, refl, refl)))
              (λ v. Leads-pure requeued (λ w h. (ground (arith, left, at_round), h)))))
  ]

  retry-Leads :
      (o : Option IssueRow)
      → Leads (Got k (RoundIs n) o) (λ x w. RetryLeaves k n x w) (retry_or_poison site i k o)
  retry-Leads o = record { at = λ w g x e. (decided o (read_round k n o w g)).at w g x e }

  fail-Leads :
      (name : WorkspaceName) (code : ℤ) (tail : Text)
      → Leads
          (RowHas k (RoundIs n))
          (λ x w. RetryLeaves k n x w)
          (on_qa_fail site i k name code tail)
  unfolding on_qa_fail
  fail-Leads name code tail = Leads-then_after _ _ (search pump_rules) (
      Leads-then_after _ _ (search pump_rules)
        (Leads-bind _ _ (Leads-get k (RoundIs n)) (λ o. retry-Leads o)))

split :
    {X : Type 0} (k : Text) (n : ℕ) (o : IssueOutcome) (w : World X)
    → RetryLeaves k n o w
    → (q : IssueRow) × (row k w.db ≡ some q)
      × (((n + 1 < 3) × (o ≡ requeued) × Requeued n q)
          ⊎ ((3 ≤ n + 1) × (o ≡ orchestrator_error_issue) × StandsAt orchestrator_error q))
split k n requeued w (left, h) = let (q, found, at) = h.holds in (q, found, inl (left, refl, at))
split k n orchestrator_error_issue w (spent, h) =
    let (q, found, at) = h.holds in (q, found, inr (spent, refl, at))
split k n merged_issue w h = absurd h
split k n pr_open_issue w h = absurd h
split k n awaiting_human_merge_issue w h = absurd h
split k n awaiting_inbound_approval_issue w h = absurd h

-- One failed QA run that returns for an issue that has a row leaves the row there, and either its
-- round was below two and it is requeued, or its round was two or more and it is poisoned.
pub qa_retries_bounded :
    {X : Type 0} (site : Site X) (i : ℤ) (k : Text) (name : WorkspaceName) (code : ℤ) (tail : Text)
    (o : IssueOutcome) (r : IssueRow) (w : World X)
    → row k w.db ≡ some r
    → (on_qa_fail site i k name code tail w).0 ≡ ok o
    → (q : IssueRow) × (row k (on_qa_fail site i k name code tail w).1.db ≡ some q)
      × (((r.round + 1 < 3) × (o ≡ requeued) × Requeued r.round q)
          ⊎ ((3 ≤ r.round + 1) × (o ≡ orchestrator_error_issue) × StandsAt orchestrator_error q))
qa_retries_bounded site i k name code tail o r w there h =
    split k r.round o _
      ((fail-Leads site i k r.round name code tail).at w (record { holds = (r, there, refl) }) o h)
