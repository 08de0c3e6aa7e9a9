-- ===== src/Pump/Implement/Requeues.antt =====
-- How often an issue goes back to its Implementer because of QA, over any history.
use vetinari.Prelude.{ℕ, suc, ◌+◌, ◌-◌, ◌≤◌, ◌<◌, ◌≡◌, ◌⊎◌, inl, inr, Text, some, ok, arith}
use vetinari.Prelude.Int.{ℤ}
use vetinari.State.Enums.{orchestrator_error}
use vetinari.State.Rows.{IssueRow}
use vetinari.State.Issues.Laws.{row}
use vetinari.World.{World}
use vetinari.Names.{WorkspaceName}
use vetinari.Pump.Gate.{IssueOutcome, requeued, orchestrator_error_issue}
use vetinari.Pump.Site.{Site}
use vetinari.Pump.Steps.Laws.{StandsAt}
use vetinari.Pump.Implement.{on_qa_fail}
use vetinari.Pump.Implement.Retry.{Requeued, qa_retries_bounded}

-- The issue keeps a row, whose round is no lower than before.
abbrev pub RoundKept : {X : Type 0} → Text → World X → World X → Type 0
RoundKept k w v =
    (r : IssueRow)
    → row k w.db ≡ some r
    → (q : IssueRow) × (row k v.db ≡ some q) × (r.round ≤ q.round)

-- A history of the issue, with the number of failed QA runs in it that requeued the issue. Between two
-- of them anything happens that does not lower the round.
pub data Requeues {X : Type 0} (site : Site X) (i : ℤ) (k : Text)
    : ℕ → World X → World X → Type 0 where
  start : {w : World X} → Requeues site i k 0 w w
  meanwhile :
      {n : ℕ} {w v u : World X}
      → RoundKept k w v
      → Requeues site i k n v u
      → Requeues site i k n w u
  again :
      {n : ℕ} {w u : World X} (name : WorkspaceName) (code : ℤ) (tail : Text)
      → (on_qa_fail site i k name code tail w).0 ≡ ok requeued
      → Requeues site i k n (on_qa_fail site i k name code tail w).1 u
      → Requeues site i k (suc n) w u

-- Of the two ends of a failed QA run, the one that requeues
requeued_end :
    (n : ℕ) (q : IssueRow)
    → ((n + 1 < 3) × (requeued ≡ requeued) × Requeued n q)
      ⊎ ((3 ≤ n + 1) × (requeued ≡ orchestrator_error_issue) × StandsAt orchestrator_error q)
    → (n + 1 < 3) × (q.round ≡ n + 1)
requeued_end n q (inl (left, same, at)) = (left, at.0)
requeued_end n q (inr (spent, wrong, at)) = cc wrong

module _ {X : Type 0} (site : Site X) (i : ℤ) (k : Text) where
  -- Each requeue raises the round, and takes place below round two.
  rounds :
      {n : ℕ} {w u : World X} (r : IssueRow)
      → Requeues site i k n w u
      → row k w.db ≡ some r
      → (q : IssueRow) × (row k u.db ≡ some q) × (r.round + n ≤ q.round) × (n ≤ 2 - r.round)
  rounds r start there = (r, there, omega arith, omega arith)
  rounds r (meanwhile kept h) there =
      let (q, found, raised) = kept r there in
      let (p, last, up, few) = rounds q h found in
      (p, last, omega (arith, raised, up, few), omega (arith, raised, up, few))
  rounds r (again name code tail returned h) there =
      let (q, found, ended) =
        qa_retries_bounded site i k name code tail requeued r _ there returned in
      let (left, raised) = requeued_end r.round q ended in
      let (p, last, up, few) = rounds q h found in
      (p, last, omega (arith, left, raised, up, few), omega (arith, left, raised, up, few))

-- QA sends an issue back to its Implementer twice at most, counting from round zero, which is one time
-- less than `MAX_QA_RETRIES`. In any history of an issue that has a row, in which nothing lowers its
-- round, at most two less its first round of the failed QA runs requeue it. And a further failed run
-- that returns leaves the row there and does one of two things: below round two it requeues the issue,
-- at `implementing` with no substate, one round on and with its streak of clean rounds reset; from
-- round two on it poisons it, at `orchestrator-error` with no substate.
pub qa_history_bounded :
    {X : Type 0} (site : Site X) (i : ℤ) (k : Text) (name : WorkspaceName) (code : ℤ) (tail : Text)
    (n : ℕ) (w u : World X) (r : IssueRow) (o : IssueOutcome)
    → row k w.db ≡ some r
    → Requeues site i k n w u
    → (on_qa_fail site i k name code tail u).0 ≡ ok o
    → (n ≤ 2 - r.round)
      × (q : IssueRow) × (row k u.db ≡ some q)
      × (r.round + n ≤ q.round)
      × (p : IssueRow) × (row k (on_qa_fail site i k name code tail u).1.db ≡ some p)
      × (((q.round + 1 < 3) × (o ≡ requeued) × Requeued q.round p)
          ⊎ ((3 ≤ q.round + 1) × (o ≡ orchestrator_error_issue) × StandsAt orchestrator_error p))
qa_history_bounded site i k name code tail n w u r o there history returned =
    let (q, found, up, few) = rounds site i k r history there in
    let (p, last, ended) = qa_retries_bounded site i k name code tail o q u found returned in
    (few, q, found, up, p, last, ended)
