-- ===== src/Answer/Sweep/Bound.antt =====
-- The cap on the deliveries of one sweep.
use vetinari.Prelude.{
  ℕ, suc, ◌+◌, ◌≤◌, ◌≡◌, Text, Option, none, some, List, [], ◌∷◌, leb, ok, arith, Bool-cases, inl,
  inr,
}
use vetinari.Prelude.Int.{ℤ}
use vetinari.Prelude.Exec.{Exec}
use vetinari.Prelude.Exec.Returns.{Leads, Leads-bind, Leads-any, Leads-pure}
use vetinari.Error.{PumpError}
use vetinari.State.Rows.{IssueRow}
use vetinari.World.{World}
use vetinari.World.Tracker.{CrosslinkRepo, AnswerTransport}
use vetinari.Answer.Retry.{max_answer_deliveries_per_tick}
use vetinari.Answer.Delivery.{AnswerAction, answered, unreachable, retry_skipped}
use vetinari.Answer.Sweep.{
  sweep, sweep_row, after_attempt, deliver_pending, Due, passed_over, held_back, to_deliver, due,
}

-- How many of the actions are deliveries.
unfoldable pub delivered : List AnswerAction → ℕ
delivered [] = 0
delivered (answered i ∷ xs) = suc (delivered xs)
delivered (unreachable i n ∷ xs) = suc (delivered xs)
delivered (retry_skipped i r ∷ xs) = delivered xs

delivered-cons :
    (a : AnswerAction) (xs : List AnswerAction) → delivered (a ∷ xs) ≤ suc (delivered xs)
unfolding delivered
delivered-cons (answered i) xs = ground arith
delivered-cons (unreachable i n) xs = ground arith
delivered-cons (retry_skipped i r) xs = ground arith

module _ {X : Type 0} (repo : CrosslinkRepo X) (transport : AnswerTransport X)
    (own_slug socket_root : Text) (interval : ℤ) (now : ℕ) where
  -- What is left of the cap when `n` deliveries were made.
  abbrev Capped : ℕ → List AnswerAction → World X → Type 0
  Capped n xs w = n + delivered xs ≤ max_answer_deliveries_per_tick

  -- Starting under the cap, the rest stays under it.
  abbrev Bounded : (ℕ → Exec PumpError (World X) (List AnswerAction)) → Type 0
  Bounded rest =
      (n : ℕ)
      → n ≤ max_answer_deliveries_per_tick
      → Leads (λ w. Unit) (λ xs w. Capped n xs w) (rest n)

  after_attempt-Bounded :
      (n : ℕ) (rest : ℕ → Exec PumpError (World X) (List AnswerAction)) (o : Option AnswerAction)
      → Bounded rest
      → suc n ≤ max_answer_deliveries_per_tick
      → Leads
          (λ w. Unit)
          (λ xs w. Capped n xs w)
          (after_attempt repo transport own_slug socket_root interval now n rest o)
  unfolding after_attempt
  after_attempt-Bounded n rest none b h = b n (ground arith)
  after_attempt-Bounded n rest (some a) b h =
      Leads-bind (rest (suc n)) _ (b (suc n) h)
        (λ xs. Leads-pure (a ∷ xs) (λ w c. omega (arith, delivered-cons a xs, c)))

  sweep_row-Bounded :
      (n : ℕ) (row : IssueRow) (rest : ℕ → Exec PumpError (World X) (List AnswerAction)) (d : Due)
      → Bounded rest
      → suc n ≤ max_answer_deliveries_per_tick
      → Leads
          (λ w. Unit)
          (λ xs w. Capped n xs w)
          (sweep_row repo transport own_slug socket_root interval now n row rest d)
  unfolding sweep_row delivered
  sweep_row-Bounded n row rest passed_over b h = b n (ground arith)
  sweep_row-Bounded n row rest (held_back i r) b h =
      Leads-bind (rest n) _ (b n (ground arith))
        (λ xs. Leads-pure (retry_skipped i r ∷ xs) (λ w c. c))
  sweep_row-Bounded n row rest (to_deliver i s) b h =
      Leads-any _ _ (λ r. Leads-any _ _ (λ o. after_attempt-Bounded n rest o b h))

  sweep-Bounded :
      (rows : List IssueRow)
      → Bounded (λ n. sweep repo transport own_slug socket_root interval now n rows)
  unfolding sweep delivered
  sweep-Bounded [] n h = Leads-pure [] (λ w c. omega (arith, h))
  sweep-Bounded (row ∷ rows) n h = elim (Bool-cases (leb max_answer_deliveries_per_tick n)) [
    | inl e ↦ rw e (Leads-pure [] (λ w c. omega (arith, h)))
    | inr e ↦ rw e (
        sweep_row-Bounded n row (λ m. sweep repo transport own_slug socket_root interval now m rows)
          (due row interval now) (sweep-Bounded rows) (ground arith))
  ]

-- However many issues are due, and whatever crosslink and the peers answer: of the actions that a
-- sweep returns, at most `max_answer_deliveries_per_tick` are deliveries that were recorded, with
-- success or as a failure.
pub deliver_pending_bound :
    {X : Type 0} (repo : CrosslinkRepo X) (transport : AnswerTransport X)
    (own_slug socket_root : Text) (interval : ℤ) (now : ℕ) (w : World X)
    (actions : List AnswerAction)
    → (deliver_pending repo transport own_slug socket_root interval now w).0 ≡ ok actions
    → delivered actions ≤ max_answer_deliveries_per_tick
unfolding deliver_pending
deliver_pending_bound repo transport own_slug socket_root interval now w actions h =
    let under : 0 + delivered actions ≤ max_answer_deliveries_per_tick =
      (Leads-any {P = λ v. Unit} {Q = λ xs v. 0 + delivered xs ≤ max_answer_deliveries_per_tick} _ _
          (λ rows.
            sweep-Bounded repo transport own_slug socket_root interval now rows 0
              (ground arith))).at
        w tt actions h in
    omega (arith, under)
