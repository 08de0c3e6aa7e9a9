-- ===== src/Answer/Sweep.antt =====
-- The sweep over the issues that await an answer: `deliver_pending`.
pub mod Bound
use vetinari.Prelude.{
  ℕ, suc, ◌+◌, Bool, true, false, Text, codes, msg, Option, none, some, List, [], ◌∷◌, ◌++◌, leb,
  Result, ok, err, if◌then◌else◌,
}
use vetinari.Prelude.Int.{ℤ, parse_i64}
use vetinari.Prelude.Exec.{Exec, pure, try, ◌>>=◌, ◌>>◌}
use vetinari.Error.{PumpError, StateError, crosslink, state}
use vetinari.State.Enums.{
  PhaseSubstate, answer_pending, answer_unreachable, from_db_str, substate_enum,
}
use vetinari.State.Rows.{IssueRow}
use vetinari.State.Issues.{list_issues}
use vetinari.World.{World}
use vetinari.World.Tracker.{CrosslinkRepo, AnswerTransport}
use vetinari.Answer.Retry.{
  Verdict, attempt, skip, SkipReason, retry_guard, max_answer_deliveries_per_tick,
}
use vetinari.Answer.Delivery.{
  AnswerAction, retry_skipped, parsed_substate, db_step, emit_answer, attempt_delivery,
}

-- What the sweep decides on a row before it goes to the wire.
pub data Due : Type 0 where
  passed_over : Due
  held_back : ℤ → SkipReason → Due
  to_deliver : ℤ → PhaseSubstate → Due

of_verdict : ℤ → Verdict → Due
of_verdict issue_id attempt = to_deliver issue_id answer_unreachable
of_verdict issue_id (skip reason) = held_back issue_id reason

of_id : IssueRow → Option PhaseSubstate → Option ℤ → ℤ → ℕ → Due
unfolding of_verdict
of_id row (some answer_pending) (some issue_id) interval now = to_deliver issue_id answer_pending
of_id row (some answer_unreachable) (some issue_id) interval now =
    of_verdict issue_id (retry_guard issue_id row.answer_attempts interval row.updated_at now)
of_id row sub id interval now = passed_over

unfoldable pub due : IssueRow → ℤ → ℕ → Due
unfolding of_id
due row interval now = of_id row (parsed_substate row) (parse_i64 row.issue_id) interval now

error_text : PumpError → Text
error_text (crosslink e) = e
error_text (state e) = msg "state.db"
error_text other = msg "another fault of the pump"

module _ {X : Type 0} (repo : CrosslinkRepo X) (transport : AnswerTransport X)
    (own_slug socket_root : Text) (interval : ℤ) (now : ℕ) where
  -- One issue's delivery, isolated: the action of an `Ok`, none after an `Err` that was logged.
  isolated :
      IssueRow → Result PumpError AnswerAction → Exec PumpError (World X) (Option AnswerAction)
  unfolding error_text
  isolated row (ok action) = pure (some action)
  isolated row (err e) = do
    emit_answer row.issue_id (
        (codes "answer", codes "sweep_error")
        ∷ (codes "reason", msg "per-issue delivery attempt errored — skipped this tick")
        ∷ (codes "detail", error_text e)
        ∷ [])
    pure none

  -- What follows one row; `rest` is the loop over the rows behind it, at a count of deliveries.
  after_attempt :
      ℕ
      → (ℕ → Exec PumpError (World X) (List AnswerAction))
      → Option AnswerAction
      → Exec PumpError (World X) (List AnswerAction)
  after_attempt deliveries rest none = rest deliveries
  after_attempt deliveries rest (some action) = do
    actions ← rest (suc deliveries)
    pure (action ∷ actions)

  unfoldable pub sweep_row :
      ℕ
      → IssueRow
      → (ℕ → Exec PumpError (World X) (List AnswerAction))
      → Due
      → Exec PumpError (World X) (List AnswerAction)
  unfolding isolated after_attempt
  sweep_row deliveries row rest passed_over = rest deliveries
  sweep_row deliveries row rest (held_back issue_id reason) = do
    actions ← rest deliveries
    pure (retry_skipped issue_id reason ∷ actions)
  sweep_row deliveries row rest (to_deliver issue_id sub) = do
    result ← try (attempt_delivery repo transport own_slug socket_root issue_id sub)
    done ← isolated row result
    after_attempt deliveries rest done

  -- The loop over the rows, with the count of deliveries so far.
  unfoldable pub sweep : ℕ → List IssueRow → Exec PumpError (World X) (List AnswerAction)
  sweep deliveries [] = pure []
  sweep deliveries (row ∷ rows) =
      if leb max_answer_deliveries_per_tick deliveries
      then pure []
      else sweep_row deliveries row (λ n. sweep n rows) (due row interval now)

  unfoldable pub deliver_pending : Exec PumpError (World X) (List AnswerAction)
  deliver_pending = do rows ← db_step list_issues; sweep 0 rows
