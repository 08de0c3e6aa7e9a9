-- ===== src/Answer/Delivery/Queue.antt =====
-- The trigger of an answer: when an issue is queued, and that it is queued once.
use mathlib.Core.Path.{subst}
use vetinari.Prelude.{
  ◌≡◌, ◌≢◌, ◌⊎◌, refl, sym, ap, ◌∙◌, Bool, true, false, Text, text_eq, Option, some, List, ok, inl,
  inr, Bool-cases,
}
use vetinari.Prelude.Int.{ℤ, show_i64}
use vetinari.Prelude.Exec.Keeps.{Keeps, keeps_rules}
use vetinari.Prelude.Exec.Returns.{
  Leads, Leads-bind, Leads-then, Leads-pure, Leads-if, Leads-after, Leads-kept,
}
use vetinari.Error.{PumpError}
use vetinari.State.Enums.{answer_pending, as_str, substate_enum, is_terminal, from_db_str}
use vetinari.State.Rows.{IssueRow, Payload}
use vetinari.State.Issues.Laws.{row}
use vetinari.World.{World}
use vetinari.World.Tracker.{CrosslinkRepo}
use vetinari.Phases.{OnIssues, OnIssues-emit, OnIssues-in_ext}
use vetinari.Phases.RowHas.{RowHas, Got, Leads-get, Got-RowHas, has-set_phase_substate}
use vetinari.Answer.Delivery.{
  on_issue_terminal, trigger_row, arm, emit_answer, is_answer_substate, parsed_substate,
}
use vetinari.Answer.Delivery.Laws.{on_issue_terminal_lem}

pub emit_answer-Keeps :
    {X : Type 0} {P : List IssueRow → Type 0} (key : Text) (payload : Payload)
    → Keeps (OnIssues {X = X} P) (emit_answer key payload)
unfolding emit_answer
emit_answer-Keeps key payload = search (keeps_rules, OnIssues-emit)

abbrev Same : IssueRow → IssueRow → Type 0
Same r q = q ≡ r

abbrev Queued : IssueRow → IssueRow → Type 0
Queued r q = (q.phase ≡ r.phase) × (q.phase_substate ≡ some (as_str answer_pending))

-- At a terminal phase, and not in the answer machine
abbrev IsOwed : IssueRow → Type 0
IsOwed r = (is_terminal r.phase ≡ true) × (is_answer_substate (parsed_substate r) ≡ false)

abbrev Triggered : {X : Type 0} → Text → IssueRow → Bool → World X → Type 0
Triggered k r false w = RowHas k (Same r) w
Triggered k r true w = IsOwed r × RowHas k (Queued r) w

queued_substate :
    (q : IssueRow)
    → q.phase_substate ≡ some (as_str answer_pending)
    → is_answer_substate (parsed_substate q) ≡ true
unfolding from_db_str text_eq
queued_substate q e = rw e refl

module _ {X : Type 0} (repo : CrosslinkRepo X) (i : ℤ) (r : IssueRow) where
  row-Leads :
      Leads {E = PumpError} {S = World X}
        (RowHas (show_i64 i) (Same r))
        (λ b w. Triggered (show_i64 i) r b w)
        (trigger_row repo i (some r))
  unfolding trigger_row arm
  row-Leads = elim (Bool-cases (is_terminal r.phase)) [
    | inr ongoing ↦ rw ongoing (Leads-pure false (λ w h. h))
    | inl ended ↦ rw ended (elim (Bool-cases (is_answer_substate (parsed_substate r))) [
      | inl known ↦ rw known (Leads-pure false (λ w h. h))
      | inr unknown ↦ rw unknown (
          Leads-after _ _ (search (keeps_rules, OnIssues-in_ext)) (λ info.
            Leads-if _ _ _ (Leads-pure false (λ w h. h)) (
              Leads-then _ _
                (has-set_phase_substate (show_i64 i) (Same r) (Queued r) (some answer_pending)
                  (λ now x h. (ap (λ (y : IssueRow). y.phase) h, refl)))
                (λ u.
                  Leads-then _ _ (Leads-kept _ (emit_answer-Keeps _ _))
                    (λ v. Leads-pure true (λ w h. ((ended, unknown), h)))))))
    ])
  ]

  trigger-Leads :
      (o : Option IssueRow)
      → Leads
          (Got (show_i64 i) (Same r) o)
          (λ b w. Triggered (show_i64 i) r b w)
          (trigger_row repo i o)
  trigger-Leads o = record {
    at = λ w g b e.
        (subst
            (λ x.
              Leads (RowHas (show_i64 i) (Same r)) (λ b w. Triggered (show_i64 i) r b w)
                (trigger_row repo i x))
            (sym (g.read ∙ ap some g.sat)) row-Leads).at
          w (Got-RowHas (show_i64 i) (Same r) o w g) b e;
  }

  terminal-Leads :
      Leads
        (RowHas (show_i64 i) (Same r))
        (λ b w. Triggered (show_i64 i) r b w)
        (on_issue_terminal repo i)
  unfolding on_issue_terminal
  terminal-Leads = Leads-bind _ _ (Leads-get (show_i64 i) (Same r)) trigger-Leads

split :
    {X : Type 0} (repo : CrosslinkRepo X) (i : ℤ) (r : IssueRow) (b : Bool) (w : World X)
    → Triggered (show_i64 i) r b w
    → (q : IssueRow) × (row (show_i64 i) w.db ≡ some q)
      × (q.phase ≡ r.phase)
      × (((b ≡ false) × (q ≡ r))
          ⊎ ((b ≡ true)
              × (is_terminal r.phase ≡ true)
              × (is_answer_substate (parsed_substate r) ≡ false)
              × (q.phase_substate ≡ some (as_str answer_pending))
              × ((on_issue_terminal repo i w).0 ≢ ok true)))
split repo i r false w h =
    let (q, found, same) = h.holds in
    (q, found, ap (λ (y : IssueRow). y.phase) same, inl (refl, same))
split repo i r true w ((ended, unknown), h) =
    let (q, found, (phase, queued)) = h.holds in
    let again = on_issue_terminal_lem repo i q w (inr (queued_substate q queued)) found in
    (q, found, phase, inr (refl, ended, unknown, queued, again.2))

-- The trigger queues an answer once. Where it returns for an issue that has a row, the row is still
-- there at the same phase, and either it returned `false` and the row is what it was; or it returned
-- `true`, the phase is terminal, the issue was not in the answer machine, it stands at
-- `answer_pending` now, and the next call for it does not return `true`.
pub queued_once :
    {X : Type 0} (repo : CrosslinkRepo X) (i : ℤ) (r : IssueRow) (b : Bool) (w : World X)
    → row (show_i64 i) w.db ≡ some r
    → (on_issue_terminal repo i w).0 ≡ ok b
    → (q : IssueRow) × (row (show_i64 i) (on_issue_terminal repo i w).1.db ≡ some q)
      × (q.phase ≡ r.phase)
      × (((b ≡ false) × (q ≡ r))
          ⊎ ((b ≡ true)
              × (is_terminal r.phase ≡ true)
              × (is_answer_substate (parsed_substate r) ≡ false)
              × (q.phase_substate ≡ some (as_str answer_pending))
              × ((on_issue_terminal repo i (on_issue_terminal repo i w).1).0 ≢ ok true)))
queued_once repo i r b w there h =
    split repo i r b _ ((terminal-Leads repo i r).at w (record { holds = (r, there, refl) }) b h)
