-- ===== src/Phases.antt =====
-- The phase of an issue through `set_phase` and `emit`, as every caller of the two needs it.
pub mod RowHas
use mathlib.Core.Option
use vetinari.Prelude.{
  ℕ, ◌≡◌, refl, sym, ap, false, Text, text_eq, text_eq_refl, Option, none, some, List, arith, ok,
  Bool-cases, inl, inr,
}
use vetinari.Prelude.Exec.{Exec}
use vetinari.Prelude.Exec.Keeps.{Keeps, keeps_rules}
use vetinari.Prelude.Exec.Returns.{Leads}
use vetinari.State.Enums.{Phase, PhaseSubstate, EventKind, substate_enum}
use vetinari.State.Rows.{IssueRow, Payload}
use vetinari.State.Db.{StateDb, execute}
use vetinari.State.Ledger.{append_event}
use vetinari.State.Issues.{find_issue, set_phase, with_phase, substate_column}
use vetinari.State.Issues.Laws.{row, row-set_phase, works_of_ok}
use vetinari.World.{World, in_db, in_log, in_ext}
use vetinari.World.Log.{EventLog}
use vetinari.Events.{emit}
use mathlib.Core.Path.{subst}

-- Where the issue has a row, its phase and its substate are these.
pub record PhaseIs {X : Type 0} (k : Text) (p : Phase) (s : Option Text) (w : World X)
    : Type 0 where
  pub at : (r : IssueRow) → row k w.db ≡ some r → (r.phase ≡ p) × (r.phase_substate ≡ s)

abbrev phase_or : Phase → Option IssueRow → Phase
phase_or p none = p
phase_or p (some r) = r.phase

abbrev substate_or : Option Text → Option IssueRow → Option Text
substate_or s none = s
substate_or s (some r) = r.phase_substate

phase-map :
    (p : Phase) (s : Option PhaseSubstate) (now : ℕ) (o : Option IssueRow) (r : IssueRow)
    → Option.map (with_phase p s now) o ≡ some r
    → (r.phase ≡ p) × (r.phase_substate ≡ substate_column s)
phase-map p s now none r e = cc
phase-map p s now (some x) r e =
    (ap (λ o. phase_or p o) (sym e), ap (λ o. substate_or (substate_column s) o) (sym e))

phase-set_phase :
    (k : Text) (p : Phase) (s : Option PhaseSubstate) (db : StateDb) (u : Unit {0})
    → (set_phase k p s db).0 ≡ ok u
    → (r : IssueRow) → row k (set_phase k p s db).1 ≡ some r
    → (r.phase ≡ p) × (r.phase_substate ≡ substate_column s)
phase-set_phase k p s db u h r e =
    phase-map p s (db.now db.statements) (row k db) r
      (ground (arith, row-set_phase k k p s db, text_eq_refl k, works_of_ok k p s db u h))

-- After `set_phase` returned, the issue stands at that phase.
pub Leads-set_phase :
    {X : Type 0} {R : World X → Type 0} (k : Text) (p : Phase) (s : Option PhaseSubstate)
    → Leads R (λ _ w. PhaseIs k p (substate_column s) w) (in_db (set_phase k p s))
unfolding in_db
Leads-set_phase k p s = record {
  at = λ w _ u h. record { at = λ r e. phase-set_phase k p s w.db u h r e };
}

-- Appending an event writes no other table.
issues-append_event :
    (kind : EventKind) (i u : Option Text) (p : Payload) (db : StateDb)
    → (append_event kind i u p db).1.tables.issues ≡ db.tables.issues
unfolding append_event execute
issues-append_event kind i u p db = ground arith

-- A predicate on the `issues` table.
pub record OnIssues {X : Type 0} (P : List IssueRow → Type 0) (w : World X) : Type 0 where
  pub holds : P w.db.tables.issues

module _ {X : Type 0} {P : List IssueRow → Type 0} where
  OnIssues-append_event :
      (kind : EventKind) (i u : Option Text) (p : Payload)
      → Keeps (OnIssues {X = X} P) (in_db (append_event kind i u p))
  unfolding in_db
  OnIssues-append_event kind i u p = record {
    at = λ w h. record { holds = subst P (sym (issues-append_event kind i u p w.db)) h.holds };
  }

  pub OnIssues-in_log :
      {E A : Type 0} (m : Exec E EventLog A) → Keeps (OnIssues {X = X} P) (in_log m)
  unfolding in_log
  OnIssues-in_log m = record { at = λ w h. record { holds = h.holds } }

  pub OnIssues-in_ext : {E A : Type 0} (m : Exec E X A) → Keeps (OnIssues P) (in_ext m)
  unfolding in_ext
  OnIssues-in_ext m = record { at = λ w h. record { holds = h.holds } }

  pub OnIssues-emit :
      (kind : EventKind) (i u : Option Text) (p : Payload)
      → Keeps (OnIssues {X = X} P) (emit kind i u p)
  unfolding emit
  OnIssues-emit kind i u p = search (keeps_rules, OnIssues-append_event, OnIssues-in_log)

pub issues-emit :
    {X : Type 0} (kind : EventKind) (i u : Option Text) (p : Payload) (w : World X)
    → (emit kind i u p w).1.db.tables.issues ≡ w.db.tables.issues
issues-emit kind i u p w =
    let kept : Keeps (OnIssues (λ rs. rs ≡ w.db.tables.issues)) (emit kind i u p) =
      OnIssues-emit kind i u p in
    (kept.at w (record { holds = refl })).holds

-- `emit` leaves every issue where it stands.
pub Leads-emit :
    {X : Type 0} (k : Text) (q : Phase) (s : Option Text) (kind : EventKind) (i u : Option Text)
    (p : Payload)
    → Leads (PhaseIs {X = X} k q s) (λ _ w. PhaseIs k q s w) (emit kind i u p)
Leads-emit k q s kind i u p = record {
  at = λ w h a e. record { at = λ r m. h.at r (rw (issues-emit kind i u p w) at m) };
}

-- The issue has a row.
abbrev pub IsKnown : Text → List IssueRow → Type 0
IsKnown k rs = (r : IssueRow) × (find_issue k rs ≡ some r)

-- The row of an issue is this one, or it has none.
abbrev pub RowIs : Text → Option IssueRow → List IssueRow → Type 0
RowIs j o rs = find_issue j rs ≡ o

known-map :
    (f : IssueRow → IssueRow) (o : Option IssueRow)
    → ((r : IssueRow) × (o ≡ some r))
    → (r : IssueRow) × (Option.map f o ≡ some r)
known-map f none h = cc h.1
known-map f (some x) h = (f x, refl)

IsKnown-set_phase :
    (k j : Text) (p : Phase) (s : Option PhaseSubstate) (db : StateDb)
    → IsKnown j db.tables.issues
    → IsKnown j (set_phase k p s db).1.tables.issues
IsKnown-set_phase k j p s db h =
    rw (row-set_phase k j p s db) (elim (Bool-cases (db.fails db.statements)) [
      | inl f ↦ rw f h
      | inr f ↦ rw f (elim (Bool-cases (text_eq k j)) [
        | inl e ↦ rw e (known-map (with_phase p s (db.now db.statements)) (row j db) h)
        | inr e ↦ rw e h
      ])
    ])

pub Known-set_phase :
    {X : Type 0} (k j : Text) (p : Phase) (s : Option PhaseSubstate)
    → Keeps (OnIssues {X = X} (IsKnown j)) (in_db (set_phase k p s))
unfolding in_db
Known-set_phase k j p s = record {
  at = λ w h. record { holds = IsKnown-set_phase k j p s w.db h.holds };
}

pub RowIs-set_phase :
    {X : Type 0} (k j : Text) (o : Option IssueRow) (p : Phase) (s : Option PhaseSubstate)
    → text_eq k j ≡ false
    → Keeps (OnIssues {X = X} (RowIs j o)) (in_db (set_phase k p s))
unfolding in_db
RowIs-set_phase k j o p s other = record {
  at = λ w h. record { holds = ground (arith, row-set_phase k j p s w.db, h.holds) };
}
