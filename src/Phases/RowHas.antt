-- ===== src/Phases/RowHas.antt =====
-- The row of an issue is there and satisfies a predicate: what the statements and the reads of an
-- issue make of it.
use mathlib.Core.Path.{subst}
use vetinari.Prelude.{
  ℕ, ◌≡◌, refl, sym, ◌∙◌, Text, text_eq_refl, Option, some, List, arith, ok, Bool-cases, inl, inr,
}
use vetinari.Prelude.Exec.{Exec, mapping_err}
use vetinari.Prelude.Exec.Keeps.{Keeps}
use vetinari.Prelude.Exec.Returns.{Leads, Leads-mapping_err}
use vetinari.Error.{PumpError, StateError, state}
use vetinari.State.Enums.{Phase, PhaseSubstate}
use vetinari.State.Rows.{IssueRow, Tables}
use vetinari.State.Db.{StateDb, execute}
use vetinari.State.Issues.{
  find_issue, set_phase, with_phase, get_issue, upsert_issue, set_landing_change, update_issue,
  set_phase_substate, substate_column,
}
use vetinari.State.Issues.Laws.{row, find-put, find-update, id-find}
use vetinari.World.{World, in_db}
use vetinari.Phases.{OnIssues}

-- The issue has a row, and the row satisfies the predicate.
abbrev pub RowHas : {X : Type 0} → Text → (IssueRow → Type 0) → World X → Type 0
RowHas k P = OnIssues (λ rs. (r : IssueRow) × (find_issue k rs ≡ some r) × P r)

pub RowHas-map :
    {X : Type 0} {P Q : IssueRow → Type 0} (k : Text) (w : World X)
    → ((r : IssueRow) → P r → Q r)
    → RowHas k P w
    → RowHas k Q w
RowHas-map k w step h = let (r, found, sat) = h.holds in record { holds = (r, found, step r sat) }

-- What was read is the row, and satisfies the predicate.
pub record Got {X : Type 0} (k : Text) (P : IssueRow → Type 0) (o : Option IssueRow) (w : World X)
    : Type 0 where
  pub issue : IssueRow
  pub read : o ≡ some issue
  pub found : row k w.db ≡ some issue
  pub sat : P issue

-- A statement that leaves the `issues` table alone
statement-issues :
    {A : Type 0} (context : Text) (f : ℕ → Tables → A × Tables) (db : StateDb)
    → ((now : ℕ) (t : Tables) → (f now t).1.issues ≡ t.issues)
    → (execute context f db).1.tables.issues ≡ db.tables.issues
unfolding execute
statement-issues context f db h = ground (arith, h (db.now db.statements) db.tables)

pub statement-Keeps :
    {X A : Type 0} {P : List IssueRow → Type 0} (context : Text) (f : ℕ → Tables → A × Tables)
    → ((now : ℕ) (t : Tables) → (f now t).1.issues ≡ t.issues)
    → Keeps (OnIssues {X = X} P) (in_db (execute context f))
unfolding in_db
statement-Keeps {P} context f h = record {
  at = λ w i. record { holds = subst P (sym (statement-issues context f w.db h)) i.holds };
}

module _ {X : Type 0} (k : Text) (P : IssueRow → Type 0) where
  Got-get_issue :
      (w : World X) (o : Option IssueRow)
      → RowHas k P w
      → (get_issue k w.db).0 ≡ ok o
      → Got k P o (record w { db = (get_issue k w.db).1 })
  unfolding get_issue execute
  Got-get_issue w o h e =
      let (r, found, sat) = h.holds in
      record {
        issue = r;
        read = ground (arith, found, e);
        found = ground (arith, found);
        sat = sat;
      }

  pub Leads-get :
      Leads {E = PumpError} {S = World X}
        (RowHas k P)
        (λ o w. Got k P o w)
        (mapping_err state (in_db (get_issue k)))
  unfolding in_db
  Leads-get = Leads-mapping_err state _ (record { at = λ w h o e. Got-get_issue w o h e })

  -- The read leaves the row where it was.
  pub Got-RowHas : (o : Option IssueRow) (w : World X) → Got k P o w → RowHas k P w
  Got-RowHas o w g = record { holds = (g.issue, g.found, g.sat) }

-- One `UPDATE issues … WHERE issue_id = ?`, at the clock reading that it stamps
abbrev pub updating : Text → Text → (ℕ → IssueRow → IssueRow) → Exec StateError StateDb Unit
updating context k f =
    execute context (λ now t. (tt, record t { issues = update_issue k (f now) t.issues }))

abbrev KeepsId : (ℕ → IssueRow → IssueRow) → Type 0
KeepsId f = (now : ℕ) (r : IssueRow) → (f now r).issue_id ≡ r.issue_id

module _ (k context : Text) (P Q : IssueRow → Type 0) (f : ℕ → IssueRow → IssueRow)
    (ids : KeepsId f) (step : (now : ℕ) (r : IssueRow) → P r → Q (f now r)) where
  updated :
      (db : StateDb) (u : Unit {0}) (r : IssueRow)
      → row k db ≡ some r
      → P r
      → (updating context k f db).0 ≡ ok u
      → (q : IssueRow) × (row k (updating context k f db).1 ≡ some q) × Q q
  unfolding execute
  updated db u r e h returned =
      let now = db.now db.statements in
      (
        f now r,
        ground (
          arith,
          find-update k k (f now) db.tables.issues (ids now),
          text_eq_refl k,
          e,
          returned,
        ),
        step now r h,
      )

  pub update-Leads :
      {X : Type 0}
      → Leads {E = PumpError} {S = World X}
          (RowHas k P)
          (λ u w. RowHas k Q w)
          (mapping_err state (in_db (updating context k f)))
  unfolding in_db
  update-Leads = Leads-mapping_err state _ (record {
    at =
        λ w h u e. let (r, found, sat) = h.holds in record { holds = updated w.db u r found sat e };
  })

module _ (k context : Text) (P : IssueRow → Type 0) (f : ℕ → IssueRow → IssueRow) (ids : KeepsId f)
    (step : (now : ℕ) (r : IssueRow) → P r → P (f now r)) where
  still :
      (db : StateDb) (r : IssueRow)
      → row k db ≡ some r
      → P r
      → (q : IssueRow) × (row k (updating context k f db).1 ≡ some q) × P q
  unfolding execute
  still db r e h = elim (Bool-cases (db.fails db.statements)) [
    | inl fails ↦ (r, ground (arith, fails, e), h)
    | inr works ↦
        let now = db.now db.statements in
        (
          f now r,
          ground
              (arith, find-update k k (f now) db.tables.issues (ids now), text_eq_refl k, e, works),
          step now r h,
        )
  ]

  pub update-Keeps : {X : Type 0} → Keeps (RowHas {X = X} k P) (in_db (updating context k f))
  unfolding in_db
  update-Keeps = record {
    at = λ w h. let (r, found, sat) = h.holds in record { holds = still w.db r found sat };
  }

module _ {X : Type 0} (k : Text) (P Q : IssueRow → Type 0) where
  pub has-set_phase_lem :
      (p : Phase) (s : Option PhaseSubstate)
      → ((now : ℕ) (r : IssueRow) → P r → Q (with_phase p s now r))
      → Leads {E = PumpError} {S = World X}
          (RowHas k P)
          (λ u w. RowHas k Q w)
          (mapping_err state (in_db (set_phase k p s)))
  unfolding set_phase
  has-set_phase_lem p s step = update-Leads k _ P Q (with_phase p s) (λ now r. refl) step

  pub has-set_landing_change :
      (change : Text)
      → ((now : ℕ) (r : IssueRow)
          → P r
          → Q (record r { landing_change = some change; updated_at = now }))
      → Leads {E = PumpError} {S = World X}
          (RowHas k P)
          (λ u w. RowHas k Q w)
          (mapping_err state (in_db (set_landing_change k change)))
  unfolding set_landing_change
  has-set_landing_change change step = update-Leads k _ P Q _ (λ now r. refl) step

  pub has-set_phase_substate :
      (s : Option PhaseSubstate)
      → ((now : ℕ) (r : IssueRow)
          → P r
          → Q (record r { phase_substate = substate_column s; updated_at = now }))
      → Leads {E = PumpError} {S = World X}
          (RowHas k P)
          (λ u w. RowHas k Q w)
          (mapping_err state (in_db (set_phase_substate k s)))
  unfolding set_phase_substate
  has-set_phase_substate s step = update-Leads k _ P Q _ (λ now r. refl) step

module _ {X : Type 0} (k : Text) (P : IssueRow → Type 0) where
  pub set_phase-Keeps :
      (p : Phase) (s : Option PhaseSubstate)
      → ((now : ℕ) (r : IssueRow) → P r → P (with_phase p s now r))
      → Keeps (RowHas {X = X} k P) (in_db (set_phase k p s))
  unfolding set_phase
  set_phase-Keeps p s step = update-Keeps k _ P (with_phase p s) (λ now r. refl) step

module _ (k : Text) (P Q : IssueRow → Type 0) where
  has-upsert :
      (i : IssueRow) (db : StateDb) (u : Unit {0})
      → i.issue_id ≡ k
      → Q i
      → (upsert_issue i db).0 ≡ ok u
      → (q : IssueRow) × (row k (upsert_issue i db).1 ≡ some q) × Q q
  unfolding upsert_issue execute
  has-upsert i db u id h returned =
      (i, ground (arith, find-put i k db.tables.issues, text_eq_refl k, id), h)

  pub has-upsert_lem :
      {X : Type 0} (o : Option IssueRow) (i : IssueRow)
      → ((r : IssueRow) → o ≡ some r → P r → (i.issue_id ≡ r.issue_id) × Q i)
      → Leads {E = PumpError} {S = World X}
          (Got k P o)
          (λ u w. RowHas k Q w)
          (mapping_err state (in_db (upsert_issue i)))
  unfolding in_db
  has-upsert_lem o i step = Leads-mapping_err state _ (record {
    at = λ w g u e.
        let s = step g.issue g.read g.sat in
        record {
          holds = has-upsert i w.db u (s.0 ∙ id-find k w.db.tables.issues g.issue g.found) s.1 e;
        };
  })
