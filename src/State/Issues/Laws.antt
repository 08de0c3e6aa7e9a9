-- ===== src/State/Issues/Laws.antt =====
-- Lookups in the `issues` table after its statements.
use mathlib.Core.Option
use vetinari.Prelude.{
  ℕ, suc, ◌+◌, ◌≤◌, ◌≡◌, refl, false, Text, text_eq, text_eq_iff, text_eq_refl, Option, none, some,
  List, [], ◌∷◌, arith, if◌then◌else◌, ok,
}
use vetinari.Prelude.Exec.{◌>>=◌, ◌>>◌}
use vetinari.State.Enums.{Phase, PhaseSubstate}
use vetinari.State.Rows.{IssueRow}
use vetinari.State.Db.{StateDb, execute}
use vetinari.State.Issues.{
  find_issue, update_issue, put_issue, with_phase, set_phase, upsert_issue, get_issue,
  one_more_attempt, at_least, record_answer_unreachable, retire_answer_unreachable,
}

-- Which row a lookup sees after an update: the updated one at that key, the old one elsewhere.
pub find-update :
    (k j : Text) (f : IssueRow → IssueRow) (rs : List IssueRow)
    → ((r : IssueRow) → (f r).issue_id ≡ r.issue_id)
    → find_issue j (update_issue k f rs)
      ≡ (if text_eq k j then Option.map f (find_issue j rs) else find_issue j rs)
unfolding find_issue update_issue
find-update k j f [] h = ground arith
find-update k j f (r ∷ rs) h = ground (
  arith,
  h r,
  find-update k j f rs h,
  text_eq_iff r.issue_id k,
  text_eq_iff r.issue_id j,
  text_eq_iff k j,
)

pub find-put :
    (i : IssueRow) (j : Text) (rs : List IssueRow)
    → find_issue j (put_issue i rs) ≡ (if text_eq i.issue_id j then some i else find_issue j rs)
unfolding find_issue put_issue
find-put i j [] = ground arith
find-put i j (r ∷ rs) = ground (
  arith,
  find-put i j rs,
  text_eq_iff r.issue_id i.issue_id,
  text_eq_iff r.issue_id j,
  text_eq_iff i.issue_id j,
)

-- A found row has the key that was looked for.
pub id-find :
    (k : Text) (rs : List IssueRow) (r : IssueRow) → find_issue k rs ≡ some r → r.issue_id ≡ k
unfolding find_issue
id-find k [] r h = cc
id-find k (x ∷ rs) r h = ground (arith, text_eq_iff x.issue_id k, id-find k rs r)

-- The row of an issue, as the next statement finds it.
abbrev pub row : Text → StateDb → Option IssueRow
row k db = find_issue k db.tables.issues

-- `set_phase` sets the phase, the substate and the time stamp of one issue and leaves every other
-- issue and every other column; a statement that fails leaves the whole table.
pub row-set_phase :
    (k j : Text) (p : Phase) (s : Option PhaseSubstate) (db : StateDb)
    → row j (set_phase k p s db).1 ≡ (
        if db.fails db.statements
        then row j db
        else if text_eq k j
        then Option.map (with_phase p s (db.now db.statements)) (row j db)
        else row j db)
unfolding set_phase execute
row-set_phase k j p s db =
    ground
      (arith, find-update k j (with_phase p s (db.now db.statements)) db.tables.issues (λ r. refl))

-- A statement that returned did not fail.
pub works_of_ok :
    (k : Text) (p : Phase) (s : Option PhaseSubstate) (db : StateDb) (u : Unit {0})
    → (set_phase k p s db).0 ≡ ok u
    → db.fails db.statements ≡ false
unfolding set_phase execute
works_of_ok k p s db u h = ground arith

-- After an upsert that succeeds, `get_issue` returns the upserted row for its id, and for any other
-- id what it returned before; `get_issue` changes no table.
get-upsert :
    (i : IssueRow) (j : Text) (db : StateDb)
    → db.fails db.statements ≡ false
    → db.fails (suc db.statements) ≡ false
    → ((get_issue j (upsert_issue i db).1).0
        ≡ ok (if text_eq i.issue_id j then some i else row j db))
      × ((get_issue j (upsert_issue i db).1).1.tables ≡ (upsert_issue i db).1.tables)
unfolding get_issue upsert_issue execute
get-upsert i j db h h' = ground (arith, find-put i j db.tables.issues)

abbrev pub attempts : Option IssueRow → ℕ
attempts none = 0
attempts (some r) = r.answer_attempts

-- When either of the two failure records returns a count, that count is the one stored in the row;
-- it is one more than before for a transient failure, and for a permanent one it is at least the
-- floor and never less than before.
pub attempts_stored :
    (k : Text) (floor n : ℕ) (db : StateDb)
    → ((record_answer_unreachable k db).0 ≡ ok n
        → (attempts (row k (record_answer_unreachable k db).1) ≡ n) × (n ≡ attempts (row k db) + 1))
      × ((retire_answer_unreachable k floor db).0 ≡ ok n
          → (attempts (row k (retire_answer_unreachable k floor db).1) ≡ n)
            × (floor ≤ n)
            × (attempts (row k db) ≤ n))
unfolding record_answer_unreachable retire_answer_unreachable execute ◌>>=◌ ◌>>◌
attempts_stored k floor n db =
    let now = db.now db.statements in
    let rs = db.tables.issues in
    ground (
      arith,
      find-update k k (one_more_attempt now) rs (λ r. refl),
      find-update k k (at_least floor now) rs (λ r. refl),
      text_eq_refl k,
    )
