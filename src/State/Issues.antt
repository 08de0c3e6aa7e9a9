-- ===== src/State/Issues.antt =====
-- The `issues` table: the statements of `StateDb` on it.
pub mod Laws
use vetinari.Prelude.{
  ℕ, ◌+◌, ◌≡◌, Bool, true, false, Text, msg, text_eq, text_leb, leb, Option, none, some, List, [],
  ◌∷◌, map, find, if◌then◌else◌,
}
use vetinari.Prelude.{ok, err}
use vetinari.Prelude.Exec.{Exec, pure, lift, ◌>>=◌, ◌>>◌}
use vetinari.Error.{StateError, query}
use vetinari.State.Enums.{
  Phase, PhaseSubstate, answer_unreachable, as_str, phase_enum, substate_enum,
}
use vetinari.State.Rows.{IssueRow, Tables}
use vetinari.State.Db.{StateDb, execute}

-- `WHERE issue_id = ?` on the primary key
unfoldable pub find_issue : Text → List IssueRow → Option IssueRow
find_issue k [] = none
find_issue k (r ∷ rs) = if text_eq r.issue_id k then some r else find_issue k rs

-- `UPDATE issues SET … WHERE issue_id = ?`
unfoldable pub update_issue : Text → (IssueRow → IssueRow) → List IssueRow → List IssueRow
update_issue k f [] = []
update_issue k f (r ∷ rs) = (if text_eq r.issue_id k then f r else r) ∷ update_issue k f rs

-- `INSERT … ON CONFLICT(issue_id) DO UPDATE SET` every other column
unfoldable pub put_issue : IssueRow → List IssueRow → List IssueRow
put_issue i [] = i ∷ []
put_issue i (r ∷ rs) = if text_eq r.issue_id i.issue_id then i ∷ rs else r ∷ put_issue i rs

-- `ORDER BY issue_id`
insert_by_id : IssueRow → List IssueRow → List IssueRow
insert_by_id i [] = i ∷ []
insert_by_id i (r ∷ rs) =
    if text_leb i.issue_id r.issue_id then i ∷ r ∷ rs else r ∷ insert_by_id i rs

unfoldable pub order_by_id : List IssueRow → List IssueRow
unfolding insert_by_id
order_by_id [] = []
order_by_id (r ∷ rs) = insert_by_id r (order_by_id rs)

unfoldable pub upsert_issue : IssueRow → Exec StateError StateDb Unit
upsert_issue i =
    execute (msg "upsert issue") (λ now t. (tt, record t { issues = put_issue i t.issues }))

unfoldable pub get_issue : Text → Exec StateError StateDb (Option IssueRow)
get_issue k = execute (msg "get issue") (λ now t. (find_issue k t.issues, t))

unfoldable pub list_issues : Exec StateError StateDb (List IssueRow)
list_issues = execute (msg "query list issues") (λ now t. (order_by_id t.issues, t))

abbrev pub substate_column : Option PhaseSubstate → Option Text
substate_column none = none
substate_column (some s) = some (as_str s)

-- One `UPDATE issues` statement; `f` is given the clock reading that it stamps.
update : Text → Text → (ℕ → IssueRow → IssueRow) → Exec StateError StateDb Unit
update context k f =
    execute context (λ now t. (tt, record t { issues = update_issue k (f now) t.issues }))

abbrev pub with_phase : Phase → Option PhaseSubstate → ℕ → IssueRow → IssueRow
with_phase p s now r = record r { phase = p; phase_substate = substate_column s; updated_at = now }

unfoldable pub set_phase : Text → Phase → Option PhaseSubstate → Exec StateError StateDb Unit
unfolding update
set_phase k p s = update (msg "set issue phase") k (with_phase p s)

unfoldable pub set_phase_substate : Text → Option PhaseSubstate → Exec StateError StateDb Unit
unfolding update
set_phase_substate k s =
    update (msg "set issue phase_substate") k
      (λ now r. record r { phase_substate = substate_column s; updated_at = now })

unfoldable pub set_landing_change : Text → Text → Exec StateError StateDb Unit
unfolding update
set_landing_change k change =
    update (msg "set landing change") k
      (λ now r. record r { landing_change = some change; updated_at = now })

-- `SELECT answer_attempts`: a missing row is an error of `query_row`.
attempts_of : Option IssueRow → Exec StateError StateDb ℕ
attempts_of none = lift (err (query (msg "read answer_attempts")))
attempts_of (some r) = pure r.answer_attempts

read_attempts : Text → Exec StateError StateDb ℕ
unfolding attempts_of
read_attempts k = do
  row ← execute (msg "read answer_attempts") (λ now t. (find_issue k t.issues, t))
  attempts_of row

abbrev one_more_attempt : ℕ → IssueRow → IssueRow
one_more_attempt now r = record r {
  answer_attempts = r.answer_attempts + 1;
  phase_substate = some (as_str answer_unreachable);
  updated_at = now;
}

unfoldable pub record_answer_unreachable : Text → Exec StateError StateDb ℕ
unfolding update read_attempts
record_answer_unreachable k = do
  update (msg "record answer unreachable") k one_more_attempt
  read_attempts k

-- `MAX(answer_attempts, floor)`
abbrev at_least : ℕ → ℕ → IssueRow → IssueRow
at_least floor now r = record r {
  answer_attempts = if leb floor r.answer_attempts then r.answer_attempts else floor;
  phase_substate = some (as_str answer_unreachable);
  updated_at = now;
}

unfoldable pub retire_answer_unreachable : Text → ℕ → Exec StateError StateDb ℕ
unfolding update read_attempts
retire_answer_unreachable k floor = do
  update (msg "retire answer unreachable") k (at_least floor)
  read_attempts k
