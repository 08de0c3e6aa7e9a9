-- ===== src/State/Schema.antt =====
-- Opening `state.db`: the forward-only migrations of crates/orchestrator/src/state.rs.
pub mod Laws
use vetinari.Prelude.{
  ℕ, zero, suc, ◌≡◌, Bool, true, false, not, Text, msg, none, map, List, [], ltb, ◌==◌,
  if◌then◌else◌, ok, err,
}
use vetinari.Prelude.Exec.{Exec, pure, raise, mapping_err, ◌>>=◌, ◌>>◌}
use vetinari.Error.{StateError, migration}
use vetinari.State.Rows.{IssueRow, Tables}
use vetinari.State.Db.{StateDb, execute}

abbrev pub schema_version : ℕ
schema_version = 3

abbrev add_answer_attempts : IssueRow → IssueRow
add_answer_attempts r = record r { answer_attempts = 0 }

abbrev add_landing_change : IssueRow → IssueRow
add_landing_change r = record r { landing_change = none }

-- What a migration script does to the rows. V1 creates the four tables, empty: a database at version 0
-- has none of them yet (one that has them and whose version was set back is not represented). V2 and V3 add a
-- column to `issues`, which existing rows read back as 0 and as NULL.
unfoldable pub script : ℕ → Tables → Tables
script zero t = t
script (suc zero) t = record t { issues = []; workers = []; posted = []; events = [] }
script (suc (suc zero)) t = record t { issues = map add_answer_attempts t.issues }
script (suc (suc (suc zero))) t = record t { issues = map add_landing_change t.issues }
script _ t = t

read_version : Exec StateError StateDb ℕ
read_version =
    mapping_err (λ _. migration schema_version)
      (execute (msg "PRAGMA user_version") (λ now t. (t.user_version, t)))

-- One transaction: the script and the new `user_version`, or neither.
unfoldable pub apply_migration : ℕ → Exec StateError StateDb Unit
apply_migration version =
    mapping_err (λ _. migration version)
      (execute (msg "migration")
        (λ now t. (tt, record (script version t) { user_version = version })))

when : Bool → Exec StateError StateDb Unit → Exec StateError StateDb Unit
when b m = if b then m else pure tt

unfoldable pub migrate : Exec StateError StateDb Unit
unfolding read_version when
migrate = do
  current ← read_version
  if current == schema_version
      then pure tt
      else if ltb schema_version current
      then raise (migration schema_version)
      else (do
        when (ltb current 1) (apply_migration 1)
        when (ltb current 2) (apply_migration 2)
        when (ltb current 3) (apply_migration 3))

-- The read-only opener's check.
unfoldable pub verify_schema_version : Exec StateError StateDb Unit
unfolding read_version
verify_schema_version = do
  current ← read_version
  if not (current == schema_version) then raise (migration schema_version) else pure tt
