-- ===== src/State/Db.antt =====
-- `StateDb` of crates/orchestrator/src/state.rs: the connection and its statements. SQLite is not
-- modelled beyond the meaning of the statements; that the n-th statement fails (a lock that
-- outlasts the busy timeout, a full disk) is the environment's choice, and such a statement has
-- changed nothing. `now_unix` is the environment's clock at that statement.
use vetinari.Prelude.{ℕ, suc, Bool, Text, if◌then◌else◌}
use vetinari.Prelude.{ok, err}
use vetinari.Prelude.Exec.{Exec}
use vetinari.Error.{StateError, query}
use vetinari.State.Rows.{Tables}

pub record StateDb : Type 0 where
  pub tables : Tables
  pub statements : ℕ
  pub fails : ℕ → Bool
  pub now : ℕ → ℕ

-- A statement that reads the tables and writes them, at the clock reading that it is given.
unfoldable pub execute : {A : Type 0} → Text → (ℕ → Tables → A × Tables) → Exec StateError StateDb A
execute context f db =
    let n = db.statements in
    let db' = record db { statements = suc n } in
    if db.fails n
    then (err (query context), db')
    else (let (a, t) = f (db.now n) db.tables in (ok a, record db' { tables = t }))
