-- ===== src/State/Workers/Laws.antt =====
-- The statements on `active_workers` leave the `issues` table alone.
use vetinari.Prelude.{◌≡◌, arith}
use vetinari.Prelude.Exec.{◌>>=◌}
use vetinari.State.Db.{StateDb, execute}
use vetinari.State.Rows.{ActiveWorkerRow}
use vetinari.State.Workers.{upsert_worker}

pub issues-upsert_worker :
    (w : ActiveWorkerRow) (db : StateDb) → (upsert_worker w db).1.tables.issues ≡ db.tables.issues
unfolding upsert_worker execute ◌>>=◌
issues-upsert_worker w db = ground arith
