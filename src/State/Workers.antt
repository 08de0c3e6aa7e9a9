-- ===== src/State/Workers.antt =====
-- The `active_workers` table: the statements of `StateDb` on it.
pub mod Laws
use vetinari.Prelude.{
  ℕ, Bool, true, false, Text, msg, text_eq, leb, Option, none, some, List, [], ◌∷◌, map, not,
  select, if◌then◌else◌,
}
use vetinari.Prelude.{ok, err}
use vetinari.Prelude.Exec.{Exec, lift, ◌>>=◌}
use vetinari.Error.{StateError, query}
use vetinari.State.Rows.{ActiveWorkerRow, Tables}
use vetinari.State.Db.{StateDb, execute}
use vetinari.State.Issues.{find_issue}

unfoldable pub find_worker : Text → List ActiveWorkerRow → Option ActiveWorkerRow
find_worker k [] = none
find_worker k (r ∷ rs) = if text_eq r.worker_uuid k then some r else find_worker k rs

-- `INSERT … ON CONFLICT(worker_uuid) DO UPDATE SET` every other column
put_worker : ActiveWorkerRow → List ActiveWorkerRow → List ActiveWorkerRow
put_worker w [] = w ∷ []
put_worker w (r ∷ rs) = if text_eq r.worker_uuid w.worker_uuid then w ∷ rs else r ∷ put_worker w rs

-- The foreign key into `issues`, enforced on this connection: a row for an unknown issue is refused.
guarded_put : ActiveWorkerRow → Tables → Bool × Tables
unfolding put_worker
guarded_put w t = elim (find_issue w.issue_id t.issues) [
  | none ↦ (false, t)
  | some _ ↦ (true, record t { workers = put_worker w t.workers })
]

refuse : Bool → Exec StateError StateDb Unit
refuse true = lift (ok tt)
refuse false = lift (err (query (msg "upsert worker")))

unfoldable pub upsert_worker : ActiveWorkerRow → Exec StateError StateDb Unit
unfolding guarded_put refuse
upsert_worker w = do done ← execute (msg "upsert worker") (λ now t. guarded_put w t); refuse done

unfoldable pub get_worker : Text → Exec StateError StateDb (Option ActiveWorkerRow)
get_worker k = execute (msg "get worker") (λ now t. (find_worker k t.workers, t))

-- `ORDER BY spawned_at`; SQLite leaves the order of ties open, and this is the stable one.
insert_by_spawn : ActiveWorkerRow → List ActiveWorkerRow → List ActiveWorkerRow
insert_by_spawn w [] = w ∷ []
insert_by_spawn w (r ∷ rs) =
    if leb w.spawned_at r.spawned_at then w ∷ r ∷ rs else r ∷ insert_by_spawn w rs

order_by_spawn : List ActiveWorkerRow → List ActiveWorkerRow
unfolding insert_by_spawn
order_by_spawn [] = []
order_by_spawn (r ∷ rs) = insert_by_spawn r (order_by_spawn rs)

unfoldable pub list_active_workers : Exec StateError StateDb (List ActiveWorkerRow)
unfolding order_by_spawn
list_active_workers = execute (msg "query list workers") (λ now t. (order_by_spawn t.workers, t))

-- `DELETE FROM active_workers WHERE worker_uuid = ?`
unfoldable pub delete_worker : Text → List ActiveWorkerRow → List ActiveWorkerRow
delete_worker k = select (λ r. not (text_eq r.worker_uuid k))

unfoldable pub remove_worker : Text → Exec StateError StateDb Unit
remove_worker k =
    execute (msg "remove worker") (λ now t. (tt, record t { workers = delete_worker k t.workers }))

touch : Text → ℕ → ActiveWorkerRow → ActiveWorkerRow
touch k ts r = if text_eq r.worker_uuid k then record r { last_heartbeat = ts } else r

unfoldable pub touch_heartbeat : Text → ℕ → Exec StateError StateDb Unit
unfolding touch
touch_heartbeat k ts =
    execute (msg "touch worker heartbeat")
      (λ now t. (tt, record t { workers = map (touch k ts) t.workers }))
