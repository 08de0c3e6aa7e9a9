-- ===== src/Events.antt =====
-- crates/orchestrator/src/events.rs: the `events.jsonl` mirror and `emit`, the paired writer.
-- The file is its lines; that the n-th write to it fails is the environment's choice, and then no
-- line is added (a torn last line is passed over by the reader).
pub mod Reader
use vetinari.Prelude.{ℕ, suc, Text, msg, Option, [], ◌∷◌, ◌++◌, ok, err, if◌then◌else◌}
use vetinari.Prelude.Exec.{Exec, pure, ◌>>=◌, ◌>>◌}
use vetinari.Error.{StateError, query}
use vetinari.State.Enums.{EventKind, as_str, event_enum}
use vetinari.State.Rows.{EventRow, Payload}
use vetinari.State.Ledger.{append_event}
use vetinari.World.{World, in_db, in_log}
use vetinari.World.Log.{EventLog, EventLine}

-- `EventLine::from_row`
unfoldable pub from_row : EventRow → EventLine
from_row r = record {
  ts = r.ts;
  kind = as_str r.kind;
  issue_id = r.issue_id;
  worker_uuid = r.worker_uuid;
  payload = r.payload;
}

unfoldable pub append : EventRow → Exec StateError EventLog Unit
unfolding from_row
append e log =
    let n = log.writes in
    let log' = record log { writes = suc n } in
    if log.write_fails n
    then (err (query (msg "events.jsonl")), log')
    else (ok tt, record log' { lines = log.lines ++ from_row e ∷ [] })

-- SQLite first: the row is the authority and its `ts` goes into the line.
unfoldable pub emit :
    {X : Type 0} → EventKind → Option Text → Option Text → Payload → Exec StateError (World X) ℕ
emit kind issue worker payload = do
  (id, ts) ← in_db (append_event kind issue worker payload)
  in_log (
      append (record {
        id = id;
        ts = ts;
        kind = kind;
        issue_id = issue;
        worker_uuid = worker;
        payload = payload;
      }))
  pure id
