-- ===== src/State/Ledger.antt =====
-- The `posted_artifacts` ledger and the `events` table: the statements of `StateDb` on them.
pub mod Laws
use mathlib.Core.List.{reverse}
use vetinari.Prelude.{
  ℕ, ◌+◌, ◌≡◌, Bool, true, false, ◌&&◌, Text, msg, text_eq, Option, none, some, List, [], ◌∷◌, ◌++◌,
  any, take, select, leb, if◌then◌else◌, ◌==◌,
}
use vetinari.Prelude.Int.{ℤ, eq_ℤ, leb_ℤ}
use vetinari.Prelude.Exec.{Exec}
use vetinari.Error.{StateError}
use vetinari.State.Enums.{EventKind}
use vetinari.State.Rows.{PostedArtifact, EventRow, Payload, Tables}
use vetinari.State.Db.{StateDb, execute}

-- The ledger's primary key.
pub record Key : Type 0 where
  pub issue_id : Text
  pub artifact_path : Text
  pub content_sha : Text
  pub finding_index : ℤ

abbrev pub key_of : PostedArtifact → Key
key_of p = record {
  issue_id = p.issue_id;
  artifact_path = p.artifact_path;
  content_sha = p.content_sha;
  finding_index = p.finding_index;
}

unfoldable pub key_eq : Key → Key → Bool
key_eq a b =
    text_eq a.issue_id b.issue_id
    && (text_eq a.artifact_path b.artifact_path
        && (text_eq a.content_sha b.content_sha && eq_ℤ a.finding_index b.finding_index))

-- `SELECT COUNT(*) … WHERE` the key matches, `> 0`
unfoldable pub has_key : Key → List PostedArtifact → Bool
has_key k = any (λ r. key_eq (key_of r) k)

-- `INSERT OR IGNORE`, and whether a row was inserted
unfoldable pub insert_or_ignore : PostedArtifact → List PostedArtifact → Bool × List PostedArtifact
insert_or_ignore p rows = if has_key (key_of p) rows then (false, rows) else (true, rows ++ p ∷ [])

unfoldable pub record_posted : PostedArtifact → Exec StateError StateDb Bool
record_posted p = execute (msg "record posted artifact") (λ now t.
    let (inserted, rows) = insert_or_ignore p t.posted in (inserted, record t { posted = rows }))

unfoldable pub is_posted : Key → Exec StateError StateDb Bool
is_posted k = execute (msg "check posted artifact") (λ now t. (has_key k t.posted, t))

-- `ORDER BY posted_at, finding_index`
before : PostedArtifact → PostedArtifact → Bool
before a b =
    if a.posted_at == b.posted_at
    then leb_ℤ a.finding_index b.finding_index
    else leb a.posted_at b.posted_at

insert_posted : PostedArtifact → List PostedArtifact → List PostedArtifact
unfolding before
insert_posted p [] = p ∷ []
insert_posted p (r ∷ rs) = if before p r then p ∷ r ∷ rs else r ∷ insert_posted p rs

order_posted : List PostedArtifact → List PostedArtifact
unfolding insert_posted
order_posted [] = []
order_posted (r ∷ rs) = insert_posted r (order_posted rs)

unfoldable pub list_posted_artifacts : Text → Exec StateError StateDb (List PostedArtifact)
unfolding order_posted
list_posted_artifacts k =
    execute (msg "query list posted artifacts")
      (λ now t. (order_posted (select (λ r. text_eq r.issue_id k) t.posted), t))

-- `INTEGER PRIMARY KEY`: one more than the largest id.
next_id : List EventRow → ℕ
next_id [] = 1
next_id (e ∷ es) = let n = next_id es in if leb n e.id then e.id + 1 else n

-- `append_event`: the new id and the timestamp that it was stamped with.
unfoldable pub append_event :
    EventKind → Option Text → Option Text → Payload → Exec StateError StateDb (ℕ × ℕ)
unfolding next_id
append_event kind issue worker payload = execute (msg "append event") (λ now t.
    let id = next_id t.events in
    let e : EventRow = record {
      id = id;
      ts = now;
      kind = kind;
      issue_id = issue;
      worker_uuid = worker;
      payload = payload;
    } in
    ((id, now), record t { events = t.events ++ e ∷ [] }))

-- `ORDER BY id DESC LIMIT ?`: rows are appended with increasing ids.
unfoldable pub recent_events : ℕ → Exec StateError StateDb (List EventRow)
recent_events limit =
    execute (msg "query recent events") (λ now t. (take limit (reverse t.events), t))

unfoldable pub all_events : Exec StateError StateDb (List EventRow)
all_events = execute (msg "query all events") (λ now t. (t.events, t))
