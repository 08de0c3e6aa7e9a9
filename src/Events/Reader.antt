-- ===== src/Events/Reader.antt =====
-- `read_all`, `tail` and the body of `rebuild_from` in crates/orchestrator/src/events.rs: the text of
-- `events.jsonl`. A line is written and read by serde_json, a `LineCodec`.
pub mod Laws
pub mod Tests
use vetinari.Prelude.{
  ℕ, suc, ◌+◌, ◌-◌, Bool, true, false, Text, msg, Option, none, some, List, [], ◌∷◌, ◌++◌, drop,
  length, ltb, Result, ok, err, if◌then◌else◌,
}
use vetinari.Prelude.Int.{show_nat}
use vetinari.Prelude.Strings.{newline, lines, is_blank}
use vetinari.Error.{StateError, query}
use vetinari.State.Enums.{EventKind, event_enum, from_db_str}
use vetinari.State.Rows.{EventRow}
use vetinari.World.Log.{EventLine}
use vetinari.Events.{from_row}

pub record LineCodec : Type 0 where
  pub serialize : EventLine → Text
  pub parse : Text → Option EventLine

-- The log has no id.
abbrev pub row_of : EventLine → EventKind → EventRow
row_of parsed kind = record {
  id = 0;
  ts = parsed.ts;
  kind = kind;
  issue_id = parsed.issue_id;
  worker_uuid = parsed.worker_uuid;
  payload = parsed.payload;
}

-- A kind that this binary does not know is passed over.
abbrev pub push_known :
    EventLine → Result StateError (List EventRow) → Result StateError (List EventRow)
push_known parsed (err e) = err e
push_known parsed (ok rows) = elim (from_db_str ⦃e = event_enum⦄ parsed.kind) [
  | none ↦ ok rows
  | some kind ↦ ok (row_of parsed kind ∷ rows)
]

unfoldable pub corrupt_line_err : Text → ℕ → StateError
corrupt_line_err path line_no =
    query (
      path
      ++ msg " is corrupted at line "
      ++ show_nat line_no
      ++ msg " (unparseable interior line)")

module _ (codec : LineCodec) (path : Text) where
  -- A line that does not parse: the last one may be torn.
  abbrev pub unparsed : ℕ → List Text → Result StateError (List EventRow)
  unparsed idx [] = ok []
  unparsed idx (l ∷ ls) = err (corrupt_line_err path (idx + 1))

  unfoldable pub read_lines : ℕ → List Text → Result StateError (List EventRow)
  read_lines idx [] = ok []
  read_lines idx (line ∷ rest) =
      let more = read_lines (suc idx) rest in
      if is_blank line then more else (elim (codec.parse line) [
        | none ↦ unparsed idx rest
        | some parsed ↦ push_known parsed more
      ])

  -- A missing file is an empty log; any other failure to read is an error.
  unfoldable pub read_all : Result StateError (Option Text) → Result StateError (List EventRow)
  read_all (err e) = err e
  read_all (ok none) = read_lines 0 (lines [])
  read_all (ok (some content)) = read_lines 0 (lines content)

  abbrev last_rows : ℕ → List EventRow → List EventRow
  last_rows limit all = if ltb limit (length all) then drop (length all - limit) all else all

  unfoldable pub tail : Result StateError (Option Text) → ℕ → Result StateError (List EventRow)
  tail file limit = elim (read_all file) [ err e ↦ err e | ok all ↦ ok (last_rows limit all) ]

-- The whole file that `rebuild_from` writes
unfoldable pub rebuilt_body : LineCodec → List EventRow → Text
rebuilt_body codec [] = []
rebuilt_body codec (e ∷ es) = codec.serialize (from_row e) ++ newline ∷ rebuilt_body codec es
