-- ===== src/Events/Reader/Laws.antt =====
-- What the reader makes of a rebuilt log, and of one that an interrupted write has torn.
use vetinari.Prelude.{
  ℕ, suc, ◌+◌, ◌≡◌, refl, sym, ap, ◌∙◌, true, false, Text, text_eq, none, some, List, [], ◌∷◌, ◌++◌,
  All, length, ◌==◌, arith, Result, ok, err, Bool-cases, inl, inr,
}
use mathlib.Core.List.{append_assoc, append-nil, map}
use vetinari.Prelude.Strings.{newline, lines, lines_from, is_blank, strip_cr}
use vetinari.Prelude.Strings.Laws.{is_line, lines_from-last, lines-cons}
use vetinari.Error.{StateError}
use vetinari.State.Enums.{
  EventKind, spawn, transition, qa_result, watchdog_kill, convergence, event_enum, from_db_str,
  as_str,
}
use vetinari.State.Rows.{EventRow}
use vetinari.Events.{from_row}
use vetinari.Events.Reader.{
  LineCodec, corrupt_line_err, push_known, unparsed, read_lines, read_all, rebuilt_body,
}

abbrev pub without_id : EventRow → EventRow
without_id e = record e { id = 0 }

-- The line of a row is one line that is not blank, and is read as what was written.
abbrev pub IsWritten : LineCodec → EventRow → Type 0
IsWritten codec e =
    (codec.parse (codec.serialize (from_row e)) ≡ some (from_row e))
    × (is_line (codec.serialize (from_row e)) ≡ true)
    × (is_blank (codec.serialize (from_row e)) ≡ false)

abbrev prepend :
    List EventRow → Result StateError (List EventRow) → Result StateError (List EventRow)
prepend es (ok rows) = ok (map without_id es ++ rows)
prepend es (err e) = err e

kind_lem : (k : EventKind) → from_db_str (as_str k) ≡ some k
unfolding from_db_str text_eq
kind_lem spawn = refl
kind_lem transition = refl
kind_lem qa_result = refl
kind_lem watchdog_kill = refl
kind_lem convergence = refl

push-known :
    (e : EventRow) (es : List EventRow) (r : Result StateError (List EventRow))
    → push_known (from_row e) (prepend es r) ≡ prepend (e ∷ es) r
unfolding from_row from_db_str text_eq
push-known e es (ok rows) = rw (kind_lem e.kind) refl
push-known e es (err x) = refl

prepend-nil : (r : Result StateError (List EventRow)) → prepend [] r ≡ r
prepend-nil (ok rows) = refl
prepend-nil (err e) = refl

from_zero : (n : ℕ) → 0 + n ≡ n
from_zero n = omega arith

later : (n k : ℕ) → suc n + k ≡ n + suc k
later n k = omega arith

module _ (codec : LineCodec) (path : Text) where
  -- The rows of the rebuilt part, and then what is read of the rest
  read-rebuilt :
      (n : ℕ) (es : List EventRow) (rest : Text)
      → All (IsWritten codec) es
      → read_lines codec path n (lines_from [] (rebuilt_body codec es ++ rest))
        ≡ prepend es (read_lines codec path (n + length es) (lines_from [] rest))
  unfolding read_lines rebuilt_body
  read-rebuilt n [] rest h =
      ground (arith, prepend-nil (read_lines codec path n (lines_from [] rest)))
  read-rebuilt n (e ∷ es) rest ((parses, line, blank), h) =
      let more = read-rebuilt (suc n) es rest h in
      rw (append_assoc (codec.serialize (from_row e)) (newline ∷ rebuilt_body codec es) rest) (
        rw (lines-cons (codec.serialize (from_row e)) (rebuilt_body codec es ++ rest) line) (
          rw (blank, parses)
            (ap (push_known (from_row e)) more
              ∙ push-known e es _
              ∙ ap (λ m. prepend (e ∷ es) (read_lines codec path m (lines_from [] rest)))
                  (later n (length es)))))

  -- A line that does not parse and is not the last
  unparsed-interior :
      (n c : ℕ) (line s : Text)
      → unparsed codec path n (lines_from (c ∷ line) s) ≡ err (corrupt_line_err path (n + 1))
  unfolding lines_from strip_cr
  unparsed-interior n c line [] = refl
  unparsed-interior n c line (d ∷ s) = elim (Bool-cases (d == newline)) [
    | inl e ↦ rw e refl
    | inr e ↦ rw e (unparsed-interior n c (line ++ d ∷ []) s)
  ]

  read-torn :
      (n : ℕ) (torn : Text)
      → codec.parse torn ≡ none
      → is_line torn ≡ true
      → is_blank torn ≡ false
      → read_lines codec path n (lines_from [] torn) ≡ ok []
  unfolding read_lines lines_from is_blank
  read-torn n [] parses line blank = refl
  read-torn n (c ∷ cs) parses line blank =
      rw (lines_from-last [] (c ∷ cs) line) (rw (blank, parses) refl)

  unparsed-more :
      (n c : ℕ) (s : Text)
      → unparsed codec path n (lines_from [] (c ∷ s)) ≡ err (corrupt_line_err path (n + 1))
  unfolding lines_from strip_cr
  unparsed-more n c s = elim (Bool-cases (c == newline)) [
    | inl e ↦ rw e refl
    | inr e ↦ rw e (unparsed-interior n c [] s)
  ]

  read-corrupt :
      (n : ℕ) (torn : Text) (c : ℕ) (more : Text)
      → codec.parse torn ≡ none
      → is_line torn ≡ true
      → is_blank torn ≡ false
      → read_lines codec path n (lines_from [] (torn ++ newline ∷ c ∷ more))
        ≡ err (corrupt_line_err path (n + 1))
  unfolding read_lines
  read-corrupt n torn c more parses line blank =
      rw (lines-cons torn (c ∷ more) line) (rw (blank, parses) (unparsed-more n c more))

prepend-whole : (es : List EventRow) → prepend es (ok []) ≡ ok (map without_id es)
prepend-whole es = ap ok (append-nil (map without_id es))

-- What `read_all` gives for a log that was rebuilt from rows whose lines are written and read back as
-- they are: those rows without their ids; the same with a torn line behind them, one that does not
-- parse; and if anything follows that line, the error that names it, so that nothing is dropped
-- silently inside the log.
pub read_all-rebuilt_body :
    (codec : LineCodec) (path : Text) (es : List EventRow) (torn : Text) (c : ℕ) (more : Text)
    → All (IsWritten codec) es
    → codec.parse torn ≡ none
    → is_line torn ≡ true
    → is_blank torn ≡ false
    → (read_all codec path (ok (some (rebuilt_body codec es))) ≡ ok (map without_id es))
      × (read_all codec path (ok (some (rebuilt_body codec es ++ torn))) ≡ ok (map without_id es))
      × (read_all codec path (ok (some (rebuilt_body codec es ++ (torn ++ newline ∷ c ∷ more))))
          ≡ err (corrupt_line_err path (length es + 1)))
unfolding read_all read_lines lines lines_from
read_all-rebuilt_body codec path es torn c more written parses line blank = (
  ap (λ s. read_lines codec path 0 (lines_from [] s)) (sym (append-nil (rebuilt_body codec es)))
      ∙ read-rebuilt codec path 0 es [] written
      ∙ prepend-whole es,
  read-rebuilt codec path 0 es torn written
      ∙ ap (prepend es) (read-torn codec path (0 + length es) torn parses line blank)
      ∙ prepend-whole es,
  read-rebuilt codec path 0 es (torn ++ newline ∷ c ∷ more) written
      ∙ ap (prepend es) (read-corrupt codec path (0 + length es) torn c more parses line blank)
      ∙ ap (λ n. err (corrupt_line_err path (n + 1))) (from_zero (length es)),
)
