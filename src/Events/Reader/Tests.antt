-- ===== src/Events/Reader/Tests.antt =====
-- A log with one line, a torn line, and a line behind it.
use vetinari.Prelude.{
  ◌+◌, ◌≡◌, refl, false, Text, codes, text_eq, none, some, [], ◌∷◌, ◌++◌, All, length, ok, err,
  if◌then◌else◌,
}
use mathlib.Core.List.{map}
use vetinari.Prelude.Int.{show_nat}
use vetinari.Prelude.Strings.{newline, is_blank, is_whitespace}
use vetinari.State.Enums.{spawn}
use vetinari.State.Rows.{EventRow}
use vetinari.World.Log.{EventLine}
use vetinari.Events.{from_row}
use vetinari.Events.Reader.{LineCodec, corrupt_line_err, read_all, rebuilt_body}
use vetinari.Events.Reader.Laws.{without_id, IsWritten, read_all-rebuilt_body}

abbrev an_event : EventRow
an_event = record {
  id = 3;
  ts = 5;
  kind = spawn;
  issue_id = some (codes "7");
  worker_uuid = none;
  payload = [];
}

abbrev the_line : EventLine
the_line = record {
  ts = 5;
  kind = codes "spawn";
  issue_id = some (codes "7");
  worker_uuid = none;
  payload = [];
}

-- Knows that one line
abbrev a_codec : LineCodec
a_codec = record {
  serialize = λ l. codes "{ts:" ++ show_nat l.ts ++ codes "}";
  parse = λ s. if text_eq s (codes "{ts:5}") then some the_line else none;
}

abbrev torn : Text
torn = codes "{ts:"

written : All (IsWritten a_codec) (an_event ∷ [])
unfolding from_row text_eq is_blank show_nat is_whitespace
written = ((refl, refl, refl), tt)

torn_parse : a_codec.parse torn ≡ none
unfolding text_eq
torn_parse = refl

torn_text : is_blank torn ≡ false
unfolding is_blank is_whitespace
torn_text = refl

read_all-rebuilt_body_example :
    (read_all a_codec (codes "e") (ok (some (rebuilt_body a_codec (an_event ∷ []))))
      ≡ ok (map without_id (an_event ∷ [])))
    × (read_all a_codec (codes "e") (ok (some (rebuilt_body a_codec (an_event ∷ []) ++ torn)))
        ≡ ok (map without_id (an_event ∷ [])))
    × (read_all a_codec
          (codes "e")
          (ok (some (rebuilt_body a_codec (an_event ∷ []) ++ (torn ++ newline ∷ b'x' ∷ []))))
        ≡ err (corrupt_line_err (codes "e") (length (an_event ∷ []) + 1)))
read_all-rebuilt_body_example =
    read_all-rebuilt_body a_codec (codes "e") (an_event ∷ []) torn b'x' [] written torn_parse refl
      torn_text
