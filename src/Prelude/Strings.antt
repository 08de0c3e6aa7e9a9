-- ===== src/Prelude/Strings.antt =====
-- The operations of `str` that the program's parsers use, on texts as lists of code points.
pub mod Laws
use Prim.Native.Nat.{ℕ, zero, suc, ◌+◌}
use mathlib.Core.Bool.{Bool, true, false, ◌&&◌, ◌||◌}
use mathlib.Core.List.{List, [], ◌∷◌, ◌++◌}
use mathlib.Core.Option.{Option, none, some}
use vetinari.Prelude.Tests.{leb, ltb, ◌==◌, if◌then◌else◌}
use vetinari.Prelude.Lists.{all, any}
use vetinari.Prelude.Chars.{Text, strip_prefix}

abbrev pub newline : ℕ
newline = 10

abbrev pub carriage_return : ℕ
carriage_return = 13

-- One trailing carriage return off.
unfoldable pub strip_cr : Text → Text
strip_cr [] = []
strip_cr (c ∷ []) = if c == carriage_return then [] else c ∷ []
strip_cr (c ∷ d ∷ cs) = c ∷ strip_cr (d ∷ cs)

abbrev pub last_line : Text → List Text
last_line [] = []
last_line (c ∷ cs) = (c ∷ cs) ∷ []

-- `lines()`; `line` is what was read of the current one. The last line keeps its carriage return.
unfoldable pub lines_from : Text → Text → List Text
lines_from line [] = last_line line
lines_from line (c ∷ cs) =
    let ended = strip_cr line ∷ lines_from [] cs in
    let longer = lines_from (line ++ c ∷ []) cs in if c == newline then ended else longer

unfoldable pub lines : Text → List Text
lines s = lines_from [] s

abbrev cons_head : ℕ → Text × Text → Text × Text
cons_head c (head, tail) = (c ∷ head, tail)

-- `split_once` at one character, and `rsplit_once`
unfoldable pub split_once : ℕ → Text → Option (Text × Text)
split_once sep [] = none
split_once sep (c ∷ cs) =
    let rest = split_once sep cs in
    if c == sep then some ([], cs) else (elim rest [ none ↦ none | some p ↦ some (cons_head c p) ])

unfoldable pub rsplit_once_at : ℕ → Text → Option (Text × Text)
rsplit_once_at sep [] = none
rsplit_once_at sep (c ∷ cs) = elim (rsplit_once_at sep cs) [
  | some p ↦ some (cons_head c p)
  | none ↦ if c == sep then some ([], cs) else none
]

-- `split_once` at a text
unfoldable pub split_once_text : Text → Text → Option (Text × Text)
split_once_text sep [] = elim (strip_prefix sep []) [ none ↦ none | some rest ↦ some ([], rest) ]
split_once_text sep (c ∷ cs) =
    let rest = split_once_text sep cs in
    elim (strip_prefix sep (c ∷ cs)) [
      | some after ↦ some ([], after)
      | none ↦ elim rest [ none ↦ none | some p ↦ some (cons_head c p) ]
    ]

abbrev push_char : ℕ → List Text → List Text
push_char c [] = (c ∷ []) ∷ []
push_char c (s ∷ ss) = (c ∷ s) ∷ ss

-- `split(sep)`: never empty
unfoldable pub split_at : ℕ → Text → List Text
split_at sep [] = [] ∷ []
split_at sep (c ∷ cs) =
    let rest = split_at sep cs in if c == sep then [] ∷ rest else push_char c rest

-- The code points of Unicode's White_Space property
unfoldable pub is_whitespace : ℕ → Bool
is_whitespace c =
    leb 9 c && leb c 13
    || (any (λ d. c == d)
          (0x20 ∷ 0x85 ∷ 0xa0 ∷ 0x1680 ∷ 0x2028 ∷ 0x2029 ∷ 0x202f ∷ 0x205f ∷ 0x3000 ∷ [])
        || leb 0x2000 c && leb c 0x200a)

-- `trim().is_empty()`
unfoldable pub is_blank : Text → Bool
is_blank s = all is_whitespace s

-- The bytes of a code point in UTF-8, and `len()`
abbrev utf8_len : ℕ → ℕ
utf8_len c = if ltb c 0x80 then 1 else if ltb c 0x800 then 2 else if ltb c 0x10000 then 3 else 4

unfoldable pub byte_len : Text → ℕ
byte_len [] = 0
byte_len (c ∷ cs) = utf8_len c + byte_len cs

-- `trim_start()`, `trim_end()` and `trim()`
trim_left : Text → Text
unfolding is_whitespace
trim_left [] = []
trim_left (c ∷ cs) = if is_whitespace c then trim_left cs else c ∷ cs

trim_right : Text → Text
unfolding is_whitespace
trim_right [] = []
trim_right (c ∷ cs) = elim (trim_right cs) [
  | [] ↦ if is_whitespace c then [] else c ∷ []
  | d ∷ ds ↦ c ∷ d ∷ ds
]

unfoldable pub trim_space : Text → Text
unfolding trim_left trim_right
trim_space s = trim_right (trim_left s)
