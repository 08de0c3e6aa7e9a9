-- ===== src/Prelude/Strings/Laws.antt =====
-- Lines and splits of texts that were put together from parts.
use Prim.Native.Nat.{ℕ}
use mathlib.Core.Path.{◌≡◌, refl, ap, ◌∙◌}
use mathlib.Core.Bool.{Bool, true, not, ◌&&◌}
use mathlib.Core.List.{[], ◌∷◌, ◌++◌, append_assoc, append-nil}
use mathlib.Core.Option.{none, some}
use native.Mathlib.Omega.{arith}
use vetinari.Prelude.Tests.{◌==◌}
use vetinari.Prelude.Lists.{all}
use vetinari.Prelude.Chars.{Text, strip_prefix}
use vetinari.Prelude.Strings.{
  newline, carriage_return, strip_cr, last_line, lines_from, rsplit_once_at,
}

abbrev pub on_line : ℕ → Bool
on_line c = not (c == newline) && not (c == carriage_return)

-- One line: no line ending in it
abbrev pub is_line : Text → Bool
is_line s = all on_line s

pub strip_cr-line : (s : Text) → is_line s ≡ true → strip_cr s ≡ s
unfolding strip_cr
strip_cr-line [] h = refl
strip_cr-line (c ∷ []) h = ground (arith, h)
strip_cr-line (c ∷ d ∷ s) h = ap (λ t. c ∷ t) (strip_cr-line (d ∷ s) (ground (arith, h)))

pub lines_from-newline :
    (line s rest : Text)
    → is_line s ≡ true
    → lines_from line (s ++ newline ∷ rest) ≡ strip_cr (line ++ s) ∷ lines_from [] rest
unfolding lines_from
lines_from-newline line [] rest h = rw (append-nil line) refl
lines_from-newline line (c ∷ s) rest h =
    let more = lines_from-newline (line ++ c ∷ []) s rest (ground (arith, h)) in
    let here = rw (append_assoc line (c ∷ []) s) at more in ground (arith, h, here)

pub lines_from-last : (line s : Text) → is_line s ≡ true → lines_from line s ≡ last_line (line ++ s)
unfolding lines_from
lines_from-last line [] h = rw (append-nil line) refl
lines_from-last line (c ∷ s) h =
    let more = lines_from-last (line ++ c ∷ []) s (ground (arith, h)) in
    let here = rw (append_assoc line (c ∷ []) s) at more in ground (arith, h, here)

-- A line, and what comes after its ending
pub lines-cons :
    (s rest : Text)
    → is_line s ≡ true
    → lines_from [] (s ++ newline ∷ rest) ≡ s ∷ lines_from [] rest
lines-cons s rest h =
    lines_from-newline [] s rest h ∙ ap (λ t. t ∷ lines_from [] rest) (strip_cr-line s h)

pub strip_prefix-append : (p s : Text) → strip_prefix p (p ++ s) ≡ some s
unfolding strip_prefix
strip_prefix-append [] s = refl
strip_prefix-append (c ∷ p) s = ground (arith, strip_prefix-append p s)

no_split : (sep : ℕ) (s : Text) → all (λ c. not (c == sep)) s ≡ true → rsplit_once_at sep s ≡ none
unfolding rsplit_once_at
no_split sep [] h = refl
no_split sep (c ∷ s) h = ground (arith, h, no_split sep s)

-- The last separator is the one after which there is none.
pub rsplit-append :
    (sep : ℕ) (head tail : Text)
    → all (λ c. not (c == sep)) tail ≡ true
    → rsplit_once_at sep (head ++ sep ∷ tail) ≡ some (head, tail)
unfolding rsplit_once_at
rsplit-append sep [] tail h = ground (arith, no_split sep tail h)
rsplit-append sep (c ∷ head) tail h = rw (rsplit-append sep head tail h)
