-- ===== src/Prelude/Int.antt =====
-- `i64` values that may be negative, and their decimal text.
pub mod Laws
use Prim.Native.Nat.{ℕ, zero, suc, ◌+◌, ◌-◌, ◌*◌, ◌/◌, ◌%◌, ◌^◌}
use mathlib.Core.Bool.{Bool, false}
use mathlib.Core.List.{[], ◌∷◌, ◌++◌}
use mathlib.Core.Option.{Option, none, some}
use vetinari.Prelude.Tests.{ltb, leb, ◌==◌, if◌then◌else◌}
use vetinari.Prelude.Chars.{Text, is_digit}

-- `negsuc n` is -(n + 1).
pub data ℤ : Type 0 where
  pos : ℕ → ℤ
  negsuc : ℕ → ℤ

abbrev pub pos_part : ℤ → ℕ
pos_part (pos n) = n
pos_part (negsuc n) = 0

abbrev pub neg_part : ℤ → ℕ
neg_part (pos n) = 0
neg_part (negsuc n) = suc n

abbrev pub leb_ℤ : ℤ → ℤ → Bool
leb_ℤ a b = leb (pos_part a + neg_part b) (pos_part b + neg_part a)

abbrev pub eq_ℤ : ℤ → ℤ → Bool
eq_ℤ (pos a) (pos b) = a == b
eq_ℤ (pos a) (negsuc b) = false
eq_ℤ (negsuc a) (pos b) = false
eq_ℤ (negsuc a) (negsuc b) = a == b

-- `unsigned_abs`
abbrev pub unsigned_abs : ℤ → ℕ
unsigned_abs (pos n) = n
unsigned_abs (negsuc n) = suc n

abbrev pub i64_max : ℕ
i64_max = 2 ^ 63 - 1

-- The digits of an unsigned number; `none` at a character that is no digit.
digits : ℕ → Text → Option ℕ
digits acc [] = some acc
digits acc (c ∷ cs) =
    let rest = digits (acc * 10 + (c - 48)) cs in if is_digit c then rest else none

unsigned : Text → Option ℕ
unfolding digits
unsigned [] = none
unsigned (c ∷ cs) = digits 0 (c ∷ cs)

at_most : ℕ → Option ℕ → Option ℕ
at_most bound none = none
at_most bound (some n) = if leb n bound then some n else none

negate : Option ℕ → Option ℤ
negate none = none
negate (some zero) = some (pos 0)
negate (some (suc n)) = some (negsuc n)

as_pos : Option ℕ → Option ℤ
as_pos none = none
as_pos (some n) = some (pos n)

-- `str::parse::<u32>()`: an optional `+`, digits, and a value in range.
unfoldable pub parse_u32 : Text → Option ℕ
unfolding unsigned at_most
parse_u32 [] = none
parse_u32 (c ∷ cs) = at_most (2 ^ 32 - 1) (if c == b'+' then unsigned cs else unsigned (c ∷ cs))

-- `str::parse::<i64>()`: an optional sign, digits, and a value in range.
unfoldable pub parse_i64 : Text → Option ℤ
unfolding unsigned at_most negate as_pos
parse_i64 [] = none
parse_i64 (c ∷ cs) =
    if c == b'-'
    then negate (at_most (2 ^ 63) (unsigned cs))
    else as_pos (at_most i64_max (if c == b'+' then unsigned cs else unsigned (c ∷ cs)))

-- The decimal digits of `n` below `10 ^ fuel`, on fuel: `suc n` is enough.
decimal : ℕ → ℕ → Text
decimal zero n = []
decimal (suc fuel) n =
    let rest = decimal fuel (n / 10) in
    if ltb n 10 then (n + 48) ∷ [] else rest ++ (n % 10 + 48) ∷ []

-- `to_string` of an unsigned number
unfoldable pub show_nat : ℕ → Text
unfolding decimal
show_nat n = decimal (suc n) n

-- `to_string` of an `i64`
unfoldable pub show_i64 : ℤ → Text
unfolding show_nat
show_i64 (pos n) = show_nat n
show_i64 (negsuc n) = b'-' ∷ show_nat (suc n)
