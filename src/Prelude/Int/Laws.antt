-- ===== src/Prelude/Int/Laws.antt =====
-- The decimal text of a number parses as that number.
use Prim.Native.Nat.{ℕ, zero, suc, ◌+◌, ◌-◌, ◌*◌, ◌/◌, ◌%◌, ◌^◌, ◌<◌}
use mathlib.Core.Path.{◌≡◌, refl, ap, ◌∙◌}
use mathlib.Core.Logic.{inl, inr}
use mathlib.Core.Bool.{Bool, true, false}
use mathlib.Core.List.{[], ◌∷◌, ◌++◌}
use mathlib.Core.Option.{some}
use native.Mathlib.Omega.{arith}
use vetinari.Prelude.Tests.{ltb, ◌==◌, if◌then◌else◌, Bool-cases, ltb→lt}
use vetinari.Prelude.Lists.{all}
use vetinari.Prelude.Chars.{Text, is_digit}
use vetinari.Prelude.Int.{digits, decimal, show_nat, parse_u32}

pub all-append :
    (p : ℕ → Bool) (s t : Text) → all p s ≡ true → all p t ≡ true → all p (s ++ t) ≡ true
all-append p [] t h k = k
all-append p (c ∷ s) t h k = ground (arith, h, all-append p s t, k)

-- What holds of each digit holds of all characters of a number.
module _ (p : ℕ → Bool) (of_digit : (d : ℕ) → d < 10 → p (d + 48) ≡ true) where
  all-decimal : (fuel n : ℕ) → all p (decimal fuel n) ≡ true
  unfolding decimal
  all-decimal zero n = refl
  all-decimal (suc fuel) n = elim (Bool-cases (ltb n 10)) [
    | inl small ↦ rw small (ground (arith, of_digit n, small))
    | inr large ↦
        rw large (all-append p _ _ (all-decimal fuel (n / 10)) (ground (arith, of_digit (n % 10))))
  ]

  pub all-show_nat : (n : ℕ) → all p (show_nat n) ≡ true
  unfolding show_nat
  all-show_nat n = all-decimal (suc n) n

digits-snoc :
    (acc a d : ℕ) (s : Text)
    → digits acc s ≡ some a
    → d < 10
    → digits acc (s ++ (d + 48) ∷ []) ≡ some (a * 10 + d)
unfolding digits
digits-snoc acc a d [] h small = ground (arith, h)
digits-snoc acc a d (c ∷ s) h small = elim (Bool-cases (is_digit c)) [
  | inl digit ↦ rw digit (digits-snoc (acc * 10 + (c - 48)) a d s (rw digit at h) small)
  | inr other ↦ cc (rw other at h)
]

no_digits : digits 0 [] ≡ some 0
unfolding digits
no_digits = refl

digits-decimal : (fuel n : ℕ) → n < fuel → digits 0 (decimal fuel n) ≡ some n
unfolding decimal
digits-decimal zero n h = elim h [ ]
digits-decimal (suc fuel) n h = elim (Bool-cases (ltb n 10)) [
  | inl small ↦
      rw small (digits-snoc 0 0 n [] no_digits (ltb→lt n 10 small) ∙ ap some (omega arith))
  | inr large ↦ rw large (
      digits-snoc 0 (n / 10) (n % 10) _ (digits-decimal fuel (n / 10) (ground arith)) (omega arith)
      ∙ ap some (omega arith))
]

snoc-cons : (s : Text) (d : ℕ) → (c : ℕ) × (cs : Text) × (s ++ d ∷ [] ≡ c ∷ cs)
snoc-cons [] d = (d, [], refl)
snoc-cons (c ∷ s) d = (c, s ++ d ∷ [], refl)

decimal-cons : (fuel n : ℕ) → (c : ℕ) × (cs : Text) × (decimal (suc fuel) n ≡ c ∷ cs)
unfolding decimal
decimal-cons fuel n = elim (Bool-cases (ltb n 10)) [
  | inl small ↦ (n + 48, [], rw small)
  | inr large ↦ rw large (snoc-cons (decimal fuel (n / 10)) (n % 10 + 48))
]

abbrev not_plus : ℕ → Bool
not_plus c = if c == b'+' then false else true

parse-digits :
    (c : ℕ) (cs : Text) (n : ℕ)
    → all not_plus (c ∷ cs) ≡ true
    → digits 0 (c ∷ cs) ≡ some n
    → n < 2 ^ 32
    → parse_u32 (c ∷ cs) ≡ some n
unfolding parse_u32
parse-digits c cs n unsigned_text h small = ground (arith, unsigned_text, h, small)

-- `n.to_string().parse::<u32>()`
pub parse_u32-show_nat : (n : ℕ) → n < 2 ^ 32 → parse_u32 (show_nat n) ≡ some n
unfolding show_nat
parse_u32-show_nat n small =
    let (c, cs, e) = decimal-cons n n in
    let plain : all not_plus (show_nat n) ≡ true = all-show_nat not_plus (λ d h. ground arith) n in
    rw e
      (parse-digits c cs n (rw e at plain) (rw e at (digits-decimal (suc n) n (omega arith))) small)
