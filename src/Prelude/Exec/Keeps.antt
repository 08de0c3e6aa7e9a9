-- ===== src/Prelude/Exec/Keeps.antt =====
-- Invariants of actions, one rule for each way to build an action.
use mathlib.Core.Path.{◌≡◌, refl}
use mathlib.Core.Bool.{Bool, true, false}
use vetinari.Prelude.Tests.{if◌then◌else◌}
use vetinari.Prelude.Outcome.{Result, ok, err}
use vetinari.Prelude.Exec.{
  Exec, pure, raise, lift, gets, continue, ◌>>=◌, ◌>>◌, rewrap, mapping_err, try,
}

-- `m` keeps `P`, whether it returns or fails.
pub record Keeps {ℓ} {E S A : Type ℓ} (P : S → Type ℓ) (m : Exec E S A) : Type ℓ where
  pub at : (s : S) → P s → P (m s).1

module _ {ℓ} {E S A : Type ℓ} {P : S → Type ℓ} where
  pub Keeps-if :
      (test : Bool) (a b : Exec E S A) → Keeps P a → Keeps P b → Keeps P (if test then a else b)
  Keeps-if true a b ka kb = ka
  Keeps-if false a b ka kb = kb

  -- The actions that leave the state alone.
  pub Keeps-gets : (f : S → A) → Keeps P (gets {E = E} f)
  unfolding gets
  Keeps-gets f = record { at = λ s before. before }

  pub Keeps-lift : (result : Result E A) → Keeps P (lift result)
  unfolding lift
  Keeps-lift result = record { at = λ s before. before }

  pub Keeps-raise : (error : E) → Keeps P (raise {A = A} error)
  unfolding raise
  Keeps-raise error = record { at = λ s before. before }

  pub Keeps-pure : (value : A) → Keeps P (pure {E = E} value)
  unfolding pure
  Keeps-pure value = record { at = λ s before. before }

module _ {ℓ} {E S A B : Type ℓ} {P : S → Type ℓ} where
  Keeps-continue :
      (r : Result E A) (f : A → Exec E S B)
      → ((a : A) → Keeps P (f a))
      → (s : S) → P s
      → P (continue r f s).1
  Keeps-continue (ok a) f kf s h = (kf a).at s h
  Keeps-continue (err e) f kf s h = h

  pub Keeps-bind :
      (first : Exec E S A) (rest : A → Exec E S B)
      → Keeps P first
      → ((a : A) → Keeps P (rest a))
      → Keeps P (first >>= rest)
  unfolding ◌>>=◌
  Keeps-bind first rest kf kr = record {
    at = λ s before. Keeps-continue (first s).0 rest kr (first s).1 (kf.at s before);
  }

  pub Keeps-then : (m : Exec E S A) (n : Exec E S B) → Keeps P m → Keeps P n → Keeps P (m >> n)
  unfolding ◌>>◌
  Keeps-then m n km kn = Keeps-bind m (λ _. n) km (λ _. kn)

module _ {ℓ} {E F S A : Type ℓ} where
  state-rewrap : (f : E → F) (p : Result E A × S) → (rewrap f p).1 ≡ p.1
  state-rewrap f (ok a, s) = refl
  state-rewrap f (err e, s) = refl

  -- Wrapping an error changes no state.
  pub state-mapping_err : (f : E → F) (m : Exec E S A) (s : S) → (mapping_err f m s).1 ≡ (m s).1
  unfolding mapping_err
  state-mapping_err f m s = state-rewrap f (m s)

module _ {ℓ} {E F S A : Type ℓ} (P : S → Type ℓ) where
  Keeps-rewrap : (f : E → F) (p : Result E A × S) → P p.1 → P (rewrap f p).1
  Keeps-rewrap f (ok a, s) h = h
  Keeps-rewrap f (err e, s) h = h

module _ {ℓ} {E F S A : Type ℓ} {P : S → Type ℓ} where
  pub Keeps-mapping_err : (f : E → F) (m : Exec E S A) → Keeps P m → Keeps P (mapping_err f m)
  unfolding mapping_err
  Keeps-mapping_err f m k = record { at = λ s h. Keeps-rewrap P f (m s) (k.at s h) }

  pub Keeps-try : (m : Exec E S A) → Keeps P m → Keeps P (try {F = F} m)
  unfolding try
  Keeps-try m k = record { at = k.at }

pub ruleset keeps_rules = (
  Keeps-then, Keeps-bind, Keeps-if, Keeps-try, Keeps-mapping_err, Keeps-gets, Keeps-lift,
  Keeps-raise, Keeps-pure,
)
