-- ===== src/Prelude/Exec/Ends.antt =====
-- From one predicate on the state to another, whether the action returns or fails.
use mathlib.Core.Path.{◌≡◌, refl}
use vetinari.Prelude.Outcome.{Result, ok, err}
use vetinari.Prelude.Exec.{Exec, continue, ◌>>=◌, ◌>>◌}
use vetinari.Prelude.Exec.Keeps.{Keeps}
use vetinari.Prelude.Exec.Returns.{Leads}

-- After `m`, from a state at `P`, the state is at `Q`.
pub record Ends {ℓ} {E S A : Type ℓ} (P Q : S → Type ℓ) (m : Exec E S A) : Type ℓ where
  pub at : (s : S) → P s → Q (m s).1

pub Ends-kept {ℓ} :
    {E S A : Type ℓ} {P Q : S → Type ℓ} (m : Exec E S A)
    → Keeps P m
    → ((s : S) → P s → Q s)
    → Ends P Q m
Ends-kept m k step = record { at = λ s h. step (m s).1 (k.at s h) }

module _ {ℓ} {E S A B : Type ℓ} (Q : S → Type ℓ) (R : A → S → Type ℓ) where
  Ends-continue :
      (r : Result E A) (f : A → Exec E S B)
      → ((a : A) → Ends (R a) Q (f a))
      → (s : S) → ((a : A) → r ≡ ok a → R a s)
      → Q s
      → Q (continue r f s).1
  Ends-continue (ok a) f rest s returned failed = (rest a).at s (returned a refl)
  Ends-continue (err e) f rest s returned failed = failed

module _ {ℓ} {E S A B : Type ℓ} {P Q : S → Type ℓ} {R : A → S → Type ℓ} where
  -- A first action that ends at `Q` when it fails, and at `R` when it returns.
  pub Ends-bind :
      (m : Exec E S A) (f : A → Exec E S B)
      → Ends P Q m
      → Leads P R m
      → ((a : A) → Ends (R a) Q (f a))
      → Ends P Q (m >>= f)
  unfolding ◌>>=◌
  Ends-bind m f failed returned rest = record {
    at = λ s h. Ends-continue Q R (m s).0 f rest (m s).1 (returned.at s h) (failed.at s h);
  }

module _ {ℓ} {E S A B : Type ℓ} {P Q : S → Type ℓ} where
  -- A first action that keeps `P`
  pub Ends-after :
      (m : Exec E S A) (f : A → Exec E S B)
      → Keeps P m
      → ((s : S) → P s → Q s)
      → ((a : A) → Ends P Q (f a))
      → Ends P Q (m >>= f)
  Ends-after m f k step rest =
      Ends-bind {R = λ a s. P s} m f (Ends-kept m k step) (record { at = λ s h a e. k.at s h }) rest

  pub Ends-then_after :
      (m : Exec E S A) (n : Exec E S B)
      → Keeps P m
      → ((s : S) → P s → Q s)
      → Ends P Q n
      → Ends P Q (m >> n)
  unfolding ◌>>◌
  Ends-then_after m n k step rest = Ends-after m (λ _. n) k step (λ _. rest)
