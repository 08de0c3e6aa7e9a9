-- ===== src/Prelude/Exec/Agrees.antt =====
-- Actions that do the same from every state that satisfies a predicate.
use mathlib.Core.Path.{◌≡◌, refl, ap, ◌∙◌}
use mathlib.Core.Bool.{Bool, true, false}
use vetinari.Prelude.Tests.{if◌then◌else◌}
use vetinari.Prelude.Outcome.{Result, ok, err}
use vetinari.Prelude.Exec.{Exec, continue, ◌>>=◌, ◌>>◌}
use vetinari.Prelude.Exec.Keeps.{Keeps}
use vetinari.Prelude.Exec.Returns.{Leads, Leads-kept}

-- Two actions that do the same wherever `P` holds
pub record Agrees {ℓ} {E S A : Type ℓ} (P : S → Type ℓ) (m m' : Exec E S A) : Type ℓ where
  pub at : (s : S) → P s → m s ≡ m' s

module _ {ℓ} {E S A : Type ℓ} {P : S → Type ℓ} where
  pub Agrees-refl : (m : Exec E S A) → Agrees P m m
  Agrees-refl m = record { at = λ s p. refl }

  pub Agrees-if :
      (b : Bool) (m m' n n' : Exec E S A)
      → Agrees P m m'
      → Agrees P n n'
      → Agrees P (if b then m else n) (if b then m' else n')
  Agrees-if true m m' n n' am an = am
  Agrees-if false m m' n n' am an = an

  pub Agrees-weaken :
      {P' : S → Type ℓ} (m m' : Exec E S A)
      → ((s : S) → P s → P' s)
      → Agrees P' m m'
      → Agrees P m m'
  Agrees-weaken m m' weaker a = record { at = λ s p. a.at s (weaker s p) }

  pub Agrees-fact :
      {C : Type ℓ} (m m' : Exec E S A) → (C → Agrees P m m') → Agrees (λ s. C × P s) m m'
  Agrees-fact m m' a = record { at = λ s p. (a p.0).at s p.1 }

module _ {ℓ} {E S A B : Type ℓ} (R : A → S → Type ℓ) where
  continue-Agrees :
      (r : Result E A) (f f' : A → Exec E S B)
      → ((a : A) → Agrees (R a) (f a) (f' a))
      → (s : S) → ((a : A) → r ≡ ok a → R a s)
      → continue r f s ≡ continue r f' s
  continue-Agrees (ok a) f f' same s h = (same a).at s (h a refl)
  continue-Agrees (err e) f f' same s h = refl

module _ {ℓ} {E S A B : Type ℓ} {P : S → Type ℓ} {R : A → S → Type ℓ} where
  pub Agrees-bind :
      (m : Exec E S A) (f f' : A → Exec E S B)
      → Leads P R m
      → ((a : A) → Agrees (R a) (f a) (f' a))
      → Agrees P (m >>= f) (m >>= f')
  unfolding ◌>>=◌
  Agrees-bind m f f' l same = record {
    at = λ s p. continue-Agrees R (m s).0 f f' same (m s).1 (l.at s p);
  }

  pub Agrees-then :
      (m : Exec E S A) (n n' : Exec E S B)
      → Leads P R m
      → ((a : A) → Agrees (R a) n n')
      → Agrees P (m >> n) (m >> n')
  unfolding ◌>>◌
  Agrees-then m n n' l same = Agrees-bind m (λ _. n) (λ _. n') l same

-- The same first action, and rests that agree wherever it leads
pub Agrees-rest {ℓ} :
    {E S A B : Type ℓ} {P : S → Type ℓ} (m m' : Exec E S A) (f : A → Exec E S B)
    → Agrees P m m'
    → Agrees P (m >>= f) (m' >>= f)
unfolding ◌>>=◌
Agrees-rest m m' f a = record { at = λ s p. ap (λ r. continue r.0 f r.1) (a.at s p) }

module _ {ℓ} {E S A B : Type ℓ} {P : S → Type ℓ} where
  pub Agrees-after :
      (m : Exec E S A) (f f' : A → Exec E S B)
      → Keeps P m
      → ((a : A) → Agrees P (f a) (f' a))
      → Agrees P (m >>= f) (m >>= f')
  Agrees-after m f f' k same = Agrees-bind m f f' (Leads-kept m k) same

  pub Agrees-then_after :
      (m : Exec E S A) (n n' : Exec E S B) → Keeps P m → Agrees P n n' → Agrees P (m >> n) (m >> n')
  Agrees-then_after m n n' k same = Agrees-then m n n' (Leads-kept m k) (λ a. same)

-- First actions that agree, and rests that agree wherever the first one leads
pub Agrees-both {ℓ} :
    {E S A B : Type ℓ} {P : S → Type ℓ} {R : A → S → Type ℓ} (m m' : Exec E S A)
    (f f' : A → Exec E S B)
    → Agrees P m m'
    → Leads P R m
    → ((a : A) → Agrees (R a) (f a) (f' a))
    → Agrees P (m >>= f) (m' >>= f')
Agrees-both m m' f f' first l same = record {
  at = λ s p. (Agrees-bind m f f' l same).at s p ∙ (Agrees-rest m m' f' first).at s p;
}
