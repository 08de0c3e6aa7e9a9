-- ===== src/Prelude/Exec/Succeeds.antt =====
-- Actions that cannot fail from a state that satisfies `P`.
use vetinari.Prelude.Tests.{if◌then◌else◌}
use mathlib.Core.Path.{◌≡◌, refl}
use mathlib.Core.Bool.{Bool, true, false}
use vetinari.Prelude.Outcome.{Result, ok, err}
use vetinari.Prelude.Exec.{Exec, pure, continue, ◌>>=◌, ◌>>◌, rewrap, mapping_err, try}
use vetinari.Prelude.Exec.Keeps.{Keeps}

pub record Succeeds {ℓ} {E S A : Type ℓ} (P : S → Type ℓ) (m : Exec E S A) : Type ℓ where
  pub returns : (s : S) → P s → (a : A) × ((m s).0 ≡ ok a)

module _ {ℓ} {E S A : Type ℓ} {P : S → Type ℓ} where
  pub Succeeds-pure : (a : A) → Succeeds P (pure {E = E} a)
  unfolding pure
  Succeeds-pure a = record { returns = λ s h. (a, refl) }

  pub Succeeds-if :
      (b : Bool) (m n : Exec E S A) → Succeeds P m → Succeeds P n → Succeeds P (if b then m else n)
  Succeeds-if true m n hm hn = hm
  Succeeds-if false m n hm hn = hn

module _ {ℓ} {E F S A : Type ℓ} where
  Succeeds-rewrap :
      (f : E → F) (p : Result E A × S)
      → ((a : A) × (p.0 ≡ ok a))
      → (a : A) × ((rewrap f p).0 ≡ ok a)
  Succeeds-rewrap f (ok b, s) h = (b, refl)
  Succeeds-rewrap f (err e, s) h = cc h.1

module _ {ℓ} {E F S A : Type ℓ} {P : S → Type ℓ} where
  pub Succeeds-try : (m : Exec E S A) → Succeeds P (try {F = F} m)
  unfolding try
  Succeeds-try m = record { returns = λ s h. ((m s).0, refl) }

  pub Succeeds-mapping_err :
      (f : E → F) (m : Exec E S A) → Succeeds P m → Succeeds P (mapping_err f m)
  unfolding mapping_err
  Succeeds-mapping_err f m h = record { returns = λ s p. Succeeds-rewrap f (m s) (h.returns s p) }

module _ {ℓ} {E S A B : Type ℓ} {P : S → Type ℓ} where
  Succeeds-continue :
      (r : Result E A) (f : A → Exec E S B)
      → ((a : A) → Succeeds P (f a))
      → (s : S) → P s
      → ((a : A) × (r ≡ ok a))
      → (b : B) × ((continue r f s).0 ≡ ok b)
  Succeeds-continue (ok a) f hf s p h = (hf a).returns s p
  Succeeds-continue (err e) f hf s p h = cc h.1

  pub Succeeds-bind :
      (m : Exec E S A) (f : A → Exec E S B)
      → Succeeds P m
      → Keeps P m
      → ((a : A) → Succeeds P (f a))
      → Succeeds P (m >>= f)
  unfolding ◌>>=◌
  Succeeds-bind m f hm km hf = record {
    returns = λ s p. Succeeds-continue (m s).0 f hf (m s).1 (km.at s p) (hm.returns s p);
  }

  pub Succeeds-then :
      (m : Exec E S A) (n : Exec E S B)
      → Succeeds P m
      → Keeps P m
      → Succeeds P n
      → Succeeds P (m >> n)
  unfolding ◌>>◌
  Succeeds-then m n hm km hn = Succeeds-bind m (λ _. n) hm km (λ _. hn)
