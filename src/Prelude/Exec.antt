-- ===== src/Prelude/Exec.antt =====
-- Code that changes shared state and may fail. What was written before an error stays written, so
-- the state comes back beside the error too.
pub mod Keeps
pub mod Returns
pub mod Ends
pub mod Succeeds
pub mod Agrees
use vetinari.Prelude.Outcome.{Result, ok, err}

abbrev pub Exec {ℓ} : Type ℓ → Type ℓ → Type ℓ → Type ℓ
Exec E S A = S → Result E A × S

module _ {ℓ} {E S A : Type ℓ} where
  unfoldable pub pure : A → Exec E S A
  pure a s = (ok a, s)

  unfoldable pub raise : E → Exec E S A
  raise e s = (err e, s)

  -- a computed `Result` followed by `?`
  unfoldable pub lift : Result E A → Exec E S A
  lift r s = (r, s)

  unfoldable pub gets : (S → A) → Exec E S A
  gets f s = (ok (f s), s)

module _ {ℓ} {E S A B : Type ℓ} where
  abbrev pub continue : Result E A → (A → Exec E S B) → Exec E S B
  continue (ok a) f s = f a s
  continue (err e) f s = (err e, s)

  infixl 10 ◌>>=◌ ◌>>◌
  -- opening this opens `pure`, `raise`, `lift` and `gets` too
  unfoldable pub ◌>>=◌ : Exec E S A → (A → Exec E S B) → Exec E S B
  unfolding pure raise lift gets
  ◌>>=◌ m f s = let (r, s') = m s in continue r f s'

  unfoldable pub ◌>>◌ : Exec E S A → Exec E S B → Exec E S B
  unfolding ◌>>=◌
  m >> n = m >>= λ _. n

module _ {ℓ} {E F S A : Type ℓ} where
  abbrev pub rewrap : (E → F) → Result E A × S → Result F A × S
  rewrap f (ok a, s) = (ok a, s)
  rewrap f (err e, s) = (err (f e), s)

  -- `.map_err(f)` on the result of an action
  unfoldable pub mapping_err : (E → F) → Exec E S A → Exec F S A
  mapping_err f m s = rewrap f (m s)

  -- A `match` on the result of an action: it fails no more.
  unfoldable pub try : Exec E S A → Exec F S (Result E A)
  try m s = let (r, s') = m s in (ok r, s')

-- An action on a part of the state, through its getter and its setter.
module _ {ℓ} {E S T A : Type ℓ} where
  unfoldable pub within : (T → S) → (S → T → T) → Exec E S A → Exec E T A
  within get put m t = let (r, s) = m (get t) in (r, put s t)
