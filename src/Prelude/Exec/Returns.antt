-- ===== src/Prelude/Exec/Returns.antt =====
-- What holds when an action returns a value, one rule for each way to build an action.
use mathlib.Core.Path.{◌≡◌, refl, subst}
use mathlib.Core.Bool.{Bool, true, false}
use vetinari.Prelude.Tests.{if◌then◌else◌}
use vetinari.Prelude.Outcome.{Result, ok, err, ok-injective}
use vetinari.Prelude.Exec.Keeps.{Keeps}
use vetinari.Prelude.Exec.{Exec, pure, raise, lift, try, continue, ◌>>=◌, ◌>>◌, rewrap, mapping_err}

-- Wherever `m` starts, if it returns a value then `Q` holds of that value and of the state after.
pub record Returns {ℓ} {E S A : Type ℓ} (Q : A → S → Type ℓ) (m : Exec E S A) : Type ℓ where
  pub at : (s : S) (a : A) → (m s).0 ≡ ok a → Q a (m s).1

module _ {ℓ} {E S A : Type ℓ} {Q : A → S → Type ℓ} where
  pub Returns-raise : (e : E) → Returns Q (raise e)
  unfolding raise
  Returns-raise e = record { at = λ s a h. cc }

  pub Returns-if :
      (b : Bool) (m n : Exec E S A) → Returns Q m → Returns Q n → Returns Q (if b then m else n)
  Returns-if true m n rm rn = rm
  Returns-if false m n rm rn = rn

module _ {ℓ} {E S A B : Type ℓ} {Q : B → S → Type ℓ} where
  Returns-continue :
      (r : Result E A) (f : A → Exec E S B)
      → ((a : A) → Returns Q (f a))
      → (s : S) (b : B) → (continue r f s).0 ≡ ok b
      → Q b (continue r f s).1
  Returns-continue (ok a) f rf s b h = (rf a).at s b h
  Returns-continue (err e) f rf s b h = cc

  pub Returns-bind :
      (m : Exec E S A) (f : A → Exec E S B) → ((a : A) → Returns Q (f a)) → Returns Q (m >>= f)
  unfolding ◌>>=◌
  Returns-bind m f rf = record { at = λ s b h. let (r, s') = m s in Returns-continue r f rf s' b h }

  pub Returns-then : (m : Exec E S A) (n : Exec E S B) → Returns Q n → Returns Q (m >> n)
  unfolding ◌>>◌
  Returns-then m n rn = Returns-bind m (λ _. n) (λ _. rn)

-- A first action whose result is known to satisfy `P`, and a rest that leads from `P` to `Q`.
pub record Leads {ℓ} {E S A : Type ℓ} (P : S → Type ℓ) (Q : A → S → Type ℓ) (m : Exec E S A)
    : Type ℓ where
  pub at : (s : S) → P s → (a : A) → (m s).0 ≡ ok a → Q a (m s).1

module _ {ℓ} {E S A B : Type ℓ} (R : A → S → Type ℓ) (Q : B → S → Type ℓ) where
  Leads-continue :
      (r : Result E A) (f : A → Exec E S B)
      → ((a : A) → Leads (R a) Q (f a))
      → (s : S) → ((a : A) → r ≡ ok a → R a s)
      → (b : B) → (continue r f s).0 ≡ ok b
      → Q b (continue r f s).1
  Leads-continue (ok a) f rf s hr b h = (rf a).at s (hr a refl) b h
  Leads-continue (err e) f rf s hr b h = cc

module _ {ℓ} {E S A B : Type ℓ} {P : S → Type ℓ} {R : A → S → Type ℓ} {Q : B → S → Type ℓ} where
  pub Leads-bind :
      (m : Exec E S A) (f : A → Exec E S B)
      → Leads P R m
      → ((a : A) → Leads (R a) Q (f a))
      → Leads P Q (m >>= f)
  unfolding ◌>>=◌
  Leads-bind m f lm lf = record {
    at = λ s p b h. Leads-continue R Q (m s).0 f lf (m s).1 (lm.at s p) b h;
  }

module _ {ℓ} {E S A B : Type ℓ} {P : S → Type ℓ} {R : A → S → Type ℓ} {Q : B → S → Type ℓ} where
  pub Leads-then :
      (m : Exec E S A) (n : Exec E S B)
      → Leads P R m
      → ((a : A) → Leads (R a) Q n)
      → Leads P Q (m >> n)
  unfolding ◌>>◌
  Leads-then m n lm ln = Leads-bind m (λ _. n) lm ln

module _ {ℓ} {E F S A : Type ℓ} (Q : A → S → Type ℓ) where
  Leads-rewrap :
      (f : E → F) (p : Result E A × S)
      → ((a : A) → p.0 ≡ ok a → Q a p.1)
      → (a : A) → (rewrap f p).0 ≡ ok a
      → Q a (rewrap f p).1
  Leads-rewrap f (ok b, s) k a h = k a (cc)
  Leads-rewrap f (err e, s) k a h = cc

module _ {ℓ} {E F S A : Type ℓ} {P : S → Type ℓ} {Q : A → S → Type ℓ} where
  pub Leads-mapping_err : (f : E → F) (m : Exec E S A) → Leads P Q m → Leads P Q (mapping_err f m)
  unfolding mapping_err
  Leads-mapping_err f m l = record {
    at = λ s p a h. Leads-rewrap Q f (m s) (λ b e. l.at s p b e) a h;
  }

module _ {ℓ} {E S A : Type ℓ} (Q : A → S → Type ℓ) where
  pure-at : (a b : A) (s : S) → Q a s → ◌≡◌ {A = Result E A} (ok a) (ok b) → Q b s
  pure-at a b s h e = subst (λ c. Q c s) (ok-injective e) h

module _ {ℓ} {E S A : Type ℓ} {P : S → Type ℓ} {Q : A → S → Type ℓ} where
  pub Leads-raise : (e : E) → Leads P Q (raise e)
  unfolding raise
  Leads-raise e = record { at = λ s p a h. cc }

  pub Leads-pure : (a : A) → ((s : S) → P s → Q a s) → Leads P Q (pure {E = E} a)
  unfolding pure
  Leads-pure a h = record { at = λ s p b e. pure-at {E = E} Q a b s (h s p) e }

  pub Leads-if :
      (b : Bool) (m n : Exec E S A) → Leads P Q m → Leads P Q n → Leads P Q (if b then m else n)
  Leads-if true m n lm ln = lm
  Leads-if false m n lm ln = ln

  -- What holds on return from everywhere.
  pub Leads-Returns : (m : Exec E S A) → Leads P Q m → ((s : S) → P s) → Returns Q m
  Leads-Returns m l p = record { at = λ s a h. l.at s (p s) a h }

module _ {ℓ} {E S A B : Type ℓ} {P : S → Type ℓ} {Q : B → S → Type ℓ} where
  -- A first action of which nothing is asked.
  pub Leads-any :
      (m : Exec E S A) (f : A → Exec E S B)
      → ((a : A) → Leads (λ s. Unit) Q (f a))
      → Leads P Q (m >>= f)
  Leads-any m f lf = Leads-bind {R = λ a s. Unit} m f (record { at = λ s p a h. tt }) lf

-- What an action keeps, it leads from and to.
pub Leads-kept {ℓ} :
    {E S A : Type ℓ} {Q : S → Type ℓ} (m : Exec E S A) → Keeps Q m → Leads Q (λ a w. Q w) m
Leads-kept m k = record { at = λ w h a e. k.at w h }

-- An action that keeps `P`, and a rest that leads on from there.
pub Leads-after {ℓ} :
    {E S A B : Type ℓ} {P : S → Type ℓ} {Q : B → S → Type ℓ} (m : Exec E S A) (f : A → Exec E S B)
    → Keeps P m
    → ((a : A) → Leads P Q (f a))
    → Leads P Q (m >>= f)
Leads-after m f k lf = Leads-bind m f (Leads-kept m k) lf

pub Leads-then_after {ℓ} :
    {E S A B : Type ℓ} {P : S → Type ℓ} {Q : B → S → Type ℓ} (m : Exec E S A) (n : Exec E S B)
    → Keeps P m
    → Leads P Q n
    → Leads P Q (m >> n)
Leads-then_after m n k ln = Leads-then m n (Leads-kept m k) (λ a. ln)

pub Leads-weaken {ℓ} :
    {E S A : Type ℓ} {P P' : S → Type ℓ} {Q : A → S → Type ℓ} (m : Exec E S A)
    → ((s : S) → P s → P' s)
    → Leads P' Q m
    → Leads P Q m
Leads-weaken m weaker l = record { at = λ s p a h. l.at s (weaker s p) a h }

-- A fact that the state's predicate carries
pub Leads-fact {ℓ} :
    {E S A : Type ℓ} {C : Type ℓ} {P : S → Type ℓ} {Q : A → S → Type ℓ} (m : Exec E S A)
    → (C → Leads P Q m)
    → Leads (λ s. C × P s) Q m
Leads-fact m l = record { at = λ s p a h. (l p.0).at s p.1 a h }

-- A result that is kept over a clean-up, and returned after it
module _ {ℓ} {E S A B : Type ℓ} (Q : A → S → Type ℓ) where
  after_cleanup :
      (r : Result E A) (c : Result E B) (s : S)
      → ((a : A) → r ≡ ok a → Q a s)
      → (a : A) → (continue {E = E} c (λ _. lift r) s).0 ≡ ok a
      → Q a (continue {E = E} c (λ _. lift r) s).1
  unfolding lift
  after_cleanup r (ok b) s h a e = h a e
  after_cleanup r (err x) s h a e = cc

module _ {ℓ} {E S A B : Type ℓ} {P : S → Type ℓ} {Q : A → S → Type ℓ} where
  pub Leads-attempt :
      (m : Exec E S A) (cleanup : Exec E S B)
      → Leads P Q m
      → ((a : A) → Keeps (Q a) cleanup)
      → Leads P Q (try {F = E} m >>= λ result. cleanup >> lift result)
  unfolding try ◌>>=◌ ◌>>◌
  Leads-attempt m cleanup l kept = record {
    at = λ s p a e.
        let done = m s in
        let (c, s') = cleanup done.1 in
        after_cleanup Q done.0 c s' (λ b f. (kept b).at done.1 (l.at s p b f)) a e;
  }
