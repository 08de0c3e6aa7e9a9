-- ===== src/Manager/Safety.antt =====
-- What the manager's primitives can do to the `main` bookmark.
use mathlib.Core.Path.{subst}
use mathlib.Core.Option.{some-injective}
use vetinari.Prelude.{
  ◌≡◌, refl, sym, ◌∙◌, Bool, true, false, Text, codes, Option, none, some, Result, ok, err,
  Result-cases, inl, inr, ok_or, List, not, if◌then◌else◌,
}
use vetinari.Prelude.Exec.{Exec, ◌>>=◌, continue, rewrap, mapping_err, lift}
use vetinari.Prelude.Exec.Keeps.{Keeps, state-mapping_err, keeps_rules}
use vetinari.Error.{LandingError, bookmark_move_failed}
use vetinari.World.Jj.{Jj, JjLaws, target_in, JjError, BookmarkInfo}
use vetinari.Manager.{
  move_failed, rebase, bookmark_target, resolve_change, is_ancestor, refuse, guarded_move,
  fast_forward_bookmark,
}

abbrev main : Text
main = codes "main"

module _ {X : Type 0} (jj : Jj X) (l : JjLaws jj) where
  -- If `main` pointed at a commit, it still does, at that commit or at a descendant of it.
  pub record IsAhead (x₀ x : X) : Type 0 where
    pub ahead :
        (c : Text)
        → l.target main x₀ ≡ some c
        → (t : Text) × (l.target main x ≡ some t) × l.Ancestor c t

  pub IsAhead-refl : (x : X) → IsAhead x x
  IsAhead-refl x = record { ahead = λ c h. (c, h, l.ancestor_refl c) }

  pub IsAhead-trans : (x y z : X) → IsAhead x y → IsAhead y z → IsAhead x z
  IsAhead-trans x y z f g = record {
    ahead = λ c h.
        let (t, e, a) = f.ahead c h in
        let (u, e', b) = g.ahead t e in (u, e', l.ancestor_trans c t u a b);
  }

  IsAhead-same : (x y : X) → l.target main y ≡ l.target main x → IsAhead x y
  IsAhead-same x y e = record { ahead = λ c h. (c, e ∙ h, l.ancestor_refl c) }

  -- What never moves `main` backwards keeps `IsAhead`.
  Keeps-step :
      {E A : Type 0} (x₀ : X) (m : Exec E X A)
      → ((x : X) → IsAhead x (m x).1)
      → Keeps (IsAhead x₀) m
  Keeps-step x₀ m h = record { at = λ x f. IsAhead-trans x₀ x (m x).1 f (h x) }

  Keeps-read :
      {E A : Type 0} (x₀ : X) (m : Exec E X A) → ((x : X) → (m x).1 ≡ x) → Keeps (IsAhead x₀) m
  Keeps-read x₀ m h = record { at = λ x f. subst (IsAhead x₀) (sym (h x)) f }

  module _ (x₀ : X) where
    list-Keeps : Keeps (IsAhead x₀) jj.bookmark_list
    list-Keeps = Keeps-read x₀ jj.bookmark_list l.bookmark_list_pure

    resolve-Keeps : (r : Text) → Keeps (IsAhead x₀) (jj.resolve_single_info r)
    resolve-Keeps r = Keeps-read x₀ (jj.resolve_single_info r) (l.resolve_pure r)

    ancestor-Keeps : (a d : Text) → Keeps (IsAhead x₀) (jj.is_ancestor a d)
    ancestor-Keeps a d = Keeps-read x₀ (jj.is_ancestor a d) (l.is_ancestor_pure a d)

    rebase-Keeps : (s : Text) → Keeps (IsAhead x₀) (jj.rebase s main)
    rebase-Keeps s =
        Keeps-step x₀ (jj.rebase s main)
          (λ x. IsAhead-same x (jj.rebase s main x).1 (l.rebase_main s x))

    refuse-Keeps : (n c t : Text) → Keeps (IsAhead x₀) (refuse jj n c t)
    unfolding refuse
    refuse-Keeps n c t = search (keeps_rules, resolve-Keeps)

    pub reads_keep :
        (n r a d : Text)
        → Keeps (IsAhead x₀) (bookmark_target jj n)
          × Keeps (IsAhead x₀) (resolve_change jj r)
          × Keeps (IsAhead x₀) (is_ancestor jj a d)
          × Keeps (IsAhead x₀) (rebase jj r main)
    unfolding bookmark_target resolve_change is_ancestor rebase
    reads_keep n r a d = (
      search (keeps_rules, list-Keeps),
      search (keeps_rules, resolve-Keeps),
      search (keeps_rules, ancestor-Keeps),
      search (keeps_rules, rebase-Keeps),
    )

  -- One `bookmark_move` of `main` onto a revset whose commit descends from where `main` stands.
  moved :
      (r c t : Text) (x : X)
      → l.target main x ≡ some c
      → l.commit_of r x ≡ some t
      → l.Ancestor c t
      → IsAhead x (jj.bookmark_move main r x).1
  moved r c t x here there a = elim (Result-cases (jj.bookmark_move main r x).0) [
    | inl (u, e) ↦ record {
      ahead = λ d h. (
        t,
        l.move_lem main r x e ∙ there,
        subst (λ b. l.Ancestor b t) (some-injective c d (sym here ∙ h)) a,
      );
    }
    | inr (e, h) ↦ subst (IsAhead x) (sym (l.move_failed_lem main r e x h)) (IsAhead-refl x)
  ]

  continue_test : Text → Text → Result JjError Bool × X → Result LandingError (Unit {0}) × X
  unfolding mapping_err
  continue_test r c p =
      let (q, y) = rewrap (move_failed main) p in
      continue q
        (λ is_ff.
          if not is_ff
          then refuse jj main c r
          else mapping_err (move_failed main) (jj.bookmark_move main r))
        y

  IsAhead-mapped :
      (x y : X) (r : Text)
      → IsAhead x (jj.bookmark_move main r y).1
      → IsAhead x (mapping_err (move_failed main) (jj.bookmark_move main r) y).1
  IsAhead-mapped x y r f = rw (state-mapping_err (move_failed main) (jj.bookmark_move main r) y) f

  -- What follows the ancestry test of the guarded move, at the test's answer.
  after_test :
      (r c : Text) (x : X) (p : Result JjError Bool × X)
      → l.target main x ≡ some c
      → p.1 ≡ x
      → (p.0 ≡ ok true → (t : Text) × (l.commit_of r x ≡ some t) × l.Ancestor c t)
      → IsAhead x (continue_test r c p).1
  unfolding continue_test mapping_err
  after_test r c x (ok true, y) here same anc =
      let (t, there, a) = anc refl in
      IsAhead-mapped x y r (
        subst (λ z. IsAhead z (jj.bookmark_move main r y).1) same
          (moved r c t y (rw same here) (rw same there) a))
  after_test r c x (ok false, y) here same anc =
      (refuse-Keeps x main c r).at y (rw same (IsAhead-refl x))
  after_test r c x (err e, y) here same anc = rw same (IsAhead-refl x)

  guarded-IsAhead :
      (r c : Text) (x : X) → l.target main x ≡ some c → IsAhead x (guarded_move jj main r c x).1
  unfolding guarded_move continue_test ◌>>=◌
  guarded-IsAhead r c x here =
      after_test r c x (jj.is_ancestor c r x) here (l.is_ancestor_pure c r x)
        (l.ancestor_sound c r c x (l.targeted main c x here))

  continue_target : Text → Option Text → X → Result LandingError (Unit {0}) × X
  unfolding lift ◌>>=◌
  continue_target r o = do
    current ← lift (ok_or (bookmark_move_failed main) o)
    guarded_move jj main r current

  after_target :
      (r : Text) (x y : X) (o : Option Text)
      → y ≡ x
      → l.target main x ≡ o
      → IsAhead x (continue_target r o y).1
  unfolding continue_target
  after_target r x y none same here = rw same (IsAhead-refl x)
  after_target r x y (some c) same here =
      subst (λ z. IsAhead z (guarded_move jj main r c y).1) same
        (guarded-IsAhead r c y (rw same here))

  continue_list : Text → Result JjError (List BookmarkInfo) × X → Result LandingError (Unit {0}) × X
  continue_list r p =
      let (q, y) = rewrap (move_failed main) p in
      continue q (λ bs. continue_target r (target_in main bs)) y

  after_list :
      (r : Text) (x : X) (p : Result JjError (List BookmarkInfo) × X)
      → p.1 ≡ x
      → ((bs : List BookmarkInfo) → p.0 ≡ ok bs → target_in main bs ≡ l.target main x)
      → IsAhead x (continue_list r p).1
  unfolding continue_list
  after_list r x (err e, y) same found = rw same (IsAhead-refl x)
  after_list r x (ok bs, y) same found =
      after_target r x y (target_in main bs) same (sym (found bs refl))

  pub fast_forward-IsAhead : (r : Text) (x : X) → IsAhead x (fast_forward_bookmark jj main r x).1
  unfolding fast_forward_bookmark mapping_err continue_list continue_target ◌>>=◌
  fast_forward-IsAhead r x =
      after_list r x (jj.bookmark_list x) (l.bookmark_list_pure x) (λ bs e. l.listed main x bs e)

  pub fast_forward-Keeps :
      (x₀ : X) (r : Text) → Keeps (IsAhead x₀) (fast_forward_bookmark jj main r)
  fast_forward-Keeps x₀ r =
      Keeps-step x₀ (fast_forward_bookmark jj main r) (λ x. fast_forward-IsAhead r x)
