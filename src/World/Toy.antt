-- ===== src/World/Toy.antt =====
-- A small repository for tests, an instance of the interface of World/Jj.antt: one linear history
-- whose commits are texts, a longer one the descendant of a shorter one, with one bookmark, `main`.
use mathlib.Core.Option.{some-injective}
use vetinari.Prelude.{
  ◌≤◌, ◌≡◌, refl, sym, ap, ok-injective, Bool, true, false, Text, codes, text_eq, Option, some,
  List, [], ◌∷◌, length, leb, leb→le, ok, err, if◌then◌else◌, arith,
}
use vetinari.World.Jj.{
  Jj, JjLaws, JjError, CommitInfo, BookmarkInfo, bookmark_missing, bookmark_exists, target_in,
}

-- The state: the commit of `main`.
abbrev pub Repo : Type 0
Repo = Text

abbrev commit_at : Text → Repo → Text
commit_at r x = if text_eq r (codes "main") then x else r

abbrev info : Bool → Text → CommitInfo
info conflict c = record { commit_id = c; change_id = c; description = []; has_conflict = conflict }

abbrev bookmarks : Repo → List BookmarkInfo
bookmarks x = record { name = codes "main"; target = some x } ∷ []

-- `conflicts` says whether a rebase ends in a conflict.
abbrev pub toy : Bool → Jj Repo
toy conflicts = record {
  bookmark_list = λ x. (ok (bookmarks x), x);
  bookmark_create = λ n r x. (err (bookmark_exists n), x);
  bookmark_move = λ n r x.
      if text_eq (codes "main") n then (ok tt, commit_at r x) else (err (bookmark_missing n), x);
  bookmark_forget = λ n x. (ok tt, x);
  is_ancestor = λ a d x. (ok (leb (length (commit_at a x)) (length (commit_at d x))), x);
  resolve_single_info = λ r x. (ok (info false (commit_at r x)), x);
  rebase = λ s d x. (ok (info conflicts (0 ∷ x)), x);
  git_push = λ r b x. (ok tt, x);
  workspace_list = λ x. (ok [], x);
  workspace_forget = λ n x. (ok tt, x);
}

unfoldable pub toy_target : Text → Repo → Option Text
toy_target n x = target_in n (bookmarks x)

pub toy_moved :
    (b : Bool) (n r : Text) (x : Repo)
    → ((toy b).bookmark_move n r x).0 ≡ ok tt
    → toy_target n ((toy b).bookmark_move n r x).1 ≡ some (commit_at r x)
unfolding toy_target target_in
toy_moved b n r x h = ground arith

pub toy_refused :
    (b : Bool) (n r : Text) (e : JjError) (x : Repo)
    → ((toy b).bookmark_move n r x).0 ≡ err e
    → ((toy b).bookmark_move n r x).1 ≡ x
toy_refused b n r e x h = ground arith

pub toy_listed :
    (b : Bool) (n : Text) (x : Repo) (bs : List BookmarkInfo)
    → ((toy b).bookmark_list x).0 ≡ ok bs
    → target_in n bs ≡ toy_target n x
unfolding toy_target
toy_listed b n x bs h = ap (target_in n) (sym (ok-injective h))

pub toy_targeted : (n c : Text) (x : Repo) → toy_target n x ≡ some c → some (commit_at c x) ≡ some c
unfolding toy_target target_in
toy_targeted n c x h = ground arith

pub toy_refl : (c : Text) → length c ≤ length c
toy_refl c = ground arith

pub toy_trans : (a b c : Text) → length a ≤ length b → length b ≤ length c → length a ≤ length c
toy_trans a b c h h' = ground arith

pub toy_ancestor :
    (b : Bool) (a d s : Text) (x : Repo)
    → some (commit_at a x) ≡ some s
    → ((toy b).is_ancestor a d x).0 ≡ ok true
    → (t : Text) × (some (commit_at d x) ≡ some t) × (length s ≤ length t)
toy_ancestor b a d s x e h = (
  commit_at d x,
  refl,
  ground (
    arith,
    leb→le (length (commit_at a x)) (length (commit_at d x)) (ok-injective h),
    ap length (some-injective (commit_at a x) s e),
  ),
)

abbrev pub toy_laws : (b : Bool) → JjLaws (toy b)
toy_laws b = record {
  commit_of = λ r x. some (commit_at r x);
  target = toy_target;
  Ancestor = λ a d. length a ≤ length d;
  ancestor_refl = toy_refl;
  ancestor_trans = toy_trans;
  bookmark_list_pure = λ x. refl;
  is_ancestor_pure = λ a d x. refl;
  resolve_pure = λ r x. refl;
  listed = toy_listed b;
  targeted = toy_targeted;
  ancestor_sound = toy_ancestor b;
  move_lem = toy_moved b;
  move_failed_lem = toy_refused b;
  rebase_main = λ s x. refl;
}
