-- ===== src/World/Jj.antt =====
-- crates/jj_api as the orchestrator calls it: an interface over the state of the repository. The
-- adapters are thin calls of `jj-lib`, a third-party library, so they are a parameter. `JjLaws`
-- names what the landing code relies on, jj's documented behaviour: reads change nothing, a commit
-- id denotes its commit, ancestry is a preorder on immutable commits that `is_ancestor` reports,
-- `bookmark_move` sets one bookmark, and a rebase onto `main` leaves `main`.
use vetinari.Prelude.{
  ◌≡◌, Bool, true, Text, codes, text_eq, Option, none, some, List, find, ok, err,
}
use vetinari.Prelude.Exec.{Exec}

pub data JjError : Type 0 where
  bookmark_exists bookmark_missing no_such_revision ambiguous_revision : Text → JjError
  push_rejected other_error : Text → JjError

pub record CommitInfo : Type 0 where
  pub commit_id : Text
  pub change_id : Text
  pub description : Text
  pub has_conflict : Bool

pub record BookmarkInfo : Type 0 where
  pub name : Text
  pub target : Option Text

pub record WorkspaceEntry : Type 0 where
  pub name : Text
  pub working_copy_id : Text

-- `list.into_iter().find(|b| b.name == name).and_then(|b| b.target)`
unfoldable pub target_in : Text → List BookmarkInfo → Option Text
target_in name bs = elim (find (λ b. text_eq b.name name) bs) [ none ↦ none | some b ↦ b.target ]

pub record Jj (X : Type 0) : Type 0 where
  pub bookmark_list : Exec JjError X (List BookmarkInfo)
  pub bookmark_create : Text → Text → Exec JjError X Unit
  pub bookmark_move : Text → Text → Exec JjError X Unit
  pub bookmark_forget : Text → Exec JjError X Unit
  pub is_ancestor : Text → Text → Exec JjError X Bool
  pub resolve_single_info : Text → Exec JjError X CommitInfo
  pub rebase : Text → Text → Exec JjError X CommitInfo
  pub git_push : Text → Text → Exec JjError X Unit
  pub workspace_list : Exec JjError X (List WorkspaceEntry)
  pub workspace_forget : Text → Exec JjError X Unit

-- What the landing code relies on, over a reading of the repository: the commit that a revset
-- denotes, the commit that a bookmark points at, and ancestry between commit ids.
pub record JjLaws {X : Type 0} (jj : Jj X) : Type 1 where
  pub commit_of : Text → X → Option Text
  pub target : Text → X → Option Text
  pub Ancestor : Text → Text → Type 0
  pub ancestor_refl : (c : Text) → Ancestor c c
  pub ancestor_trans : (a b c : Text) → Ancestor a b → Ancestor b c → Ancestor a c
  -- reads change nothing
  pub bookmark_list_pure : (x : X) → (jj.bookmark_list x).1 ≡ x
  pub is_ancestor_pure : (a d : Text) (x : X) → (jj.is_ancestor a d x).1 ≡ x
  pub resolve_pure : (r : Text) (x : X) → (jj.resolve_single_info r x).1 ≡ x
  -- `bookmark list` reports each local bookmark's target
  pub listed :
      (n : Text) (x : X) (bs : List BookmarkInfo)
      → (jj.bookmark_list x).0 ≡ ok bs
      → target_in n bs ≡ target n x
  -- a bookmark's target is a commit id, and a commit id is the revset of that commit
  pub targeted : (n c : Text) (x : X) → target n x ≡ some c → commit_of c x ≡ some c
  -- `is_ancestor` answers yes only for two revsets that denote commits, the first an ancestor
  pub ancestor_sound :
      (a d s : Text) (x : X)
      → commit_of a x ≡ some s
      → (jj.is_ancestor a d x).0 ≡ ok true
      → (t : Text) × (commit_of d x ≡ some t) × Ancestor s t
  -- `bookmark set` points one bookmark at the revset's commit, or fails and changes nothing
  pub move_lem :
      (n r : Text) (x : X)
      → (jj.bookmark_move n r x).0 ≡ ok tt
      → target n (jj.bookmark_move n r x).1 ≡ commit_of r x
  pub move_failed_lem :
      (n r : Text) (e : JjError) (x : X)
      → (jj.bookmark_move n r x).0 ≡ err e
      → (jj.bookmark_move n r x).1 ≡ x
  -- `main` is no descendant of itself, so a rebase onto `main` rewrites and moves no ancestor of it
  pub rebase_main :
      (s : Text) (x : X)
      → target (codes "main") (jj.rebase s (codes "main") x).1 ≡ target (codes "main") x
