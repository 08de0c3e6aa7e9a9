-- ===== src/Manager.antt =====
-- `WorkspaceManager` of crates/orchestrator/src/workspace.rs: the primitives that landing and
-- recovery call, each one hold of the `.jj/` gate. The gate's mutex is not modelled: one call is
-- one step.
pub mod Safety
use vetinari.Prelude.{
  ◌≡◌, Bool, true, false, not, Text, codes, msg, text_eq, Option, none, some, List, find, any,
  Result, ok, err, to_option, ok_or, map_err, if◌then◌else◌, ◌++◌,
}
use vetinari.Prelude.Exec.{Exec, pure, raise, lift, mapping_err, try, ◌>>=◌, ◌>>◌}
use vetinari.Error.{
  LandingError, rebase_failed, bookmark_move_failed, not_fast_forward, push_conflict, push_failed,
}
use vetinari.World.Jj.{
  Jj, target_in, JjError, push_rejected, CommitInfo, BookmarkInfo, WorkspaceEntry,
}

abbrev pub move_failed : Text → JjError → LandingError
move_failed name _ = bookmark_move_failed name

module _ {X : Type 0} (jj : Jj X) where
  unfoldable pub rebase : Text → Text → Exec LandingError X CommitInfo
  rebase source dest = mapping_err (λ _. rebase_failed source dest) (jj.rebase source dest)

  unfoldable pub bookmark_target : Text → Exec LandingError X (Option Text)
  bookmark_target name = do
    bs ← mapping_err (move_failed name) jj.bookmark_list
    pure (target_in name bs)

  unfoldable pub resolve_change : Text → Exec LandingError X CommitInfo
  resolve_change revset =
      mapping_err (λ _. rebase_failed revset revset) (jj.resolve_single_info revset)

  unfoldable pub is_ancestor : Text → Text → Exec LandingError X Bool
  is_ancestor ancestor descendant =
      mapping_err (λ _. rebase_failed ancestor descendant) (jj.is_ancestor ancestor descendant)

  -- The commit that the refusal names: resolved if it can be, the revset otherwise.
  abbrev named : Text → Result JjError CommitInfo → Text
  named revset (ok c) = c.commit_id
  named revset (err _) = revset

  refuse : Text → Text → Text → Exec LandingError X Unit
  refuse name current target_revset = do
    r ← try (jj.resolve_single_info target_revset)
    raise (not_fast_forward name current (named target_revset r))

  -- The move, if the bookmark's current commit is an ancestor of the target.
  unfoldable pub guarded_move : Text → Text → Text → Exec LandingError X Unit
  unfolding refuse
  guarded_move name target_revset current = do
    is_ff ← mapping_err (move_failed name) (jj.is_ancestor current target_revset)
    if not is_ff
        then refuse name current target_revset
        else mapping_err (move_failed name) (jj.bookmark_move name target_revset)

  unfoldable pub fast_forward_bookmark : Text → Text → Exec LandingError X Unit
  fast_forward_bookmark name target_revset = do
    bs ← mapping_err (move_failed name) jj.bookmark_list
    current ← lift (ok_or (bookmark_move_failed name) (target_in name bs))
    guarded_move name target_revset current

  unfoldable pub point_bookmark : Text → Text → Exec LandingError X Unit
  point_bookmark name revset = do
    bs ← mapping_err (move_failed name) jj.bookmark_list
    mapping_err (move_failed name) (
        if any (λ b. text_eq b.name name) bs
        then jj.bookmark_move name revset
        else jj.bookmark_create name revset)

  unfoldable pub forget_bookmark : Text → Exec LandingError X Unit
  forget_bookmark name = mapping_err (move_failed name) (jj.bookmark_forget name)

  push_error : Text → Text → JjError → LandingError
  push_error remote bookmark (push_rejected _) = push_conflict remote bookmark
  push_error remote bookmark _ = push_failed remote bookmark

  unfoldable pub git_push : Text → Text → Exec LandingError X Unit
  unfolding push_error
  git_push remote bookmark = mapping_err (push_error remote bookmark) (jj.git_push remote bookmark)
