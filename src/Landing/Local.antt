-- ===== src/Landing/Local.antt =====
-- The local landing machine: rebase onto `main`, then fast-forward the `main` bookmark. Each
-- substate is written to `state.db` before the jj operation that it announces.
pub mod Outcomes
pub mod Safety
pub mod Tests
use vetinari.Prelude.{
  ◌≡◌, Bool, true, false, ◌++◌, Text, codes, msg, text_eq, Option, none, some, Result, ok, err,
  if◌then◌else◌,
}
use vetinari.Prelude.Exec.{Exec, pure, raise, try, ◌>>=◌, ◌>>◌}
use vetinari.Error.{LandingError, not_fast_forward, substate_inconsistent}
use vetinari.State.Enums.{
  Phase, PhaseSubstate, landing, merged, awaiting_human_merge, rebase_started,
  rebase_done_bookmark_pending, merging, bookmark_moved_complete, as_str, substate_enum,
}
use vetinari.World.{World, in_ext}
use vetinari.World.Jj.{Jj, CommitInfo}
use vetinari.Manager.{is_ancestor, resolve_change, rebase, bookmark_target, fast_forward_bookmark}
use vetinari.Landing.{
  LandingOutcome, merged_outcome, rebase_conflict, awaiting_human_merge_outcome, main_bookmark,
  set_phase, emit_transition,
}

abbrev at_target : Option Text → Text → Bool
at_target none target = false
at_target (some now) target = text_eq now target

module _ {X : Type 0} (jj : Jj X) (issue_id : Text) where
  unfoldable pub merged_step : Exec LandingError (World X) LandingOutcome
  merged_step = do
    set_phase issue_id merged none
    emit_transition issue_id landing merged
        (msg "landed locally: rebased onto main and fast-forwarded the main bookmark")
    pure merged_outcome

  unfoldable pub complete_move : Exec LandingError (World X) LandingOutcome
  complete_move = do set_phase issue_id landing (some bookmark_moved_complete); merged_step

  -- Parked for a human, with the reason on the event.
  unfoldable pub park : Text → Exec LandingError (World X) LandingOutcome
  park reason = do
    set_phase issue_id awaiting_human_merge none
    emit_transition issue_id landing awaiting_human_merge reason
    pure awaiting_human_merge_outcome

  -- The `match` on the guarded move.
  unfoldable pub after_move :
      Result LandingError (Unit {0}) → Exec LandingError (World X) LandingOutcome
  after_move (ok _) = complete_move
  after_move (err (not_fast_forward bookmark current target)) = park (
      msg "refusing non-fast-forward move of `"
      ++ bookmark
      ++ msg "` (`"
      ++ current
      ++ msg "` is not an ancestor of `"
      ++ target
      ++ msg "`) — parked for human merge")
  after_move (err other) = raise other

  unfoldable pub move_step : Text → Exec LandingError (World X) LandingOutcome
  move_step target_commit = do
    main_now ← in_ext (bookmark_target jj main_bookmark)
    if at_target main_now target_commit then complete_move else (do
      moved ← try (in_ext (fast_forward_bookmark jj main_bookmark target_commit))
      after_move moved)

  unfoldable pub bookmark_step : Text → Exec LandingError (World X) LandingOutcome
  bookmark_step change_revset = do
    target ← in_ext (resolve_change jj change_revset)
    move_step target.commit_id

  unfoldable pub after_rebase : CommitInfo → Exec LandingError (World X) LandingOutcome
  after_rebase target =
      if target.has_conflict
      then (do
        set_phase issue_id landing (some merging)
        emit_transition issue_id landing landing
            (msg "rebase conflict — dispatching Merger to resolve (REQ-19)")
        pure (rebase_conflict target.commit_id))
      else (do
        set_phase issue_id landing (some rebase_done_bookmark_pending)
        move_step target.commit_id)

  unfoldable pub rebase_step : Text → Exec LandingError (World X) LandingOutcome
  rebase_step change_revset = do
    set_phase issue_id landing (some rebase_started)
    landed ← in_ext (is_ancestor jj main_bookmark change_revset)
    target ←
        in_ext (
          if landed then resolve_change jj change_revset else rebase jj change_revset main_bookmark)
    after_rebase target

  unfoldable pub resume_from : Text → PhaseSubstate → Exec LandingError (World X) LandingOutcome
  resume_from change_revset rebase_started = rebase_step change_revset
  resume_from change_revset rebase_done_bookmark_pending = bookmark_step change_revset
  resume_from change_revset bookmark_moved_complete = merged_step
  resume_from change_revset merging =
      park (msg "crash during Merger resolution — parked for human merge (REQ-15a)")
  resume_from change_revset other = raise (
      substate_inconsistent (as_str other)
        (msg "not a landing-phase substate; cannot resume landing here"))

  unfoldable pub land_local : Text → Exec LandingError (World X) LandingOutcome
  land_local change_revset = resume_from change_revset rebase_started

  unfoldable pub retry_land_after_merge : Text → Exec LandingError (World X) LandingOutcome
  retry_land_after_merge merged_commit = do
    set_phase issue_id landing (some rebase_done_bookmark_pending)
    move_step merged_commit
