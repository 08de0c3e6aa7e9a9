-- ===== src/Landing/Remote.antt =====
-- The remote landing machine: push the issue's branch, open a pull request for it.
pub mod Outcomes
pub mod Tests
use vetinari.Prelude.{◌≡◌, Text, codes, msg, Option, none, some, Result, ok, err, ok_or}
use vetinari.Prelude.Exec.{Exec, pure, raise, lift, try, ◌>>=◌, ◌>>◌}
use vetinari.Error.{LandingError, substate_inconsistent}
use vetinari.State.Enums.{
  Phase, PhaseSubstate, landing, pr_open, push_started, push_done_pr_pending, pr_created, as_str,
  substate_enum,
}
use vetinari.World.{World, in_ext}
use vetinari.World.Jj.{Jj}
use vetinari.World.Tracker.{PrOpener, PrRequest}
use vetinari.Manager.{point_bookmark, git_push, forget_bookmark}
use vetinari.Landing.{LandingOutcome, pr_open_outcome, set_phase, emit_pr_open}

pub record RemoteLanding : Type 0 where
  pub issue_id : Text
  pub change_revset : Text
  pub remote : Text
  pub branch : Text
  pub base : Text
  pub title : Text
  pub body : Text

module _ {X : Type 0} (jj : Jj X) (opener : PrOpener X) where
  unfoldable pub complete_pr_open : Text → Text → Text → Exec LandingError (World X) LandingOutcome
  complete_pr_open issue_id branch url = do
    set_phase issue_id pr_open none
    emit_pr_open issue_id branch url
    _ ← try {F = LandingError} (in_ext (forget_bookmark jj branch))
    pure (pr_open_outcome url)

  -- The existing PR of the branch, or a new one.
  unfoldable pub adopt_or_open : RemoteLanding → Option Text → Exec LandingError X Text
  adopt_or_open params (some existing) = pure existing
  adopt_or_open params none = opener.open_pr (record {
    head = params.branch;
    base = params.base;
    title = params.title;
    body = params.body;
  })

  unfoldable pub pr_step : RemoteLanding → Exec LandingError (World X) LandingOutcome
  pr_step params = do
    found ← in_ext (opener.find_open_pr params.branch)
    url ← in_ext (adopt_or_open params found)
    set_phase params.issue_id landing (some pr_created)
    complete_pr_open params.issue_id params.branch url

  unfoldable pub push_step : RemoteLanding → Exec LandingError (World X) LandingOutcome
  push_step params = do
    set_phase params.issue_id landing (some push_started)
    in_ext (point_bookmark jj params.branch params.change_revset)
    in_ext (git_push jj params.remote params.branch)
    set_phase params.issue_id landing (some push_done_pr_pending)
    pr_step params

  unfoldable pub finish_created : RemoteLanding → Exec LandingError (World X) LandingOutcome
  finish_created params = do
    found ← in_ext (opener.find_open_pr params.branch)
    url ← lift (
        ok_or
          (substate_inconsistent (as_str pr_created)
            (msg "state.db says the PR was created, but no open PR exists for it on the remote"))
          found)
    complete_pr_open params.issue_id params.branch url

  unfoldable pub resume_remote_from :
      RemoteLanding → PhaseSubstate → Exec LandingError (World X) LandingOutcome
  resume_remote_from params push_started = push_step params
  resume_remote_from params push_done_pr_pending = pr_step params
  resume_remote_from params pr_created = finish_created params
  resume_remote_from params other =
      raise (substate_inconsistent (as_str other) (msg "not a resumable remote-landing substate"))

  unfoldable pub land_remote : RemoteLanding → Exec LandingError (World X) LandingOutcome
  land_remote params = resume_remote_from params push_started
