-- ===== src/Pump/Land.antt =====
-- `land` of crates/orchestrator/src/pump.rs past the approval gate: the choice of the mode, and what
-- an outcome of the landing machines becomes.
pub mod Laws
use mathlib.Core.Option
use vetinari.Prelude.{
  ℕ, Bool, true, false, Text, codes, msg, Option, none, some, List, [], ◌∷◌, Result, ok, err,
}
use vetinari.Prelude.Int.{ℤ}
use vetinari.Prelude.Strings.{lines, trim_space}
use vetinari.Prelude.Exec.{Exec, pure, raise, mapping_err, try, ◌>>=◌, ◌>>◌}
use vetinari.Error.{PumpError, landing_failed, LandingError, gh_auth_missing}
use vetinari.State.Enums.{Phase}
use vetinari.World.{World, in_ext}
use vetinari.World.Jj.{CommitInfo}
use vetinari.World.Tracker.{IssueInfo, PrOpener}
use vetinari.Manager.{resolve_change}
use vetinari.Answer.Delivery.{repo_step}
use vetinari.Landing.{
  LandingOutcome, merged_outcome, pr_open_outcome, rebase_conflict, awaiting_human_merge_outcome,
  main_bookmark,
}
use vetinari.Landing.Local.{land_local}
use vetinari.Landing.Remote.{RemoteLanding, land_remote}
use vetinari.Landing.Slug.{branch_name}
use vetinari.Pump.Labels.{set_phase_label}
use vetinari.Pump.Gate
use vetinari.Pump.Gate.{IssueOutcome, merged_issue, pr_open_issue, awaiting_human_merge_issue}
use vetinari.Pump.Site.{Site}
use vetinari.Pump.Steps.{poison}
use vetinari.Pump.Merge.{resolve_conflict_with_merger}

-- The first line of the change's description, trimmed, if it is not empty; else the issue's title
abbrev title_line : Text → List Text → Text
title_line title [] = title
title_line title (line ∷ rest) = elim (trim_space line) [ [] ↦ title | c ∷ cs ↦ c ∷ cs ]

abbrev pub pr_title : Text → Result LandingError CommitInfo → Text
pr_title title (err e) = title
pr_title title (ok change) = title_line title (lines change.description)

abbrev pub body_or_title : IssueInfo → Text
body_or_title info = elim info.description [ none ↦ info.title | some body ↦ body ]

module _ {X : Type 0} (site : Site X) where
  unfoldable pub land_remote_mode :
      ℤ → Text → Text → Text → PrOpener X → Exec PumpError (World X) LandingOutcome
  land_remote_mode issue_id key change remote opener = do
    info ← repo_step (site.repo.read_issue issue_id)
    described ← try {F = PumpError} (in_ext (resolve_change site.jj change))
    mapping_err landing_failed (
        land_remote site.jj opener (record {
          issue_id = key;
          change_revset = change;
          remote = remote;
          branch = branch_name key info.title;
          base = main_bookmark;
          title = pr_title info.title described;
          body = body_or_title info;
        }))

  -- The `match` on the outcome of either machine
  unfoldable pub on_landing :
      ℤ → Text → Text → LandingOutcome → Exec PumpError (World X) IssueOutcome
  on_landing issue_id key change merged_outcome = do
    set_phase_label site.repo issue_id Phase.merged
    pure merged_issue
  on_landing issue_id key change (pr_open_outcome url) = do
    set_phase_label site.repo issue_id Phase.pr_open
    pure pr_open_issue
  on_landing issue_id key change (rebase_conflict rebased_commit) =
      resolve_conflict_with_merger site issue_id key change rebased_commit
  on_landing issue_id key change awaiting_human_merge_outcome = do
    set_phase_label site.repo issue_id Phase.awaiting_human_merge
    pure awaiting_human_merge_issue

  -- A missing token parks this issue alone.
  unfoldable pub land_with :
      ℤ
      → Text
      → Text
      → Text
      → Result LandingError (PrOpener X)
      → Exec PumpError (World X) IssueOutcome
  land_with issue_id key change remote (ok opener) = do
    outcome ← land_remote_mode issue_id key change remote opener
    on_landing issue_id key change outcome
  land_with issue_id key change remote (err gh_auth_missing) =
      poison site key none (msg "remote-mode landing needs a GitHub token")
  land_with issue_id key change remote (err other) = raise (landing_failed other)

  unfoldable pub land_by_mode :
      ℤ → Text → Text → Option Text → Exec PumpError (World X) IssueOutcome
  land_by_mode issue_id key change none = do
    outcome ← mapping_err landing_failed (land_local site.jj key change)
    on_landing issue_id key change outcome
  land_by_mode issue_id key change (some remote) = do
    opener ← try {F = PumpError} (in_ext (site.opener_for remote))
    land_with issue_id key change remote opener

  unfoldable pub past_gate : ℤ → Text → Text → Exec PumpError (World X) IssueOutcome
  past_gate issue_id key change = do
    remote ← repo_step site.repo.tracker_remote
    land_by_mode issue_id key change remote

  unfoldable pub land : ℤ → Text → Text → Exec PumpError (World X) IssueOutcome
  land issue_id key change = Gate.land site.repo past_gate issue_id key change
