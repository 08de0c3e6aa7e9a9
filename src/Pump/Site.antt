-- ===== src/Pump/Site.antt =====
-- What the build pump calls outside the modelled code: the repository and crosslink, the workers'
-- files, the panes that host workers, the QA sandbox, and the rendering of a worker's inputs.
use vetinari.Prelude.{
  ℕ, not, Text, codes, Option, none, some, List, ◌∷◌, ◌++◌, Result, if◌then◌else◌,
}
use vetinari.Prelude.Strings.{newline, is_blank}
use vetinari.Prelude.Int.{ℤ}
use vetinari.Prelude.Exec.{Exec}
use vetinari.Error.{PumpError, LandingError}
use vetinari.State.Enums.{WorkerRole}
use vetinari.World.Jj.{Jj, JjError}
use vetinari.World.Tracker.{CrosslinkRepo, PrOpener}
use vetinari.Recovery.Workers.{WorkerFiles}
use vetinari.Artifacts.{Formats}
use vetinari.Artifacts.Findings.{Finding}
use vetinari.Names.{WorkspaceName}

pub data SpawnOutcome : Type 0 where
  exited still_running : SpawnOutcome

pub data QaOutcome : Type 0 where
  qa_pass : QaOutcome
  qa_fail : ℤ → Text → QaOutcome

-- `task_from_issue` of crates/orchestrator/src/roles/implementer.rs
unfoldable pub task_from_issue : Text → Option Text → Text
task_from_issue title none = codes "# " ++ title
task_from_issue title (some body) =
    if not (is_blank body)
    then codes "# " ++ (title ++ newline ∷ newline ∷ body)
    else codes "# " ++ title

-- The rendered inputs of an Adversary: the workspace, the range of the diff, the change, the findings
-- so far, the task.
pub record ReviewInputs : Type 0 where
  pub workspace : Text
  pub diff_from : Text
  pub diff_to : Text
  pub log_revset : Text
  pub prior_findings : List Finding
  pub task : Text

-- The context of a conflict, as it is rendered for a Merger.
pub record ConflictContext : Type 0 where
  pub workspace : Text
  pub target_commit : Text
  pub change_revset : Text
  pub conflicted_commit : Text

-- `launch` builds the configured command of the role and spawns it: the pane's name.
pub record Site (X : Type 0) : Type 0 where
  pub jj : Jj X
  pub repo : CrosslinkRepo X
  pub files : WorkerFiles X
  pub formats : Formats X
  pub root : Text
  pub n_rounds : ℕ
  pub fresh_uuid : X → Text × X
  pub prepare : WorkspaceName → Text → Exec Text X Text
  pub render_prior_findings : Text → List Finding → Exec Text X Unit
  pub render_inputs : ReviewInputs → Exec Text X Unit
  pub render_conflict_input : ConflictContext → Exec PumpError X Unit
  pub launch : WorkerRole → ℤ → Text → ℕ → Text → Exec PumpError X Text
  pub wait : Text → Exec Text X SpawnOutcome
  pub close : Text → X → X
  pub diff : Text → Text → Exec JjError X Text
  pub snapshot_workspace : WorkspaceName → Exec JjError X Unit
  pub run_qa : Text → Exec PumpError X (Result Text QaOutcome)
  pub opener_for : Text → Exec LandingError X (PrOpener X)
