-- ===== src/Landing.antt =====
-- crates/orchestrator/src/landing.rs: the local and the remote landing machine.
pub mod Local
pub mod Remote
pub mod Others
pub mod Slug
pub mod Steps
use vetinari.Prelude.{◌≡◌, Bool, Text, codes, msg, Option, none, some, List, [], ◌∷◌, ok, err}
use vetinari.Prelude.Exec.{Exec, pure, mapping_err, ◌>>=◌, ◌>>◌}
use vetinari.Error.{StateError, LandingError, bookmark_move_failed}
use vetinari.State.Enums.{Phase, PhaseSubstate, transition, as_str, phase_enum}
use vetinari.State.Issues
use vetinari.State.Rows.{Payload}
use vetinari.World.{World, in_db}
use vetinari.Events.{emit}

abbrev pub main_bookmark : Text
main_bookmark = codes "main"

pub data LandingOutcome : Type 0 where
  merged_outcome : LandingOutcome
  pr_open_outcome : Text → LandingOutcome
  rebase_conflict : Text → LandingOutcome
  awaiting_human_merge_outcome : LandingOutcome

-- The wrapping of a `state.db` failure.
abbrev write_failed : StateError → LandingError
write_failed _ = bookmark_move_failed (msg "state.db")

module _ {X : Type 0} where
  unfoldable pub set_phase : Text → Phase → Option PhaseSubstate → Exec LandingError (World X) Unit
  set_phase issue_id phase substate =
      mapping_err write_failed (in_db (Issues.set_phase issue_id phase substate))

  unfoldable pub emit_landing : Text → Payload → Exec LandingError (World X) Unit
  emit_landing issue_id payload = do
    mapping_err write_failed (emit transition (some issue_id) none payload)
    pure tt

  unfoldable pub emit_transition : Text → Phase → Phase → Text → Exec LandingError (World X) Unit
  unfolding emit_landing
  emit_transition issue_id from to reason = emit_landing issue_id (
      (codes "from_phase", as_str from)
      ∷ (codes "to_phase", as_str to)
      ∷ (codes "reason", reason)
      ∷ [])

  unfoldable pub emit_pr_open : Text → Text → Text → Exec LandingError (World X) Unit
  unfolding emit_landing
  emit_pr_open issue_id branch url = emit_landing issue_id (
      (codes "from_phase", as_str Phase.landing)
      ∷ (codes "to_phase", as_str Phase.pr_open)
      ∷ (codes "reason", msg "landed remotely: pushed the issue branch and opened a GitHub PR")
      ∷ (codes "branch", branch)
      ∷ (codes "pr_url", url)
      ∷ [])
