-- ===== src/Error.antt =====
-- The error enums of crates/error/src/lib.rs that the modelled code builds or matches on. The
-- boxed `source` of a variant, which only a report to a human shows, is left out.
use vetinari.Prelude.{ℕ, List, Text}
use vetinari.Prelude.Int.{ℤ}

pub data StateError : Type 0 where
  open_failed : Text → StateError
  migration : ℕ → StateError
  query : Text → StateError

pub data LandingError : Type 0 where
  rebase_conflict : List Text → LandingError
  push_conflict : Text → Text → LandingError
  push_failed : Text → Text → LandingError
  pr_open_failed : Text → LandingError
  bookmark_move_failed : Text → LandingError
  gh_auth_missing : LandingError
  pr_create_failed : ℤ → Text → LandingError
  merger_produced_invalid_result : Text → LandingError
  post_merge_qa_failed : LandingError
  rebase_failed : Text → Text → LandingError
  not_fast_forward : Text → Text → Text → LandingError
  substate_inconsistent : Text → Text → LandingError

pub data RecoveryError : Type 0 where
  unknown_substate : Text → Text → RecoveryError
  workspace_missing_for_active_worker : Text → Text → RecoveryError
  state_db_inconsistent : Text → RecoveryError
  jj_log_mismatches_substate : Text → List Text → RecoveryError

-- `PumpError` of crates/orchestrator/src/pump.rs. The errors of spawning, of artifacts and of the
-- Adversary's inputs are kept by their message.
pub data PumpError : Type 0 where
  crosslink : Text → PumpError
  state : StateError → PumpError
  spawn_error : Text → PumpError
  landing_failed : LandingError → PumpError
  artifact_error adversary_error : Text → PumpError
  landing_target_missing : Text → ℤ → PumpError
  main_bookmark_unresolved : ℤ → PumpError
  prior_findings_error : Text → PumpError
  empty_worker_command : PumpError
