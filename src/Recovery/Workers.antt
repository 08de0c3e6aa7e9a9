-- ===== src/Recovery/Workers.antt =====
-- What recovery does with workers and their workspaces: the helpers of
-- crates/orchestrator/src/recovery.rs and `forget` of crates/orchestrator/src/workspace.rs.
-- The files of a workspace are an interface: whether its `_orchestrator/DONE` verifies, the comments
-- that its artifacts translate to, and the removal of its directory.
use vetinari.Prelude.{
  ℕ, ◌%◌, ◌^◌, Bool, ◌&&◌, Text, codes, msg, text_eq, Option, none, some, List, [], ◌∷◌, ◌++◌, any,
  ◌==◌, Result, if◌then◌else◌,
}
use vetinari.Prelude.Exec.{Exec, pure, raise, mapping_err, try, ◌>>=◌, ◌>>◌}
use vetinari.Error.{StateError, RecoveryError, state_db_inconsistent}
use vetinari.State.Db.{StateDb}
use vetinari.State.Enums.{Phase, implementing, transition, phase_enum, as_str}
use vetinari.State.Rows.{ActiveWorkerRow, IssueRow}
use vetinari.State.Issues.{get_issue, set_phase}
use vetinari.State.Workers.{remove_worker}
use vetinari.World.{World, in_db, in_ext}
use vetinari.World.Jj.{Jj, WorkspaceEntry}
use vetinari.World.Tracker.{CrosslinkError}
use vetinari.Events.{emit}
use vetinari.Landing.Slug.{trim_end}
use vetinari.Artifacts.Plan.{TranslationItem}
use vetinari.Names.{WorkspaceName, parse, rendered, from_parts, rsplit_once}

pub record WorkerFiles (X : Type 0) : Type 0 where
  pub done_verifies : Text → X → Bool
  pub translation_plan : Text → Text → X → Result Text (List TranslationItem)
  pub remove_dir_all : Text → Exec Text X Unit

abbrev pub state_err : StateError → RecoveryError
state_err _ = state_db_inconsistent (msg "state.db operation failed during recovery")

-- `path.file_name()` of a path that the program wrote, which has no `.` component
last_segment : Text → Text
last_segment [] = []
last_segment (c ∷ cs) = if any (λ d. d == b'/') (c ∷ cs) then last_segment cs else c ∷ cs

unfoldable pub workspace_name_from : ActiveWorkerRow → Option WorkspaceName
unfolding last_segment
workspace_name_from worker = parse (last_segment (trim_end b'/' worker.workspace_path))

abbrev head_of : Text → Option (Text × Text) → Text
head_of s none = s
head_of s (some (head, tail)) = head

unfoldable pub strip_uuid : Text → Text
strip_uuid s = head_of s (rsplit_once s)

-- `generate` mints a uuid of eight hex digits, which `strip_uuid` takes off again: any one will do.
unfoldable pub workspace_issue_matches : WorkspaceName → Text → Bool
workspace_issue_matches name issue_id =
    text_eq (strip_uuid (rendered (from_parts name.phase issue_id name.round (codes "00000000"))))
      (strip_uuid (rendered name))

-- The first registered workspace of the issue at this round
matching_entry : Text → ℕ → List WorkspaceEntry → Option Text
matching_entry issue_id want_round [] = none
matching_entry issue_id want_round (entry ∷ entries) =
    let later = matching_entry issue_id want_round entries in
    elim (parse entry.name) [
      | none ↦ later
      | some name ↦
          if text_eq (as_str name.phase) (as_str implementing)
            && (name.round == want_round && workspace_issue_matches name issue_id)
          then some entry.working_copy_id
          else later
    ]

module _ {X : Type 0} where
  abbrev pub state_step : {A : Type 0} → Exec StateError StateDb A → Exec RecoveryError (World X) A
  state_step m = mapping_err state_err (in_db m)

  abbrev pub failing_as :
      {A : Type 0} → Text → Exec CrosslinkError X A → Exec RecoveryError (World X) A
  failing_as detail m = mapping_err (λ _. state_db_inconsistent detail) (in_ext m)

  unfoldable pub emit_recovery : Text → Text → Exec RecoveryError (World X) Unit
  emit_recovery issue_id reason = do
    mapping_err state_err (
        emit transition (some issue_id) none
          ((codes "recovery", codes "true") ∷ (codes "reason", reason) ∷ []))
    pure tt

module _ {X : Type 0} (jj : Jj X) (files : WorkerFiles X) (root : Text) where
  unregister : Text → Bool → Exec Text X Unit
  unregister name registered =
      if registered
      then mapping_err (λ _. msg "workspace prep") (jj.workspace_forget name)
      else pure tt

  -- `WorkspaceManager::forget`, with `cleanup`
  unfoldable pub forget : WorkspaceName → Exec Text X Unit
  unfolding unregister
  forget name = do
    entries ← mapping_err (λ _. msg "workspace prep") jj.workspace_list
    unregister (rendered name) (any (λ e. text_eq e.name (rendered name)) entries)
    files.remove_dir_all (root ++ codes "/.workspace/" ++ rendered name)

  unfoldable pub forget_if_named : Option WorkspaceName → Exec RecoveryError (World X) Unit
  forget_if_named none = pure tt
  forget_if_named (some name) = do _ ← try {F = RecoveryError} (in_ext (forget name)); pure tt

  -- Best effort: what fails here is passed over.
  unfoldable pub reap : ActiveWorkerRow → Exec RecoveryError (World X) Unit
  unfolding forget_if_named
  reap worker = do
    forget_if_named (workspace_name_from worker)
    _ ← try {F = RecoveryError} (in_db (remove_worker worker.worker_uuid))
    pure tt

  unfoldable pub reap_all : List ActiveWorkerRow → Exec RecoveryError (World X) Unit
  reap_all [] = pure tt
  reap_all (worker ∷ workers) = do reap worker; reap_all workers

  abbrev pub reap_if_any : Option ActiveWorkerRow → Exec RecoveryError (World X) Unit
  reap_if_any none = pure tt
  reap_if_any (some worker) = reap worker

  abbrev phase_of : Option IssueRow → Phase
  phase_of none = implementing
  phase_of (some row) = row.phase

  unfoldable pub clean_crashed_worker :
      Text → Option ActiveWorkerRow → Exec RecoveryError (World X) Unit
  clean_crashed_worker issue_id worker = do
    reap_if_any worker
    row ← state_step (get_issue issue_id)
    state_step (set_phase issue_id implementing none)
    emit_recovery issue_id
        (msg "recovery: rolled `" ++ as_str (phase_of row) ++ msg "` back to `implementing`")

  unfoldable pub revset_of : Text → Option Text → Exec RecoveryError (World X) Text
  revset_of issue_id none =
      raise (state_db_inconsistent (msg "no `implementing` workspace for issue `" ++ issue_id))
  revset_of issue_id (some change) = pure change

  unfoldable pub landing_change_revset : Text → ℕ → Exec RecoveryError (World X) Text
  unfolding matching_entry revset_of
  landing_change_revset issue_id round = do
    entries ←
        mapping_err (λ _. state_db_inconsistent (msg "could not list jj workspaces"))
          (in_ext jj.workspace_list)
    revset_of issue_id (matching_entry issue_id (round % 2 ^ 32) entries)
