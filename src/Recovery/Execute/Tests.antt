-- ===== src/Recovery/Execute/Tests.antt =====
-- A recovery pass over a small database with an issue that cannot be recovered.
use vetinari.Prelude.{
  ◌≡◌, refl, Text, codes, msg, text_eq, text_leb, none, some, List, [], ◌∷◌, Result, ok, err, false,
  true, Bool,
}
use vetinari.Prelude.Exec.{◌>>=◌, ◌>>◌, mapping_err, try}
use vetinari.Error.{RecoveryError}
use vetinari.State.Enums.{is_terminal, is_drivable, orchestrator_error, implementing, landing}
use vetinari.State.Rows.{IssueRow, new_issue}
use vetinari.State.Issues.Laws.{row}
use vetinari.State.Db.{execute}
use vetinari.State.Issues.{
  list_issues, order_by_id, set_phase, update_issue, find_issue, get_issue, with_phase,
}
use vetinari.State.Workers.{list_active_workers}
use vetinari.State.Ledger.{append_event}
use vetinari.Events.{emit, append}
use vetinari.World.{in_db, in_log, in_ext}
use vetinari.World.Healthy.{Healthy}
use vetinari.World.Toy.{Repo, toy}
use vetinari.Landing.Local.Tests.{a_world, ab}
use vetinari.Recovery.Plan.{
  plan_recovery, plan_known, plan_open, carries_answer_substate, no_action,
}
use vetinari.Recovery.Workers.{WorkerFiles, reap_all, emit_recovery}
use vetinari.Recovery.Workers
use vetinari.Recovery.Execute.{
  RecoveryAction, quarantined, recover_with, recover_issues, recover_issue, carry_out, settle,
  quarantine,
}
use vetinari.Recovery.Execute.Total.{recover_with-Succeeds}
use vetinari.Recovery.Execute.Reconciled.{quarantine_lem, clean_crashed_worker_lem}

abbrev no_files : WorkerFiles Repo
no_files = record {
  done_verifies = λ p x. false;
  translation_plan = λ u p x. ok [];
  remove_dir_all = λ p x. (ok tt, x);
}

-- The first issue is at `landing` with no substate, which no line of the table covers.
abbrev shown_action : RecoveryAction → Text
shown_action (quarantined k e) = k
shown_action other = []

abbrev shown_actions : List RecoveryAction → List Text
shown_actions [] = []
shown_actions (a ∷ xs) = shown_action a ∷ shown_actions xs

abbrev shown : Result RecoveryError (List RecoveryAction) → List Text
shown (ok xs) = shown_actions xs
shown (err e) = []

one_quarantined :
    shown (recover_with (toy false) no_files (codes "/r") none none (a_world ab)).0 ≡ codes "7" ∷ []
unfolding recover_with recover_issues recover_issue carry_out settle quarantine plan_recovery
    plan_known plan_open carries_answer_substate reap_all is_terminal list_issues order_by_id
    set_phase update_issue list_active_workers execute append_event emit append in_db in_log in_ext
    mapping_err try text_eq text_leb ◌>>=◌ ◌>>◌
one_quarantined = refl

works : Healthy (a_world ab)
works = record { db_works = record { never = λ n. refl }; log_works = record { never = λ n. refl } }

recover_with-Succeeds_example :
    (actions : List RecoveryAction) × ((recover_with
        (toy false)
        no_files
        (codes "/r")
        none
        none
        (a_world ab)).0
      ≡ ok actions)
recover_with-Succeeds_example =
    recover_with-Succeeds (toy false) no_files (codes "/r") none none (a_world ab) works

abbrev quarantined_row : IssueRow
quarantined_row = with_phase orchestrator_error none 0 (new_issue (codes "7") landing 1)

a_quarantine : (quarantine (codes "7") (msg "corrupt") (a_world ab)).0 ≡ ok tt
unfolding quarantine set_phase execute append_event emit append in_db in_log mapping_err ◌>>=◌ ◌>>◌
a_quarantine = refl

a_quarantined_row :
    row (codes "7") (quarantine (codes "7") (msg "corrupt") (a_world ab)).1.db
    ≡ some quarantined_row
unfolding quarantine set_phase update_issue find_issue text_eq execute append_event emit append
    in_db in_log mapping_err ◌>>=◌ ◌>>◌
a_quarantined_row = refl

quarantine_lem_example :
    (quarantined_row.phase ≡ orchestrator_error)
    × (quarantined_row.phase_substate ≡ none)
    × (is_terminal quarantined_row.phase ≡ true)
    × (is_drivable quarantined_row.phase ≡ false)
    × ((worker d : Bool)
        → plan_recovery quarantined_row.phase quarantined_row.phase_substate worker d
          ≡ ok no_action)
quarantine_lem_example =
    quarantine_lem (codes "7") (msg "corrupt") (a_world ab) quarantined_row a_quarantine
      a_quarantined_row

abbrev cleaned_row : IssueRow
cleaned_row = with_phase implementing none 1 (new_issue (codes "7") landing 1)

a_cleaning :
    (Workers.clean_crashed_worker (toy false) no_files (codes "/r") (codes "7") none (a_world ab)).0
    ≡ ok tt
unfolding Workers.clean_crashed_worker emit_recovery get_issue set_phase execute append_event emit
    append in_db in_log mapping_err ◌>>=◌ ◌>>◌
a_cleaning = refl

a_cleaned_row :
    row
      (codes "7")
      (Workers.clean_crashed_worker
        (toy false)
        no_files
        (codes "/r")
        (codes "7")
        none
        (a_world ab)).1.db
    ≡ some cleaned_row
unfolding Workers.clean_crashed_worker emit_recovery get_issue set_phase update_issue find_issue
    text_eq execute append_event emit append in_db in_log mapping_err ◌>>=◌ ◌>>◌
a_cleaned_row = refl

clean_crashed_worker_lem_example :
    (cleaned_row.phase ≡ implementing)
    × (cleaned_row.phase_substate ≡ none)
    × (is_drivable cleaned_row.phase ≡ true)
    × ((d : Bool)
        → plan_recovery cleaned_row.phase cleaned_row.phase_substate false d ≡ ok no_action)
clean_crashed_worker_lem_example =
    clean_crashed_worker_lem (toy false) no_files (codes "/r") (codes "7") none (a_world ab)
      cleaned_row a_cleaning a_cleaned_row
