-- ===== src/Pump/Drive/Tests.antt =====
-- An issue whose worker exceeds its timeout: the drive ends, and the issue is poisoned.
use vetinari.Prelude.{
  ◌≡◌, ◌≤◌, ◌⊎◌, refl, true, false, Text, codes, none, some, [], ok, err, Option, arith, text_eq,
}
use vetinari.Prelude.Int.{ℤ, pos, show_i64, show_nat, parse_i64}
use vetinari.Prelude.{strip_prefix, starts_with}
use vetinari.State.Workers.{upsert_worker, remove_worker}
use vetinari.State.Ledger.{append_event}
use vetinari.Events.{emit, append}
use vetinari.Names.{from_parts, rendered}
use vetinari.Recovery.Workers.{forget}
use vetinari.Pump.Labels.{set_phase_label, remove_stale}
use vetinari.Pump.Steps.{
  current_round, poison, transition_issue, label_issue, rehydrate_prior_findings, prior_findings_in,
  fresh_uuid, register_worker, note, close, unregister_worker,
}
use vetinari.Pump.Implement.{run_implementer_round, reset_streak, on_exit}
use vetinari.Pump.Drive.{drive_loop, after_implement}
use vetinari.Prelude.Exec.{Exec, mapping_err, try, ◌>>=◌, ◌>>◌}
use vetinari.Error.{PumpError, crosslink}
use vetinari.Prelude.{Bool, leb, ◌&&◌, ap, if◌then◌else◌}
use vetinari.Pump.Land
use vetinari.Pump.Review.Converged.{drive_lands_converged}
use vetinari.State.Enums.{as_str, phase_enum, graphed, converged}
use vetinari.State.Rows.{IssueRow}
use vetinari.State.Db.{execute}
use vetinari.State.Issues.{get_issue, set_phase, find_issue, update_issue}
use vetinari.State.Issues.Laws.{row}
use vetinari.Phases.{IsKnown}
use vetinari.World.{World, in_db, in_log, in_ext}
use vetinari.World.Toy.{Repo}
use vetinari.Pump.Gate.{IssueOutcome, orchestrator_error_issue}
use vetinari.Pump.Outcomes.{outcome_phase}
use vetinari.Pump.Sites.{a_site, world_of, a_row}
use vetinari.Pump.Drive.{drive_issue, drive_issue_with}
use vetinari.Pump.Drive.Laws.{drive_issue-Terminates, drive_outcome_phase}

abbrev before : World Repo
before = world_of (a_row graphed)

known : IsKnown (show_i64 (pos 7)) before.db.tables.issues
unfolding find_issue show_i64 show_nat text_eq
known = (a_row graphed, refl)

poisoned : (drive_issue (a_site false []) 6 (pos 7) before).0 ≡ ok (some orchestrator_error_issue)
unfolding drive_issue drive_issue_with drive_loop after_implement run_implementer_round reset_streak
    current_round on_exit poison transition_issue set_phase_label remove_stale label_issue
    rehydrate_prior_findings prior_findings_in fresh_uuid register_worker note close
    unregister_worker get_issue set_phase find_issue update_issue upsert_worker remove_worker emit
    append append_event execute starts_with strip_prefix text_eq show_i64 show_nat parse_i64 forget
    from_parts rendered in_db in_log in_ext mapping_err try ◌>>=◌ ◌>>◌
poisoned = refl

drive_issue-Terminates_example :
    ((outcome : IssueOutcome) × ((drive_issue (a_site false []) 6 (pos 7) before).0
        ≡ ok (some outcome)))
    ⊎ ((e : PumpError) × ((drive_issue (a_site false []) 6 (pos 7) before).0 ≡ err e))
drive_issue-Terminates_example =
    drive_issue-Terminates (a_site false []) 6 (pos 7) before (omega arith) known

drive_outcome_phase_example :
    (r : IssueRow) × (row (show_i64 (pos 7)) (drive_issue (a_site false []) 6 (pos 7) before).1.db
      ≡ some r)
    × (r.phase ≡ outcome_phase orchestrator_error_issue)
    × (r.phase_substate ≡ none)
drive_outcome_phase_example =
    drive_outcome_phase (a_site false []) 6 (pos 7) before orchestrator_error_issue (omega arith)
      known poisoned

-- A landing that fails for an issue which has not converged
abbrev is_ready : Option IssueRow → Bool
is_ready none = false
is_ready (some r) = text_eq (as_str r.phase) (as_str converged) && leb 2 r.empty_round_streak

abbrev only_converged : ℤ → Text → Text → Exec PumpError (World Repo) IssueOutcome
only_converged i k change w =
    if is_ready (row k w.db)
    then Land.land (a_site false []) i k change w
    else (err (crosslink []), w)

ready_lem :
    (o : Option IssueRow) (r : IssueRow)
    → o ≡ some r
    → r.phase ≡ converged
    → 2 ≤ r.empty_round_streak
    → is_ready o ≡ true
unfolding text_eq
ready_lem o r found at streak =
    rw found (ground (arith, ap (λ p. text_eq (as_str p) (as_str converged)) at))

if_lem : {A : Type 0} (b : Bool) (x y : A) → b ≡ true → x ≡ (if b then x else y)
if_lem b x y h = rw h refl

converged_ready :
    (change : Text) (v : World Repo) (r : IssueRow)
    → row (codes "7") v.db ≡ some r
    → r.phase ≡ converged
    → 2 ≤ r.empty_round_streak
    → Land.land (a_site false []) (pos 7) (codes "7") change v
      ≡ only_converged (pos 7) (codes "7") change v
converged_ready change v r found at streak =
    if_lem (is_ready (row (codes "7") v.db)) _ _ (ready_lem _ r found at streak)

drive_lands_converged_example :
    drive_issue (a_site false []) 6 (pos 7) before
    ≡ drive_issue_with (a_site false []) only_converged 6 (pos 7) before
unfolding show_i64 show_nat
drive_lands_converged_example =
    drive_lands_converged (a_site false []) only_converged 6 (pos 7) before known converged_ready
