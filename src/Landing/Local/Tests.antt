-- ===== src/Landing/Local/Tests.antt =====
-- Runs of the local landing machine on a small repository.
use vetinari.Prelude.{◌≡◌, refl, ◌≤◌, false, Text, codes, length, text_eq, some, [], ok}
use vetinari.Prelude.Exec.{◌>>=◌, ◌>>◌, mapping_err, try}
use vetinari.State.Enums.{Phase, rebase_started, substate_enum}
use vetinari.State.Db.{execute}
use vetinari.State.Rows.{IssueRow, new_issue}
use vetinari.State.Issues.{find_issue, update_issue}
use vetinari.State.Issues
use vetinari.State.Issues.Laws.{row}
use vetinari.State.Ledger.{append_event}
use vetinari.State.Tests.{a_db, two_issues}
use vetinari.Events.{emit, append}
use vetinari.World.{World, in_db, in_log, in_ext}
use vetinari.World.Jj.{target_in}
use vetinari.World.Toy.{Repo, toy, toy_laws, toy_target}
use vetinari.Manager.{
  is_ancestor, resolve_change, rebase, bookmark_target, fast_forward_bookmark, guarded_move,
}
use vetinari.Landing.{
  LandingOutcome, merged_outcome, rebase_conflict, awaiting_human_merge_outcome, emit_transition,
}
use vetinari.Landing
use vetinari.Landing.Local.{
  resume_from, retry_land_after_merge, rebase_step, after_rebase, move_step, complete_move,
  merged_step, after_move,
}
use vetinari.Landing.Local.Outcomes.{resume_outcome_phase, settled_phase, settled_substate}
use vetinari.Landing.Local.Safety.{main_only_forward}

abbrev pub a_world : Text → World Repo
a_world at_commit = record {
  db = a_db two_issues [];
  log = record { lines = []; writes = 0; write_fails = λ n. false };
  ext = at_commit;
}

abbrev pub ab : Text
ab = codes "ab"

abbrev abc : Text
abc = codes "abc"

-- `main` is at `ab`; the change `abcdefg` is rebased and lands.
abbrev change : Text
change = codes "abcdefg"

a_landing :
    (resume_from (toy false) (codes "7") change rebase_started (a_world ab)).0 ≡ ok merged_outcome
unfolding resume_from rebase_step is_ancestor resolve_change rebase after_rebase move_step
    complete_move merged_step bookmark_target fast_forward_bookmark guarded_move after_move
    Landing.set_phase emit_transition emit append append_event in_db in_log in_ext Issues.set_phase
    execute mapping_err try ◌>>=◌ ◌>>◌ target_in text_eq update_issue
a_landing = refl

found : row (codes "7") (a_world ab).db ≡ some (new_issue (codes "7") Phase.landing 1)
unfolding find_issue text_eq
found = refl

here : toy_target (codes "main") ab ≡ some ab
unfolding toy_target target_in text_eq
here = refl

resume_outcome_phase_example :
    (r : IssueRow) × (row
        (codes "7")
        (resume_from (toy false) (codes "7") change rebase_started (a_world ab)).1.db
      ≡ some r)
    × (r.phase ≡ settled_phase merged_outcome)
    × (r.phase_substate ≡ settled_substate merged_outcome)
resume_outcome_phase_example =
    resume_outcome_phase (toy false) (codes "7") change rebase_started (a_world ab) merged_outcome
      a_landing (new_issue (codes "7") Phase.landing 1, found)

main_only_forward_example :
    ((t : Text) × (toy_target
          (codes "main")
          (resume_from (toy false) (codes "7") change rebase_started (a_world ab)).1.ext
        ≡ some t)
      × (length ab ≤ length t))
    × ((t : Text) × (toy_target
            (codes "main")
            (retry_land_after_merge (toy false) (codes "7") change (a_world ab)).1.ext
          ≡ some t)
        × (length ab ≤ length t))
main_only_forward_example =
    main_only_forward (toy false) (toy_laws false) (codes "7") change rebase_started (a_world ab) ab
      here
