-- ===== src/Landing/Remote/Tests.antt =====
-- Runs of the remote landing machine on a small repository.
use vetinari.Prelude.{◌≡◌, refl, codes, text_eq, some, false, ok}
use vetinari.Prelude.Exec.{◌>>=◌, ◌>>◌, mapping_err, try}
use vetinari.State.Enums.{Phase, push_done_pr_pending}
use vetinari.State.Db.{execute}
use vetinari.State.Rows.{IssueRow, new_issue}
use vetinari.State.Issues.{find_issue, update_issue}
use vetinari.State.Issues
use vetinari.State.Issues.Laws.{row}
use vetinari.State.Ledger.{append_event}
use vetinari.Events.{emit, append}
use vetinari.World.{in_db, in_log, in_ext}
use vetinari.World.Toy.{Repo, toy}
use vetinari.World.Tracker.{PrOpener}
use vetinari.Manager.{forget_bookmark}
use vetinari.Landing.{pr_open_outcome, emit_pr_open}
use vetinari.Landing
use vetinari.Landing.Others.{machines_other_issues}
use vetinari.Landing.Local.{resume_from, retry_land_after_merge}
use vetinari.Landing.Local.Outcomes.{settled_phase, settled_substate}
use vetinari.Landing.Local.Tests.{a_world, ab}
use vetinari.Landing.Remote.{
  RemoteLanding, resume_remote_from, pr_step, adopt_or_open, complete_pr_open,
}
use vetinari.Landing.Remote.Outcomes.{remote_outcome_phase}

abbrev an_opener : PrOpener Repo
an_opener = record {
  open_pr = λ r x. (ok (codes "new"), x);
  find_open_pr = λ b x. (ok (some (codes "open")), x);
}

abbrev params : RemoteLanding
params = record {
  issue_id = codes "7";
  change_revset = codes "abc";
  remote = codes "origin";
  branch = codes "vdd/7-x";
  base = codes "main";
  title = codes "x";
  body = codes "x";
}

-- The pull request that is there already is adopted.
an_adoption :
    (resume_remote_from (toy false) an_opener params push_done_pr_pending (a_world ab)).0
    ≡ ok (pr_open_outcome (codes "open"))
unfolding resume_remote_from pr_step adopt_or_open complete_pr_open forget_bookmark
    Landing.set_phase emit_pr_open emit append append_event in_db in_log in_ext Issues.set_phase
    execute mapping_err try ◌>>=◌ ◌>>◌
an_adoption = refl

found : row params.issue_id (a_world ab).db ≡ some (new_issue (codes "7") Phase.landing 1)
unfolding find_issue text_eq
found = refl

remote_outcome_phase_example :
    (r : IssueRow) × (row params.issue_id
        (resume_remote_from (toy false) an_opener params push_done_pr_pending (a_world ab)).1.db
      ≡ some r)
    × (r.phase ≡ settled_phase (pr_open_outcome (codes "open")))
    × (r.phase_substate ≡ settled_substate (pr_open_outcome (codes "open")))
remote_outcome_phase_example =
    remote_outcome_phase (toy false) an_opener params push_done_pr_pending (a_world ab)
      (pr_open_outcome (codes "open")) an_adoption (new_issue (codes "7") Phase.landing 1, found)

other : text_eq params.issue_id (codes "8") ≡ false
unfolding text_eq
other = refl

machines_other_issues_example :
    (row
        (codes "8")
        (resume_from
          (toy false)
          params.issue_id
          (codes "abc")
          push_done_pr_pending
          (a_world ab)).1.db
      ≡ row (codes "8") (a_world ab).db)
    × (row (codes "8") (retry_land_after_merge (toy false) params.issue_id ab (a_world ab)).1.db
        ≡ row (codes "8") (a_world ab).db)
    × (row
          (codes "8")
          (resume_remote_from (toy false) an_opener params push_done_pr_pending (a_world ab)).1.db
        ≡ row (codes "8") (a_world ab).db)
machines_other_issues_example =
    machines_other_issues (toy false) an_opener params (codes "abc") ab (codes "8")
      push_done_pr_pending (a_world ab) other
