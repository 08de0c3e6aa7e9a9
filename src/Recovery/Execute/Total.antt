-- ===== src/Recovery/Execute/Total.antt =====
-- One issue that cannot be recovered never stops the pass.
use vetinari.Prelude.{◌≡◌, not, ◌&&◌, Text, Option, none, some, List, [], ◌∷◌, Result, ok, err}
use vetinari.Prelude.Int.{ℤ}
use vetinari.Prelude.Exec.Keeps.{
  Keeps, keeps_rules, Keeps-try, Keeps-pure, Keeps-bind, Keeps-then, Keeps-if,
}
use vetinari.Prelude.Exec.Succeeds.{
  Succeeds, Succeeds-pure, Succeeds-try, Succeeds-bind, Succeeds-then, Succeeds-if,
}
use vetinari.Error.{RecoveryError}
use vetinari.State.Enums.{PhaseSubstate, merging, bookmark_moved_complete, is_terminal}
use vetinari.State.Rows.{ActiveWorkerRow, IssueRow}
use vetinari.State.Issues.{list_issues}
use vetinari.State.Workers.{list_active_workers}
use vetinari.World.{World}
use vetinari.World.Healthy.{Healthy, healthy_rules}
use vetinari.World.Jj.{Jj}
use vetinari.World.Tracker.{CrosslinkRepo, PrOpener}
use vetinari.Landing.Local.{land_local}
use vetinari.Recovery.Plan.{
  RecoveryPlan, no_action, clean_crashed_worker, replay_done_then_redrive, resume_landing,
  resume_remote_landing, start_landing, complete_answer_close, carries_answer_substate,
}
use vetinari.Recovery.Workers.{WorkerFiles}
use vetinari.Recovery.Execute.{
  RecoveryAction, replay_into, replay_done, resume_remote, change_of, resume_local, reap_merger,
  close_with, carry_out, recover_with_workers, recover_issue, settle, recover_issues, recover_with,
}
use vetinari.Recovery.Execute.Working.{
  db_rules, list_issues-Succeeds, list_active_workers-Succeeds, listed-Succeeds,
  quarantine-Succeeds, need-Healthy, quarantine-Healthy, resume_from-Healthy,
  resume_remote_from-Healthy, reap_all-Healthy, reap_if_any-Healthy, clean-Healthy,
  change_revset-Healthy, complete_close-Healthy, post_items-Healthy,
}

module _ {X : Type 0} (jj : Jj X) (files : WorkerFiles X) (root : Text)
    (repo : Option (CrosslinkRepo X)) (opener : Option (PrOpener X)) where
  replay_into-Healthy :
      (k : Text) (w : ActiveWorkerRow) (c : Option (CrosslinkRepo X)) (i : Option ℤ)
      → Keeps Healthy (replay_into jj files root repo opener k w c i)
  unfolding replay_into
  replay_into-Healthy k w none i = search keeps_rules
  replay_into-Healthy k w (some c) none = search keeps_rules
  replay_into-Healthy k w (some c) (some i) =
      search (keeps_rules, healthy_rules, need-Healthy, post_items-Healthy) depth 9

  replay_done-Healthy :
      (k : Text) (w : ActiveWorkerRow) → Keeps Healthy (replay_done jj files root repo opener k w)
  unfolding replay_done
  replay_done-Healthy k w = replay_into-Healthy k w repo _

  resume_remote-Healthy :
      (issue : IssueRow) (s : PhaseSubstate)
      → Keeps Healthy (resume_remote jj files root repo opener issue s)
  unfolding resume_remote
  resume_remote-Healthy issue s =
      search (keeps_rules, healthy_rules, need-Healthy, resume_remote_from-Healthy) depth 16

  change_of-Healthy :
      (issue : IssueRow) (o : Option Text)
      → Keeps Healthy (change_of jj files root repo opener issue o)
  unfolding change_of
  change_of-Healthy issue none = change_revset-Healthy jj files root _ _
  change_of-Healthy issue (some c) = search keeps_rules

  resume_local-Healthy :
      (issue : IssueRow) (s : PhaseSubstate)
      → Keeps Healthy (resume_local jj files root repo opener issue s)
  unfolding resume_local
  resume_local-Healthy issue merging = search (keeps_rules, resume_from-Healthy)
  resume_local-Healthy issue bookmark_moved_complete = search (keeps_rules, resume_from-Healthy)
  resume_local-Healthy issue s =
      Keeps-bind _ _ (change_of-Healthy issue issue.landing_change)
        (λ c. search (keeps_rules, resume_from-Healthy))

  reap_merger-Healthy :
      (s : PhaseSubstate) (o : Option ActiveWorkerRow)
      → Keeps Healthy (reap_merger jj files root repo opener s o)
  unfolding reap_merger
  reap_merger-Healthy merging o = reap_if_any-Healthy jj files root o
  reap_merger-Healthy s o = search keeps_rules

  close_with-Healthy :
      (k : Text) (c : Option (CrosslinkRepo X))
      → Keeps Healthy (close_with jj files root repo opener k c)
  unfolding close_with
  close_with-Healthy k none = search keeps_rules
  close_with-Healthy k (some c) = search (keeps_rules, complete_close-Healthy)

  carry_out-Healthy :
      (issue : IssueRow) (o : Option ActiveWorkerRow) (plan : RecoveryPlan)
      → Keeps Healthy (carry_out jj files root repo opener issue o plan)
  unfolding carry_out land_local
  carry_out-Healthy issue o no_action = search keeps_rules
  carry_out-Healthy issue o clean_crashed_worker = search (keeps_rules, clean-Healthy)
  carry_out-Healthy issue o replay_done_then_redrive =
      search (keeps_rules, need-Healthy, replay_done-Healthy, clean-Healthy) depth 9
  carry_out-Healthy issue o (resume_landing s) =
      Keeps-then _ _ (reap_merger-Healthy s o)
        (Keeps-bind _ _ (resume_local-Healthy issue s) (λ x. Keeps-pure _))
  carry_out-Healthy issue o (resume_remote_landing s) = search (keeps_rules, resume_remote-Healthy)
  carry_out-Healthy issue o start_landing =
      search (keeps_rules, change_revset-Healthy, resume_from-Healthy) depth 9
  carry_out-Healthy issue o complete_answer_close = close_with-Healthy issue.issue_id repo

  with_workers-Healthy :
      (issue : IssueRow) (ws : List ActiveWorkerRow)
      → Keeps Healthy (recover_with_workers jj files root repo opener issue ws)
  unfolding recover_with_workers
  with_workers-Healthy issue ws = search (keeps_rules, carry_out-Healthy, reap_all-Healthy) depth 9

  recover_issue-Healthy :
      (ws : List ActiveWorkerRow) (issue : IssueRow)
      → Keeps Healthy (recover_issue jj files root repo opener ws issue)
  unfolding recover_issue
  recover_issue-Healthy ws issue = with_workers-Healthy issue _

  settle-Healthy :
      (issue : IssueRow) (r : Result RecoveryError (List RecoveryAction))
      → Keeps Healthy (settle jj files root repo opener issue r)
  unfolding settle
  settle-Healthy issue (ok actions) = search keeps_rules
  settle-Healthy issue (err e) = search (keeps_rules, quarantine-Healthy)

  settle-Succeeds :
      (issue : IssueRow) (r : Result RecoveryError (List RecoveryAction))
      → Succeeds Healthy (settle jj files root repo opener issue r)
  unfolding settle
  settle-Succeeds issue (ok actions) = Succeeds-pure actions
  settle-Succeeds issue (err e) =
      Succeeds-then _ _ (quarantine-Succeeds issue.issue_id _) (quarantine-Healthy issue.issue_id _)
        (Succeeds-pure _)

  recover_issues-Healthy :
      (ws : List ActiveWorkerRow) (issues : List IssueRow)
      → Keeps Healthy (recover_issues jj files root repo opener ws issues)
  unfolding recover_issues
  recover_issues-Healthy ws [] = search keeps_rules
  recover_issues-Healthy ws (issue ∷ issues) =
      Keeps-if (is_terminal issue.phase && not (carries_answer_substate issue)) _ _
        (recover_issues-Healthy ws issues)
        (Keeps-bind _ _ (Keeps-try _ (recover_issue-Healthy ws issue)) (λ r.
          Keeps-bind _ _ (settle-Healthy issue r)
            (λ a. Keeps-bind _ _ (recover_issues-Healthy ws issues) (λ rest. Keeps-pure _))))

  recover_issues-Succeeds :
      (ws : List ActiveWorkerRow) (issues : List IssueRow)
      → Succeeds Healthy (recover_issues jj files root repo opener ws issues)
  unfolding recover_issues
  recover_issues-Succeeds ws [] = Succeeds-pure []
  recover_issues-Succeeds ws (issue ∷ issues) =
      Succeeds-if (is_terminal issue.phase && not (carries_answer_substate issue)) _ _
        (recover_issues-Succeeds ws issues)
        (Succeeds-bind _ _ (Succeeds-try _) (Keeps-try _ (recover_issue-Healthy ws issue)) (λ r.
          Succeeds-bind _ _ (settle-Succeeds issue r) (settle-Healthy issue r) (λ a.
            Succeeds-bind _ _ (recover_issues-Succeeds ws issues) (recover_issues-Healthy ws issues)
              (λ rest. Succeeds-pure _))))

  -- While every statement on `state.db`, read or write, and every write to the event log works, a
  -- recovery pass always returns, whatever state the issues are in and whatever jj, crosslink, GitHub
  -- and the files of the workers answer: no issue that cannot be recovered stops the pass.
  pub recover_with-Succeeds :
      (w : World X)
      → Healthy w
      → (actions : List RecoveryAction) × ((recover_with jj files root repo opener w).0
          ≡ ok actions)
  unfolding recover_with
  recover_with-Succeeds w healthy =
      (Succeeds-bind _ _ (listed-Succeeds list_issues list_issues-Succeeds)
          (search (keeps_rules, healthy_rules, db_rules))
          (λ issues.
            Succeeds-bind _ _ (listed-Succeeds list_active_workers list_active_workers-Succeeds)
              (search (keeps_rules, healthy_rules, db_rules))
              (λ ws. recover_issues-Succeeds ws issues))).returns
        w healthy
