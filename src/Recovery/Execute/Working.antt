-- ===== src/Recovery/Execute/Working.antt =====
-- What the steps of recovery leave working: `state.db` and the event log, whatever else they do.
use vetinari.Prelude.{ℕ, Bool, true, false, Text, Option, none, some, List, [], ◌∷◌}
use vetinari.Prelude.Int.{ℤ}
use vetinari.Prelude.Exec.{Exec}
use vetinari.Prelude.Exec.Keeps.{Keeps, keeps_rules, Keeps-pure, Keeps-bind}
use vetinari.Prelude.Exec.Succeeds.{Succeeds, Succeeds-pure, Succeeds-mapping_err, Succeeds-then}
use vetinari.Error.{StateError}
use vetinari.State.Db.{StateDb}
use vetinari.State.Enums.{Phase, PhaseSubstate, orchestrator_error}
use vetinari.State.Rows.{ActiveWorkerRow, PostedArtifact}
use vetinari.State.Issues.{get_issue, list_issues, set_phase}
use vetinari.State.Workers.{list_active_workers, remove_worker}
use vetinari.State.Ledger.{Key, is_posted, record_posted}
use vetinari.World.Healthy.{
  Healthy, DbWorks, DbWorks-execute, Healthy-in_ext, healthy_rules, Succeeds-in_db,
  Succeeds-execute, emit-Succeeds,
}
use vetinari.World.Jj.{Jj}
use vetinari.World.Tracker.{CrosslinkRepo, PrOpener, IssueInfo}
use vetinari.Landing.{emit_transition, emit_pr_open, emit_landing}
use vetinari.Landing
use vetinari.Landing.Local.{resume_from}
use vetinari.Landing.Local.Outcomes
use vetinari.Landing.Remote.{RemoteLanding, resume_remote_from}
use vetinari.Landing.Remote.Outcomes as RemoteOutcomes
use vetinari.Names.{WorkspaceName}
use vetinari.Artifacts.Plan.{TranslationItem}
use vetinari.Recovery.Workers.{
  WorkerFiles, state_err, state_step, emit_recovery, forget_if_named, reap, reap_all, reap_if_any,
  revset_of, landing_change_revset,
}
use vetinari.Recovery.Workers
use vetinari.Recovery.Execute.{
  quarantine, close_if_open, complete_close, post_unless, post_items, need,
}

-- Every statement of `state.db` leaves a working database working.
pub set_phase-DbWorks :
    (k : Text) (p : Phase) (s : Option PhaseSubstate) → Keeps DbWorks (set_phase k p s)
unfolding set_phase
set_phase-DbWorks k p s = DbWorks-execute _ _

pub get_issue-DbWorks : (k : Text) → Keeps DbWorks (get_issue k)
unfolding get_issue
get_issue-DbWorks k = DbWorks-execute _ _

pub remove_worker-DbWorks : (k : Text) → Keeps DbWorks (remove_worker k)
unfolding remove_worker
remove_worker-DbWorks k = DbWorks-execute _ _

pub is_posted-DbWorks : (k : Key) → Keeps DbWorks (is_posted k)
unfolding is_posted
is_posted-DbWorks k = DbWorks-execute _ _

pub record_posted-DbWorks : (p : PostedArtifact) → Keeps DbWorks (record_posted p)
unfolding record_posted
record_posted-DbWorks p = DbWorks-execute _ _

pub list_issues-DbWorks : Keeps DbWorks list_issues
unfolding list_issues
list_issues-DbWorks = DbWorks-execute _ _

pub list_active_workers-DbWorks : Keeps DbWorks list_active_workers
unfolding list_active_workers
list_active_workers-DbWorks = DbWorks-execute _ _

pub ruleset db_rules = (
  set_phase-DbWorks, get_issue-DbWorks, remove_worker-DbWorks, is_posted-DbWorks,
  record_posted-DbWorks, list_issues-DbWorks, list_active_workers-DbWorks,
)

set_phase-Succeeds :
    (k : Text) (p : Phase) (s : Option PhaseSubstate) → Succeeds DbWorks (set_phase k p s)
unfolding set_phase
set_phase-Succeeds k p s = Succeeds-execute _ _

pub list_issues-Succeeds : Succeeds DbWorks list_issues
unfolding list_issues
list_issues-Succeeds = Succeeds-execute _ _

pub list_active_workers-Succeeds : Succeeds DbWorks list_active_workers
unfolding list_active_workers
list_active_workers-Succeeds = Succeeds-execute _ _

module _ {X : Type 0} where
  pub listed-Succeeds :
      {A : Type 0} (m : Exec StateError StateDb A)
      → Succeeds DbWorks m
      → Succeeds (Healthy {X = X}) (state_step m)
  listed-Succeeds m s = Succeeds-mapping_err state_err _ (Succeeds-in_db m s)

  pub quarantine-Succeeds : (k reason : Text) → Succeeds (Healthy {X = X}) (quarantine k reason)
  unfolding quarantine
  quarantine-Succeeds k reason =
      Succeeds-then _ _ (listed-Succeeds _ (set_phase-Succeeds k orchestrator_error none))
        (search (keeps_rules, healthy_rules, db_rules))
        (Succeeds-then _ _ (Succeeds-mapping_err state_err _ (emit-Succeeds _ _ _ _))
          (search (keeps_rules, healthy_rules)) (Succeeds-pure tt))

  pub need-Healthy : {A : Type 0} (d : Text) (o : Option A) → Keeps (Healthy {X = X}) (need d o)
  need-Healthy d none = search keeps_rules
  need-Healthy d (some a) = search keeps_rules

  landing_set_phase-Healthy :
      (k : Text) (p : Phase) (s : Option PhaseSubstate)
      → Keeps (Healthy {X = X}) (Landing.set_phase k p s)
  unfolding Landing.set_phase
  landing_set_phase-Healthy k p s = search (keeps_rules, healthy_rules, db_rules)

  emit_transition-Healthy :
      (k : Text) (from to : Phase) (reason : Text)
      → Keeps (Healthy {X = X}) (emit_transition k from to reason)
  unfolding emit_transition emit_landing
  emit_transition-Healthy k from to reason = search (keeps_rules, healthy_rules)

  emit_pr_open-Healthy : (k branch url : Text) → Keeps (Healthy {X = X}) (emit_pr_open k branch url)
  unfolding emit_pr_open emit_landing
  emit_pr_open-Healthy k branch url = search (keeps_rules, healthy_rules)

  emit_recovery-Healthy : (k reason : Text) → Keeps (Healthy {X = X}) (emit_recovery k reason)
  unfolding emit_recovery
  emit_recovery-Healthy k reason = search (keeps_rules, healthy_rules)

  pub quarantine-Healthy : (k reason : Text) → Keeps (Healthy {X = X}) (quarantine k reason)
  unfolding quarantine
  quarantine-Healthy k reason = search (keeps_rules, healthy_rules, db_rules)

  pub resume_from-Healthy :
      (jj : Jj X) (k change : Text) (from : PhaseSubstate)
      → Keeps Healthy (resume_from jj k change from)
  resume_from-Healthy jj k change from =
      Outcomes.resume-Keeps jj k (landing_set_phase-Healthy k) (emit_transition-Healthy k)
        (λ A m. Healthy-in_ext m) change from

  pub resume_remote_from-Healthy :
      (jj : Jj X) (o : PrOpener X) (params : RemoteLanding) (from : PhaseSubstate)
      → Keeps Healthy (resume_remote_from jj o params from)
  resume_remote_from-Healthy jj o params from =
      RemoteOutcomes.resume-Keeps jj o params (landing_set_phase-Healthy params.issue_id)
        (emit_pr_open-Healthy params.issue_id) (λ A m. Healthy-in_ext m) from

module _ {X : Type 0} (jj : Jj X) (files : WorkerFiles X) (root : Text) where
  forgotten-Healthy : (o : Option WorkspaceName) → Keeps Healthy (forget_if_named jj files root o)
  unfolding forget_if_named
  forgotten-Healthy none = search keeps_rules
  forgotten-Healthy (some n) = search (keeps_rules, healthy_rules)

  reap-Healthy : (worker : ActiveWorkerRow) → Keeps Healthy (reap jj files root worker)
  unfolding reap
  reap-Healthy worker = search (keeps_rules, healthy_rules, db_rules, forgotten-Healthy)

  pub reap_all-Healthy : (ws : List ActiveWorkerRow) → Keeps Healthy (reap_all jj files root ws)
  unfolding reap_all
  reap_all-Healthy [] = search keeps_rules
  reap_all-Healthy (w ∷ ws) = search (keeps_rules, reap-Healthy w, reap_all-Healthy ws)

  pub reap_if_any-Healthy :
      (o : Option ActiveWorkerRow) → Keeps Healthy (reap_if_any jj files root o)
  reap_if_any-Healthy none = search keeps_rules
  reap_if_any-Healthy (some w) = reap-Healthy w

  pub clean-Healthy :
      (k : Text) (o : Option ActiveWorkerRow)
      → Keeps Healthy (Workers.clean_crashed_worker jj files root k o)
  unfolding Workers.clean_crashed_worker
  clean-Healthy k o =
      search (keeps_rules, healthy_rules, db_rules, reap_if_any-Healthy, emit_recovery-Healthy)
        depth 9

  revset_of-Healthy : (k : Text) (o : Option Text) → Keeps Healthy (revset_of jj files root k o)
  unfolding revset_of
  revset_of-Healthy k none = search keeps_rules
  revset_of-Healthy k (some c) = search keeps_rules

  pub change_revset-Healthy :
      (k : Text) (n : ℕ) → Keeps Healthy (landing_change_revset jj files root k n)
  unfolding landing_change_revset
  change_revset-Healthy k n = search (keeps_rules, healthy_rules, revset_of-Healthy)

module _ {X : Type 0} (repo : CrosslinkRepo X) where
  close_if_open-Healthy : (i : ℤ) (info : IssueInfo) → Keeps Healthy (close_if_open repo i info)
  unfolding close_if_open
  close_if_open-Healthy i info = search (keeps_rules, healthy_rules) depth 9

  pub complete_close-Healthy : (k : Text) → Keeps Healthy (complete_close repo k)
  unfolding complete_close
  complete_close-Healthy k =
      search (keeps_rules, healthy_rules, need-Healthy, close_if_open-Healthy) depth 9

  post_unless-Healthy :
      (k : Text) (i : ℤ) (u : Text) (t : TranslationItem) (b : Bool)
      → Keeps Healthy (post_unless repo k i u t b)
  unfolding post_unless
  post_unless-Healthy k i u t true = search keeps_rules
  post_unless-Healthy k i u t false = search (keeps_rules, healthy_rules, db_rules) depth 9

  pub post_items-Healthy :
      (k : Text) (i : ℤ) (u : Text) (ts : List TranslationItem)
      → Keeps Healthy (post_items repo k i u ts)
  unfolding post_items
  post_items-Healthy k i u [] = search keeps_rules
  post_items-Healthy k i u (t ∷ ts) =
      Keeps-bind _ _ (search (keeps_rules, healthy_rules, db_rules)) (λ posted.
        Keeps-bind _ _ (post_unless-Healthy k i u t posted)
          (λ n. Keeps-bind _ _ (post_items-Healthy k i u ts) (λ m. Keeps-pure _)))
