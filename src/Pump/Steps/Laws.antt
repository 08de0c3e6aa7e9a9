-- ===== src/Pump/Steps/Laws.antt =====
-- The helpers of the build pump that leave the `issues` table alone, and where `poison` and
-- `transition_issue` put an issue.
use vetinari.Prelude.{ℕ, ◌≡◌, refl, sym, Bool, true, false, Text, Option, none, some, List, [], ◌∷◌}
use vetinari.Prelude.Int.{ℤ}
use vetinari.Prelude.Exec.Keeps.{Keeps, Keeps-bind, Keeps-then, keeps_rules}
use vetinari.Prelude.Exec.Returns.{
  Leads, Leads-then, Leads-pure, Leads-kept, Leads-after, Leads-then_after,
}
use vetinari.State.Enums.{Phase, orchestrator_error, EventKind, WorkerRole}
use vetinari.State.Rows.{IssueRow, ActiveWorkerRow, PostedArtifact, Payload}
use vetinari.State.Workers.{upsert_worker, remove_worker}
use vetinari.State.Workers.Laws.{issues-upsert_worker}
use vetinari.State.Issues.{get_issue, with_phase}
use mathlib.Core.Path.{subst}
use vetinari.State.Ledger.{Key, is_posted, record_posted}
use vetinari.World.{in_db}
use vetinari.Phases.{OnIssues, OnIssues-in_ext, OnIssues-emit}
use vetinari.Phases.RowHas.{RowHas, statement-Keeps, has-set_phase_lem}
use vetinari.Names.{WorkspaceName}
use vetinari.Artifacts.Done.{DoneSentinel}
use vetinari.Artifacts.Plan.{TranslationItem}
use vetinari.Pump.Gate.{orchestrator_error_issue}
use vetinari.Pump.Gate.Laws.{label-Keeps}
use vetinari.Pump.Site.{Site}
use vetinari.Pump.Steps.{
  note, fresh_uuid, close, forget_quietly, forget_any, label_issue, transition_issue, poison,
  register_worker, unregister_worker, change_revset, verify_done, rehydrate_prior_findings,
  post_item, post_plan, propose, translate_artifacts,
}

module _ {X : Type 0} {P : List IssueRow → Type 0} where
  pub get-Keeps : (k : Text) → Keeps (OnIssues {X = X} P) (in_db (get_issue k))
  unfolding get_issue
  get-Keeps k = statement-Keeps _ _ (λ now t. refl)

  pub is_posted-Keeps : (k : Key) → Keeps (OnIssues {X = X} P) (in_db (is_posted k))
  unfolding is_posted
  is_posted-Keeps k = statement-Keeps _ _ (λ now t. refl)

  pub record_posted-Keeps :
      (p : PostedArtifact) → Keeps (OnIssues {X = X} P) (in_db (record_posted p))
  unfolding record_posted
  record_posted-Keeps p = statement-Keeps _ _ (λ now t. refl)

  pub remove_worker-Keeps : (u : Text) → Keeps (OnIssues {X = X} P) (in_db (remove_worker u))
  unfolding remove_worker
  remove_worker-Keeps u = statement-Keeps _ _ (λ now t. refl)

  pub note-Keeps :
      (kind : EventKind) (k : Text) (u : Option Text) (p : Payload)
      → Keeps (OnIssues {X = X} P) (note kind k u p)
  unfolding note
  note-Keeps kind k u p = search (keeps_rules, OnIssues-emit)

  pub upsert_worker-Keeps :
      (r : ActiveWorkerRow) → Keeps (OnIssues {X = X} P) (in_db (upsert_worker r))
  unfolding in_db
  upsert_worker-Keeps r = record {
    at = λ w h. record { holds = subst P (sym (issues-upsert_worker r w.db)) h.holds };
  }

pub ruleset table_rules = (
  keeps_rules, OnIssues-in_ext, get-Keeps, is_posted-Keeps, record_posted-Keeps,
  remove_worker-Keeps, upsert_worker-Keeps, note-Keeps,
)

module _ {X : Type 0} {P : List IssueRow → Type 0} (site : Site X) where
  pub fresh-Keeps : Keeps (OnIssues {X = X} P) (fresh_uuid site)
  unfolding fresh_uuid
  fresh-Keeps = search table_rules

  pub close-Keeps : (pane : Text) → Keeps (OnIssues {X = X} P) (close site pane)
  unfolding close
  close-Keeps pane = search table_rules

  pub forget-Keeps : (name : WorkspaceName) → Keeps (OnIssues {X = X} P) (forget_quietly site name)
  unfolding forget_quietly
  forget-Keeps name = search table_rules

  forget_any-Keeps :
      (name : Option WorkspaceName) → Keeps (OnIssues {X = X} P) (forget_any site name)
  unfolding forget_any
  forget_any-Keeps none = search table_rules
  forget_any-Keeps (some name) = forget-Keeps name

  label_issue-Keeps :
      (id : Option ℤ) (p : Phase) → Keeps (OnIssues {X = X} P) (label_issue site id p)
  unfolding label_issue
  label_issue-Keeps none p = search table_rules
  label_issue-Keeps (some id) p = label-Keeps site.repo id p

  pub register-Keeps :
      (k u : Text) (role : WorkerRole) (n : ℕ) (path : Text)
      → Keeps (OnIssues {X = X} P) (register_worker site k u role n path)
  unfolding register_worker
  register-Keeps k u role n path = search table_rules depth 9

  pub unregister-Keeps : (u : Text) → Keeps (OnIssues {X = X} P) (unregister_worker site u)
  unfolding unregister_worker
  unregister-Keeps u = search table_rules

  pub change-Keeps :
      (name : WorkspaceName) (i : ℤ) → Keeps (OnIssues {X = X} P) (change_revset site name i)
  unfolding change_revset
  change-Keeps name i = search table_rules depth 9

  pub verify-Keeps : (path : Text) → Keeps (OnIssues {X = X} P) (verify_done site path)
  unfolding verify_done
  verify-Keeps path = search table_rules

  pub rehydrate-Keeps : (i : ℤ) → Keeps (OnIssues {X = X} P) (rehydrate_prior_findings site i)
  unfolding rehydrate_prior_findings
  rehydrate-Keeps i = search table_rules depth 9

  post_item-Keeps :
      (i : ℤ) (u tag : Text) (item : TranslationItem) (b : Bool)
      → Keeps (OnIssues {X = X} P) (post_item site i u tag item b)
  unfolding post_item
  post_item-Keeps i u tag item true = search table_rules
  post_item-Keeps i u tag item false = search table_rules depth 12

  post_plan-Keeps :
      (i : ℤ) (u tag : Text) (b : Bool) (items : List TranslationItem)
      → Keeps (OnIssues {X = X} P) (post_plan site i u tag b items)
  unfolding post_plan
  post_plan-Keeps i u tag b [] = search table_rules
  post_plan-Keeps i u tag b (item ∷ items) = Keeps-bind _ _ (search table_rules) (λ posted.
      Keeps-then _ _ (post_item-Keeps i u tag item posted) (post_plan-Keeps i u tag _ items))

  propose-Keeps : (i : ℤ) (b : Bool) → Keeps (OnIssues {X = X} P) (propose site i b)
  unfolding propose
  propose-Keeps i true = search table_rules
  propose-Keeps i false = search table_rules

  pub translate-Keeps :
      (i : ℤ) (u tag : Text) (done : DoneSentinel)
      → Keeps (OnIssues {X = X} P) (translate_artifacts site i u tag done)
  unfolding translate_artifacts
  translate-Keeps i u tag done = search (table_rules, post_plan-Keeps, propose-Keeps) depth 9

-- The rules for the helpers that leave the `issues` table alone
pub ruleset pump_rules = (
  table_rules, label-Keeps, fresh-Keeps, close-Keeps, forget-Keeps, register-Keeps,
  unregister-Keeps, change-Keeps, verify-Keeps, rehydrate-Keeps, translate-Keeps,
)

-- The row stands at this phase with no substate.
abbrev pub StandsAt : Phase → IssueRow → Type 0
StandsAt p r = (r.phase ≡ p) × (r.phase_substate ≡ none)

abbrev pub AnyRow : IssueRow → Type 0
AnyRow r = Unit

module _ {X : Type 0} (site : Site X) (k : Text) (P : IssueRow → Type 0) where
  pub poison-Leads :
      (name : Option WorkspaceName) (reason : Text)
      → Leads
          (RowHas k P)
          (λ o w. (o ≡ orchestrator_error_issue) × RowHas k (StandsAt orchestrator_error) w)
          (poison site k name reason)
  unfolding poison
  poison-Leads name reason = Leads-then_after _ _ (forget_any-Keeps site name) (
      Leads-after _ _ (search table_rules) (λ row.
        Leads-then _ _
          (has-set_phase_lem k P (StandsAt orchestrator_error) orchestrator_error none
            (λ now r h. (refl, refl)))
          (λ u. Leads-then_after _ _ (label_issue-Keeps site _ _) (
            Leads-then_after _ _ (search table_rules)
              (Leads-pure orchestrator_error_issue (λ w h. (refl, h)))))))

module _ {X : Type 0} (site : Site X) (k : Text) (P Q : IssueRow → Type 0) where
  pub transition-Leads :
      (from to : Phase) (reason : Text)
      → ((now : ℕ) (r : IssueRow) → P r → Q (with_phase to none now r))
      → Leads (RowHas k P) (λ u w. RowHas k Q w) (transition_issue site k from to reason)
  unfolding transition_issue
  transition-Leads from to reason step =
      Leads-then _ _ (has-set_phase_lem k P Q to none step)
        (λ u. Leads-then_after _ _ (label_issue-Keeps site _ _) (Leads-kept _ (search table_rules)))
