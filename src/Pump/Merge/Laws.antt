-- ===== src/Pump/Merge/Laws.antt =====
-- Where the resolution of a conflict leaves its issue.
use vetinari.Prelude.{◌≡◌, refl, Bool, true, false, Text, Option, none, some, List, Result, ok, err}
use vetinari.Prelude.Int.{ℤ}
use vetinari.Prelude.Exec.{mapping_err}
use vetinari.Prelude.Exec.Keeps.{Keeps}
use vetinari.Prelude.Exec.Returns.{
  Leads, Leads-bind, Leads-then, Leads-pure, Leads-if, Leads-after, Leads-then_after, Leads-weaken,
  Leads-mapping_err, Leads-attempt,
}
use vetinari.Error.{PumpError, landing_failed}
use vetinari.State.Enums.{Phase}
use vetinari.State.Rows.{IssueRow}
use vetinari.Phases.{OnIssues}
use vetinari.Phases.RowHas.{RowHas, Leads-get, Got-RowHas, has-set_phase_lem}
use vetinari.Names.{WorkspaceName}
use vetinari.Artifacts.{ArtifactError}
use vetinari.Artifacts.Done.{DoneSentinel}
use vetinari.Landing.{
  LandingOutcome, merged_outcome, pr_open_outcome, rebase_conflict, awaiting_human_merge_outcome,
}
use vetinari.Landing.Local.{retry_land_after_merge}
use vetinari.Landing.Local.Outcomes.{settled_phase, settled_substate, retry_phase}
use vetinari.Pump.Gate.{merged_issue, awaiting_human_merge_issue}
use vetinari.Pump.Site.{Site, SpawnOutcome, exited, still_running, QaOutcome, qa_pass, qa_fail}
use vetinari.Pump.Steps.{current_round}
use vetinari.Pump.Steps.Laws.{pump_rules, StandsAt, AnyRow}
use vetinari.Pump.Outcomes.{Ended, store-Leads}
use vetinari.Pump.Merge.{
  post_conflict_blocker, park_for_human, merge_failed, on_retry, retry_landing, on_merged_qa,
  on_resolved, on_merger_done, on_merger_exit, target_or_forget, on_conflict_render, run_merger,
  resolve_conflict_with_merger,
}

-- The row that an outcome of the landing machines leaves
abbrev pub SettledRow : LandingOutcome → IssueRow → Type 0
SettledRow o r = (r.phase ≡ settled_phase o) × (r.phase_substate ≡ settled_substate o)

module _ {X : Type 0} (site : Site X) (i : ℤ) (k : Text) where
  pub blocker-Keeps :
      {P : List IssueRow → Type 0} (reason : Text)
      → Keeps (OnIssues P) (post_conflict_blocker site i k reason)
  unfolding post_conflict_blocker
  blocker-Keeps reason = search pump_rules

  pub park-Ended :
      (P : IssueRow → Type 0) (reason : Text)
      → Leads (RowHas k P) (λ o w. Ended k o w) (park_for_human site i k reason)
  unfolding park_for_human
  park-Ended P reason =
      Leads-then _ _
        (has-set_phase_lem k P (StandsAt Phase.awaiting_human_merge) Phase.awaiting_human_merge none
          (λ now r h. (refl, refl)))
        (λ u. Leads-then_after _ _ (search pump_rules) (
          Leads-then_after _ _ (search pump_rules) (
            Leads-then_after _ _ (blocker-Keeps _)
              (Leads-pure awaiting_human_merge_issue (λ w h. h)))))

  failed-Ended :
      (P : IssueRow → Type 0) (name : WorkspaceName) (reason : Text)
      → Leads (RowHas k P) (λ o w. Ended k o w) (merge_failed site i k name reason)
  unfolding merge_failed
  failed-Ended P name reason = Leads-then_after _ _ (search pump_rules) (park-Ended P reason)

  retry-Leads :
      (P : IssueRow → Type 0) (merged : Text)
      → Leads
          (RowHas k P)
          (λ o w. RowHas k (SettledRow o) w)
          (mapping_err landing_failed (retry_land_after_merge site.jj k merged))
  retry-Leads P merged = Leads-mapping_err landing_failed _ (record {
    at = λ w h o e.
        let (r, there, p, s) = retry_phase site.jj k merged w o e (h.holds.0, h.holds.1) in
        record { holds = (r, there, (p, s)) };
  })

  on_retry-Ended :
      (name : WorkspaceName) (o : LandingOutcome)
      → Leads (RowHas k (SettledRow o)) (λ x w. Ended k x w) (on_retry site i k name o)
  unfolding on_retry
  on_retry-Ended name merged_outcome =
      Leads-then_after _ _ (search pump_rules)
        (Leads-then_after _ _ (search pump_rules) (Leads-pure merged_issue (λ w h. h)))
  on_retry-Ended name awaiting_human_merge_outcome = Leads-then_after _ _ (search pump_rules) (
      Leads-then_after _ _ (blocker-Keeps _) (
        Leads-then_after _ _ (search pump_rules)
          (Leads-pure awaiting_human_merge_issue (λ w h. h))))
  on_retry-Ended name (rebase_conflict c) =
      Leads-attempt _ _ (park-Ended (SettledRow (rebase_conflict c)) _) (λ x. search pump_rules)
  on_retry-Ended name (pr_open_outcome url) =
      Leads-attempt _ _ (park-Ended (SettledRow (pr_open_outcome url)) _) (λ x. search pump_rules)

  retry-Ended :
      (P : IssueRow → Type 0) (name : WorkspaceName) (merged : Text)
      → Leads (RowHas k P) (λ x w. Ended k x w) (retry_landing site i k name merged)
  unfolding retry_landing
  retry-Ended P name merged = Leads-bind _ _ (retry-Leads P merged) (λ o. on_retry-Ended name o)

  qa-Ended :
      (P : IssueRow → Type 0) (name : WorkspaceName) (merged : Text) (r : Result Text QaOutcome)
      → Leads (RowHas k P) (λ x w. Ended k x w) (on_merged_qa site i k name merged r)
  unfolding on_merged_qa
  qa-Ended P name merged (ok qa_pass) =
      Leads-then_after _ _ (search pump_rules) (retry-Ended P name merged)
  qa-Ended P name merged (ok (qa_fail code tail)) = failed-Ended P name _
  qa-Ended P name merged (err e) = failed-Ended P name _

  resolved-Ended :
      (P : IssueRow → Type 0) (name : WorkspaceName) (path merged : Text) (b : Bool)
      → Leads (RowHas k P) (λ x w. Ended k x w) (on_resolved site i k name path merged b)
  unfolding on_resolved
  resolved-Ended P name path merged true = failed-Ended P name _
  resolved-Ended P name path merged false =
      Leads-after _ _ (search pump_rules) (λ qa. qa-Ended P name merged qa)

  done-Ended :
      (P : IssueRow → Type 0) (name : WorkspaceName) (path u : Text)
      (d : Result ArtifactError DoneSentinel)
      → Leads (RowHas k P) (λ x w. Ended k x w) (on_merger_done site i k name path u d)
  unfolding on_merger_done
  done-Ended P name path u (err e) =
      Leads-then_after _ _ (search pump_rules) (failed-Ended P name _)
  done-Ended P name path u (ok d) = Leads-then_after _ _ (search pump_rules) (
      Leads-after _ _ (search pump_rules) (λ snapshot.
        Leads-after _ _ (search pump_rules) (λ merged.
          Leads-after _ _ (search pump_rules) (λ c. resolved-Ended P name path merged _))))

  exit-Ended :
      (P : IssueRow → Type 0) (name : WorkspaceName) (path u pane : Text) (o : SpawnOutcome)
      → Leads (RowHas k P) (λ x w. Ended k x w) (on_merger_exit site i k name path u pane o)
  unfolding on_merger_exit
  exit-Ended P name path u pane still_running =
      Leads-then_after _ _ (search pump_rules)
        (Leads-then_after _ _ (search pump_rules) (failed-Ended P name _))
  exit-Ended P name path u pane exited =
      Leads-then_after _ _ (search pump_rules)
        (Leads-after _ _ (search pump_rules) (λ d. done-Ended P name path u d))

  pub target-Keeps :
      {P : List IssueRow → Type 0} (name : WorkspaceName) (o : Option Text)
      → Keeps (OnIssues P) (target_or_forget site i k name o)
  unfolding target_or_forget
  target-Keeps name (some c) = search pump_rules
  target-Keeps name none = search pump_rules

  pub render-Keeps :
      {P : List IssueRow → Type 0} (name : WorkspaceName) (r : Result PumpError (Unit {0}))
      → Keeps (OnIssues P) (on_conflict_render site i k name r)
  unfolding on_conflict_render
  render-Keeps name (ok u) = search pump_rules
  render-Keeps name (err e) = search pump_rules

  pub round-Keeps : {P : List IssueRow → Type 0} → Keeps (OnIssues P) (current_round site k)
  unfolding current_round
  round-Keeps = search pump_rules

  pub merger-Ended :
      (P : IssueRow → Type 0) (change rebased : Text)
      → Leads (RowHas k P) (λ x w. Ended k x w) (run_merger site i k change rebased)
  unfolding run_merger
  merger-Ended P change rebased = Leads-after _ _ round-Keeps (λ round.
      Leads-after _ _ (search pump_rules) (λ uuid. Leads-after _ _ (search pump_rules) (λ path.
        Leads-after _ _ (search pump_rules) (λ main_now.
          Leads-after _ _ (target-Keeps _ main_now) (λ target.
            Leads-after _ _ (search pump_rules) (λ rendering.
              Leads-then_after _ _ (render-Keeps _ rendering) (
                Leads-after _ _ (search pump_rules) (λ worker.
                  Leads-then_after _ _ (search pump_rules) (
                    Leads-after _ _ (search pump_rules) (λ pane.
                      Leads-then_after _ _ (search pump_rules) (
                        Leads-after _ _ (search pump_rules)
                          (λ o. exit-Ended P _ path worker pane o))))))))))))

  pub resolve-Ended :
      (P : IssueRow → Type 0) (change rebased : Text)
      → Leads
          (RowHas k P)
          (λ x w. Ended k x w)
          (resolve_conflict_with_merger site i k change rebased)
  unfolding resolve_conflict_with_merger
  resolve-Ended P change rebased = Leads-bind _ _ (Leads-get k P) (λ row.
      Leads-if _ _ _ (Leads-weaken _ (λ w g. Got-RowHas k P row w g) (park-Ended P _)) (
        Leads-bind _ _ (Leads-weaken _ (λ w g. Got-RowHas k P row w g) (Leads-get k P)) (λ o.
          Leads-then _ _ (store-Leads k P AnyRow _ o (λ r e h. (refl, tt)))
            (λ u. merger-Ended AnyRow change rebased))))
