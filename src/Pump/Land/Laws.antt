-- ===== src/Pump/Land/Laws.antt =====
-- Where `land` leaves its issue, in either mode.
use vetinari.Prelude.{◌≡◌, refl, Text, Option, none, some, Result, ok, err}
use vetinari.Prelude.Int.{ℤ}
use vetinari.Prelude.Exec.{mapping_err}
use vetinari.Prelude.Exec.Returns.{
  Leads, Leads-bind, Leads-then, Leads-pure, Leads-raise, Leads-if, Leads-after, Leads-then_after,
  Leads-mapping_err,
}
use vetinari.Error.{landing_failed, LandingError, gh_auth_missing}
use vetinari.State.Enums.{awaiting_inbound_approval, rebase_started, push_started}
use vetinari.State.Rows.{IssueRow}
use vetinari.World.Tracker.{PrOpener}
use vetinari.Phases.RowHas.{RowHas, has-set_phase_lem, has-set_landing_change}
use vetinari.Landing.{
  LandingOutcome, merged_outcome, pr_open_outcome, rebase_conflict, awaiting_human_merge_outcome,
}
use vetinari.Landing.Local.{land_local}
use vetinari.Landing.Local.Outcomes.{resume_outcome_phase}
use vetinari.Landing.Remote.{RemoteLanding, land_remote}
use vetinari.Landing.Remote.Outcomes.{remote_outcome_phase}
use vetinari.Pump.Gate.{
  IssueOutcome, merged_issue, pr_open_issue, awaiting_human_merge_issue,
  awaiting_inbound_approval_issue, park_for_inbound_approval,
}
use vetinari.Pump.Gate
use vetinari.Pump.Gate.Laws.{event-Keeps}
use vetinari.Pump.Site.{Site}
use vetinari.Pump.Steps.Laws.{pump_rules, StandsAt, AnyRow}
use vetinari.Pump.Outcomes.{Ended, poison-Ended}
use vetinari.Pump.Merge.Laws.{SettledRow, resolve-Ended}
use vetinari.Pump.Land.{land_remote_mode, on_landing, land_with, land_by_mode, past_gate, land}

module _ {X : Type 0} (site : Site X) (i : ℤ) (k : Text) (P : IssueRow → Type 0) where
  local-Leads :
      (change : Text)
      → Leads
          (RowHas k P)
          (λ o w. RowHas k (SettledRow o) w)
          (mapping_err landing_failed (land_local site.jj k change))
  unfolding land_local
  local-Leads change = Leads-mapping_err landing_failed _ (record {
    at = λ w h o e.
        let (r, there, p, s) =
          resume_outcome_phase site.jj k change rebase_started w o e (h.holds.0, h.holds.1) in
        record { holds = (r, there, (p, s)) };
  })

  remote-Leads :
      (opener : PrOpener X) (params : RemoteLanding)
      → params.issue_id ≡ k
      → Leads
          (RowHas k P)
          (λ o w. RowHas k (SettledRow o) w)
          (mapping_err landing_failed (land_remote site.jj opener params))
  unfolding land_remote
  remote-Leads opener params is = rw (← is) (
      Leads-mapping_err landing_failed _ (record {
        at = λ w h o e.
            let (r, there, p, s) =
              remote_outcome_phase site.jj opener params push_started w o e
                (h.holds.0, h.holds.1) in
            record { holds = (r, there, (p, s)) };
      }))

  on_landing-Ended :
      (change : Text) (o : LandingOutcome)
      → Leads (RowHas k (SettledRow o)) (λ x w. Ended k x w) (on_landing site i k change o)
  unfolding on_landing
  on_landing-Ended change merged_outcome =
      Leads-then_after _ _ (search pump_rules) (Leads-pure merged_issue (λ w h. h))
  on_landing-Ended change (pr_open_outcome url) =
      Leads-then_after _ _ (search pump_rules) (Leads-pure pr_open_issue (λ w h. h))
  on_landing-Ended change (rebase_conflict c) = resolve-Ended site i k _ change c
  on_landing-Ended change awaiting_human_merge_outcome =
      Leads-then_after _ _ (search pump_rules) (Leads-pure awaiting_human_merge_issue (λ w h. h))

  remote_mode-Leads :
      (change remote : Text) (opener : PrOpener X)
      → Leads
          (RowHas k P)
          (λ o w. RowHas k (SettledRow o) w)
          (land_remote_mode site i k change remote opener)
  unfolding land_remote_mode
  remote_mode-Leads change remote opener =
      Leads-after _ _ (search pump_rules)
        (λ info. Leads-after _ _ (search pump_rules) (λ described. remote-Leads opener _ refl))

  land_with-Ended :
      (change remote : Text) (r : Result LandingError (PrOpener X))
      → Leads (RowHas k P) (λ x w. Ended k x w) (land_with site i k change remote r)
  unfolding land_with
  land_with-Ended change remote (ok opener) =
      Leads-bind _ _ (remote_mode-Leads change remote opener) (λ o. on_landing-Ended change o)
  land_with-Ended change remote (err gh_auth_missing) = poison-Ended site k P none _
  land_with-Ended change remote (err other) = Leads-raise _

  mode-Ended :
      (change : Text) (remote : Option Text)
      → Leads (RowHas k P) (λ x w. Ended k x w) (land_by_mode site i k change remote)
  unfolding land_by_mode
  mode-Ended change none = Leads-bind _ _ (local-Leads change) (λ o. on_landing-Ended change o)
  mode-Ended change (some remote) =
      Leads-after _ _ (search pump_rules) (λ opener. land_with-Ended change remote opener)

  inbound-Ended :
      (change : Text)
      → Leads (RowHas k P) (λ x w. Ended k x w) (park_for_inbound_approval site.repo i k change)
  unfolding park_for_inbound_approval
  inbound-Ended change =
      Leads-then _ _ (has-set_landing_change k P AnyRow change (λ now r h. tt)) (λ u.
        Leads-then _ _
          (has-set_phase_lem k AnyRow (StandsAt awaiting_inbound_approval) awaiting_inbound_approval
            none (λ now r h. (refl, refl)))
          (λ v. Leads-then_after _ _ (search pump_rules) (
            Leads-then_after _ _ (event-Keeps site.repo k _) (
              Leads-then_after _ _ (search pump_rules)
                (Leads-pure awaiting_inbound_approval_issue (λ w h. h))))))

  pub land-Ended : (change : Text) → Leads (RowHas k P) (λ x w. Ended k x w) (land site i k change)
  unfolding land Gate.land past_gate
  land-Ended change = Leads-after _ _ (search pump_rules) (λ info.
      Leads-if _ _ _ (inbound-Ended change)
        (Leads-after _ _ (search pump_rules) (λ remote. mode-Ended change remote)))
