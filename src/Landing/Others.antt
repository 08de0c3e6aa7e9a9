-- ===== src/Landing/Others.antt =====
-- What the landing machines leave of the other issues.
use vetinari.Prelude.{◌≡◌, refl, false, Text, text_eq}
use vetinari.State.Enums.{PhaseSubstate}
use vetinari.State.Issues.Laws.{row}
use vetinari.World.{World}
use vetinari.World.Jj.{Jj}
use vetinari.World.Tracker.{PrOpener}
use vetinari.Phases.{OnIssues-in_ext}
use vetinari.Landing.Steps.{set_phase-RowIs, emit_transition-OnIssues, emit_pr_open-OnIssues}
use vetinari.Landing.Local.{resume_from, retry_land_after_merge}
use vetinari.Landing.Local.Outcomes as LocalOutcomes
use vetinari.Landing.Remote.{RemoteLanding, resume_remote_from}
use vetinari.Landing.Remote.Outcomes as RemoteOutcomes

-- The landing of an issue by either machine, from any substate, and the retry after a merge write no
-- row of another issue, whether they succeed or fail.
pub machines_other_issues :
    {X : Type 0} (jj : Jj X) (opener : PrOpener X) (params : RemoteLanding) (change merged j : Text)
    (from : PhaseSubstate) (w : World X)
    → text_eq params.issue_id j ≡ false
    → (row j (resume_from jj params.issue_id change from w).1.db ≡ row j w.db)
      × (row j (retry_land_after_merge jj params.issue_id merged w).1.db ≡ row j w.db)
      × (row j (resume_remote_from jj opener params from w).1.db ≡ row j w.db)
machines_other_issues jj opener params change merged j from w other =
    let k = params.issue_id in
    (
      ((LocalOutcomes.resume-Keeps jj k (λ p s. set_phase-RowIs k j (row j w.db) p s other)
            (λ f t r. emit_transition-OnIssues k f t r) (λ A m. OnIssues-in_ext m) change from).at
          w (record { holds = refl })).holds,
      ((LocalOutcomes.retry-Keeps jj k (λ p s. set_phase-RowIs k j (row j w.db) p s other)
            (λ f t r. emit_transition-OnIssues k f t r) (λ A m. OnIssues-in_ext m) merged).at
          w (record { holds = refl })).holds,
      ((RemoteOutcomes.resume-Keeps jj opener params
            (λ p s. set_phase-RowIs k j (row j w.db) p s other) (λ b u. emit_pr_open-OnIssues k b u)
            (λ A m. OnIssues-in_ext m) from).at
          w (record { holds = refl })).holds,
    )
