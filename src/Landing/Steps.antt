-- ===== src/Landing/Steps.antt =====
-- What the two writes that every landing step makes do, `set_phase` and the transition event.
use vetinari.Prelude.{◌≡◌, Text, Option, none, some, false, text_eq, List}
use vetinari.Prelude.Exec.Keeps.{Keeps, keeps_rules}
use vetinari.Prelude.Exec.Returns.{Leads, Leads-mapping_err, Leads-then, Leads-pure}
use vetinari.State.Enums.{Phase, PhaseSubstate, transition}
use vetinari.State.Rows.{IssueRow, Payload}
use vetinari.State.Issues.{substate_column}
use vetinari.World.{World}
use vetinari.World.Rules.{OnExt, world_rules}
use vetinari.Events.{emit}
use vetinari.Phases.{
  PhaseIs, Leads-set_phase, Leads-emit, OnIssues, OnIssues-emit, IsKnown, RowIs, Known-set_phase,
  RowIs-set_phase,
}
use vetinari.Landing.{set_phase, emit_landing, emit_transition, emit_pr_open, write_failed}

module _ {X : Type 0} where
  pub set_phase-Leads :
      {R : World X → Type 0} (k : Text) (p : Phase) (s : Option PhaseSubstate)
      → Leads R (λ _ w. PhaseIs k p (substate_column s) w) (set_phase k p s)
  unfolding set_phase
  set_phase-Leads k p s = Leads-mapping_err write_failed _ (Leads-set_phase k p s)

  emit_landing-Leads :
      (k j : Text) (q : Phase) (s : Option Text) (p : Payload)
      → Leads (PhaseIs {X = X} k q s) (λ _ w. PhaseIs k q s w) (emit_landing j p)
  unfolding emit_landing
  emit_landing-Leads k j q s p =
      Leads-then _ _
        (Leads-mapping_err write_failed _ (Leads-emit k q s transition (some j) none p))
        (λ _. Leads-pure tt (λ w h. h))

  pub emit_transition-Leads :
      (k j : Text) (q : Phase) (s : Option Text) (from to : Phase) (reason : Text)
      → Leads (PhaseIs {X = X} k q s) (λ _ w. PhaseIs k q s w) (emit_transition j from to reason)
  unfolding emit_transition
  emit_transition-Leads k j q s from to reason = emit_landing-Leads k j q s _

  pub emit_pr_open-Leads :
      (k j : Text) (q : Phase) (s : Option Text) (branch url : Text)
      → Leads (PhaseIs {X = X} k q s) (λ _ w. PhaseIs k q s w) (emit_pr_open j branch url)
  unfolding emit_pr_open
  emit_pr_open-Leads k j q s branch url = emit_landing-Leads k j q s _

module _ {X : Type 0} {P : List IssueRow → Type 0} where
  pub emit_transition-OnIssues :
      (j : Text) (from to : Phase) (reason : Text)
      → Keeps (OnIssues {X = X} P) (emit_transition j from to reason)
  unfolding emit_transition emit_landing
  emit_transition-OnIssues j from to reason = search (keeps_rules, OnIssues-emit)

  pub emit_pr_open-OnIssues :
      (j branch url : Text) → Keeps (OnIssues {X = X} P) (emit_pr_open j branch url)
  unfolding emit_pr_open emit_landing
  emit_pr_open-OnIssues j branch url = search (keeps_rules, OnIssues-emit)

module _ {X : Type 0} {P : X → Type 0} where
  pub set_phase-OnExt :
      (k : Text) (p : Phase) (s : Option PhaseSubstate) → Keeps (OnExt P) (set_phase k p s)
  unfolding set_phase
  set_phase-OnExt k p s = search (keeps_rules, world_rules)

  pub emit_transition-OnExt :
      (j : Text) (from to : Phase) (reason : Text)
      → Keeps (OnExt P) (emit_transition j from to reason)
  unfolding emit_transition emit_landing emit
  emit_transition-OnExt j from to reason = search (keeps_rules, world_rules)

  pub emit_pr_open-OnExt : (j branch url : Text) → Keeps (OnExt P) (emit_pr_open j branch url)
  unfolding emit_pr_open emit_landing emit
  emit_pr_open-OnExt j branch url = search (keeps_rules, world_rules)

module _ {X : Type 0} where
  pub set_phase-Known :
      (k j : Text) (p : Phase) (s : Option PhaseSubstate)
      → Keeps (OnIssues {X = X} (IsKnown j)) (set_phase k p s)
  unfolding set_phase
  set_phase-Known k j p s = search (keeps_rules, Known-set_phase k j p s)

  pub set_phase-RowIs :
      (k j : Text) (o : Option IssueRow) (p : Phase) (s : Option PhaseSubstate)
      → text_eq k j ≡ false
      → Keeps (OnIssues {X = X} (RowIs j o)) (set_phase k p s)
  unfolding set_phase
  set_phase-RowIs k j o p s other = search (keeps_rules, RowIs-set_phase k j o p s other)
