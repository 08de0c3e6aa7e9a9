-- ===== src/Pump/Merge/Once.antt =====
-- One Merger for an issue: the count is stored before it is spawned, and never goes down.
use mathlib.Core.Path.{subst}
use mathlib.Core.Option.{some-injective}
use vetinari.Prelude.{
  ◌≤◌, ◌≡◌, refl, ap, sym, ◌∙◌, Bool, true, false, leb, if◌then◌else◌, Text, msg, Option, none,
  some, Result, ok, err, arith, Bool-cases, inl, inr, leb→le,
}
use vetinari.Prelude.Int.{ℤ}
use vetinari.Prelude.Exec.{◌>>=◌, ◌>>◌}
use vetinari.Prelude.Exec.Keeps.{Keeps, keeps_rules}
use vetinari.Prelude.Exec.Returns.{Leads, Leads-bind, Leads-then, Leads-kept, Leads-weaken}
use vetinari.Prelude.Exec.Agrees.{Agrees, Agrees-bind}
use vetinari.State.Enums.{Phase, PhaseSubstate}
use vetinari.State.Rows.{IssueRow}
use vetinari.State.Issues.{get_issue, set_phase}
use vetinari.State.Issues.Laws.{row}
use vetinari.World.{World, in_db}
use vetinari.Phases.{OnIssues-in_ext, IsKnown}
use vetinari.Phases.RowHas.{RowHas, Got, Leads-get, Got-RowHas, set_phase-Keeps}
use vetinari.Answer.Delivery.{db_step}
use vetinari.Names.{WorkspaceName}
use vetinari.Artifacts.{ArtifactError}
use vetinari.Artifacts.Done.{DoneSentinel}
use vetinari.Landing
use vetinari.Landing.{
  emit_transition, LandingOutcome, merged_outcome, pr_open_outcome, rebase_conflict,
  awaiting_human_merge_outcome,
}
use vetinari.Landing.Steps.{emit_transition-OnIssues}
use vetinari.Landing.Local.{retry_land_after_merge}
use vetinari.Landing.Local.Outcomes.{retry-Keeps}
use vetinari.Pump.Gate.{IssueOutcome}
use vetinari.Pump.Site.{Site, SpawnOutcome, exited, still_running, QaOutcome, qa_pass, qa_fail}
use vetinari.Pump.Steps.{store_issue}
use vetinari.Pump.Steps.Laws.{pump_rules, AnyRow}
use vetinari.Pump.Outcomes.{store-Leads}
use vetinari.Pump.Merge.{
  retries_of, with_retry, park_for_human, merge_failed, on_retry, retry_landing, on_merged_qa,
  on_resolved, on_merger_done, on_merger_exit, run_merger, resolve_conflict_with_merger,
  max_merger_spawns,
}
use vetinari.Pump.Merge.Laws.{blocker-Keeps, target-Keeps, render-Keeps, round-Keeps}

abbrev pub Retried : IssueRow → Type 0
Retried r = 1 ≤ r.landing_retry_count

spent_lem :
    (o : Option IssueRow) (r : IssueRow)
    → o ≡ some r
    → leb max_merger_spawns (retries_of o) ≡ true
    → Retried r
spent_lem none r e h = cc e
spent_lem (some q) r e h = subst Retried (some-injective q r e) (leb→le 1 q.landing_retry_count h)

spent : (q : IssueRow) → Retried q → leb max_merger_spawns q.landing_retry_count ≡ true
spent q h = ground arith

Retried-leb :
    (o : Option IssueRow) (r : IssueRow)
    → o ≡ some r
    → Retried r
    → leb max_merger_spawns (retries_of o) ≡ true
Retried-leb none r e h = cc e
Retried-leb (some q) r e h = spent q (subst Retried (sym (some-injective q r e)) h)

module _ {X : Type 0} (k : Text) where
  phase-Keeps :
      (p : Phase) (s : Option PhaseSubstate)
      → Keeps (RowHas {X = X} k Retried) (in_db (set_phase k p s))
  phase-Keeps p s = set_phase-Keeps k Retried p s (λ now r h. h)

  landing-Keeps :
      (p : Phase) (s : Option PhaseSubstate)
      → Keeps (RowHas {X = X} k Retried) (Landing.set_phase k p s)
  unfolding Landing.set_phase
  landing-Keeps p s = search (keeps_rules, phase-Keeps)

module _ {X : Type 0} (site : Site X) (i : ℤ) (k : Text) where
  park-Keeps : (reason : Text) → Keeps (RowHas k Retried) (park_for_human site i k reason)
  unfolding park_for_human
  park-Keeps reason = search (pump_rules, phase-Keeps, blocker-Keeps) depth 9

  failed-Keeps :
      (name : WorkspaceName) (reason : Text)
      → Keeps (RowHas k Retried) (merge_failed site i k name reason)
  unfolding merge_failed
  failed-Keeps name reason = search (pump_rules, park-Keeps)

  on_retry-Keeps :
      (name : WorkspaceName) (o : LandingOutcome)
      → Keeps (RowHas k Retried) (on_retry site i k name o)
  unfolding on_retry
  on_retry-Keeps name merged_outcome = search pump_rules depth 9
  on_retry-Keeps name awaiting_human_merge_outcome = search (pump_rules, blocker-Keeps) depth 9
  on_retry-Keeps name (rebase_conflict c) = search (pump_rules, park-Keeps) depth 9
  on_retry-Keeps name (pr_open_outcome url) = search (pump_rules, park-Keeps) depth 9

  landed-Keeps :
      (merged : Text) → Keeps (RowHas {X = X} k Retried) (retry_land_after_merge site.jj k merged)
  landed-Keeps merged =
      retry-Keeps site.jj k (λ p s. landing-Keeps k p s) (λ f t r. emit_transition-OnIssues k f t r)
        (λ A m. OnIssues-in_ext m) merged

  qa-Keeps :
      (name : WorkspaceName) (merged : Text) (r : Result Text QaOutcome)
      → Keeps (RowHas k Retried) (on_merged_qa site i k name merged r)
  unfolding on_merged_qa retry_landing
  qa-Keeps name merged (ok qa_pass) = search (pump_rules, landed-Keeps, on_retry-Keeps) depth 9
  qa-Keeps name merged (ok (qa_fail code tail)) = failed-Keeps name _
  qa-Keeps name merged (err e) = failed-Keeps name _

  resolved-Keeps :
      (name : WorkspaceName) (path merged : Text) (b : Bool)
      → Keeps (RowHas k Retried) (on_resolved site i k name path merged b)
  unfolding on_resolved
  resolved-Keeps name path merged true = failed-Keeps name _
  resolved-Keeps name path merged false = search (pump_rules, qa-Keeps)

  done-Keeps :
      (name : WorkspaceName) (path u : Text) (d : Result ArtifactError DoneSentinel)
      → Keeps (RowHas k Retried) (on_merger_done site i k name path u d)
  unfolding on_merger_done
  done-Keeps name path u (err e) = search (pump_rules, failed-Keeps)
  done-Keeps name path u (ok d) = search (pump_rules, resolved-Keeps) depth 12

  exit-Keeps :
      (name : WorkspaceName) (path u pane : Text) (o : SpawnOutcome)
      → Keeps (RowHas k Retried) (on_merger_exit site i k name path u pane o)
  unfolding on_merger_exit
  exit-Keeps name path u pane still_running = search (pump_rules, failed-Keeps) depth 9
  exit-Keeps name path u pane exited = search (pump_rules, done-Keeps) depth 9

  merger-Keeps :
      (change rebased : Text) → Keeps (RowHas k Retried) (run_merger site i k change rebased)
  unfolding run_merger
  merger-Keeps change rebased =
      search (pump_rules, round-Keeps, target-Keeps, render-Keeps, exit-Keeps) depth 30

  -- What follows the read of the row
  after_read :
      (change rebased : Text) (o : Option IssueRow)
      → Leads
          (Got k AnyRow o)
          (λ x w. RowHas k Retried w)
          (if leb max_merger_spawns (retries_of o)
            then park_for_human site i k (msg "rebase still conflicts after a Merger attempt")
            else (do
              issue ← db_step (get_issue k)
              store_issue (with_retry (retries_of o)) issue
              run_merger site i k change rebased))
  after_read change rebased o = elim (Bool-cases (leb max_merger_spawns (retries_of o))) [
    | inl spent ↦ rw spent (
        Leads-weaken _
          (λ w g. record { holds = (g.issue, g.found, spent_lem o g.issue g.read spent) })
          (Leads-kept _ (park-Keeps _)))
    | inr fresh ↦ rw fresh (
        Leads-bind _ _ (Leads-weaken _ (λ w g. Got-RowHas k AnyRow o w g) (Leads-get k AnyRow))
          (λ x.
            Leads-then _ _ (store-Leads k AnyRow Retried _ x (λ r e h. (refl, omega arith)))
              (λ u. Leads-kept _ (merger-Keeps change rebased))))
  ]

  resolve-Retried :
      (change rebased : Text)
      → Leads
          (RowHas k AnyRow)
          (λ x w. RowHas k Retried w)
          (resolve_conflict_with_merger site i k change rebased)
  unfolding resolve_conflict_with_merger
  resolve-Retried change rebased =
      Leads-bind _ _ (Leads-get k AnyRow) (λ o. after_read change rebased o)

  spent-Agrees :
      (change rebased : Text)
      → Agrees (RowHas k Retried) (resolve_conflict_with_merger site i k change rebased) (
          db_step (get_issue k) >>= λ row.
          park_for_human site i k (msg "rebase still conflicts after a Merger attempt"))
  unfolding resolve_conflict_with_merger
  spent-Agrees change rebased =
      Agrees-bind _ _ _ (Leads-get k Retried)
        (λ o. record { at = λ w g. rw (Retried-leb o g.issue g.read g.sat) refl })

-- One Merger for an issue. Whatever the worker, QA, jj and crosslink do, once the resolution of a
-- conflict has returned for an issue that has a row, another conflict of that issue spawns no worker:
-- from any state in which its row counts no fewer attempts, the resolution is a read of the row and
-- the park for a human.
pub merger_spawned_once :
    {X : Type 0} (site : Site X) (i : ℤ) (k change rebased change' rebased' : Text)
    (o : IssueOutcome) (w v : World X) (r q : IssueRow)
    → IsKnown k w.db.tables.issues
    → (resolve_conflict_with_merger site i k change rebased w).0 ≡ ok o
    → row k (resolve_conflict_with_merger site i k change rebased w).1.db ≡ some r
    → row k v.db ≡ some q
    → r.landing_retry_count ≤ q.landing_retry_count
    → resolve_conflict_with_merger site i k change' rebased' v
      ≡ (db_step (get_issue k) >>= λ row.
            park_for_human site i k (msg "rebase still conflicts after a Merger attempt"))
          v
merger_spawned_once site i k change rebased change' rebased' o w v r q (x, there) h stored found
      more =
    let s =
      (resolve-Retried site i k change rebased).at w (record { holds = (x, there, tt) }) o h in
    let (y, kept, spent) = s.holds in
    let same : y ≡ r = some-injective y r (sym kept ∙ stored) in
    (spent-Agrees site i k change' rebased').at v (record {
      holds = (q, found, omega (arith, ap (λ (z : IssueRow). z.landing_retry_count) same));
    })
