-- ===== src/Pump/Gate/Laws.antt =====
-- An issue that a peer submitted does not land without an approval.
use mathlib.Core.Option
use vetinari.Prelude.{
  ℕ, ◌≡◌, refl, true, not, ◌&&◌, Text, text_eq, text_eq_refl, starts_with, Option, none, some, List,
  [], ◌∷◌, arith, ok,
}
use vetinari.Prelude.Int.{ℤ}
use vetinari.Prelude.Exec.{Exec, mapping_err, ◌>>=◌}
use vetinari.Prelude.Exec.Keeps.{Keeps, keeps_rules, Keeps-if, Keeps-then}
use vetinari.Prelude.Exec.Returns.{Leads, Leads-then, Leads-pure, Leads-mapping_err, Leads-kept}
use vetinari.Error.{PumpError, state}
use vetinari.State.Enums.{Phase, awaiting_inbound_approval}
use vetinari.State.Db.{StateDb, execute}
use vetinari.State.Rows.{IssueRow, Payload}
use vetinari.State.Issues.{find_issue, set_landing_change, set_phase, with_phase}
use vetinari.State.Issues.Laws.{row, row-set_phase, find-update, works_of_ok}
use vetinari.World.{World, in_db, in_ext}
use vetinari.World.Tracker.{CrosslinkRepo, IssueInfo}
use vetinari.Phases.{OnIssues, OnIssues-in_ext, OnIssues-emit}
use vetinari.Answer.Delivery.{db_step, emit_answer}
use vetinari.Pump.Labels.{set_phase_label, remove_stale, phase_label_prefix}
use vetinari.Pump.Gate.{
  IssueOutcome, awaiting_inbound_approval_issue, park_for_inbound_approval, unapproved, land,
}

-- What is asked of the row that an issue has.
abbrev Of : (IssueRow → Type 0) → Option IssueRow → Type 0
Of P none = Unit
Of P (some r) = P r

abbrev Stored : Text → IssueRow → Type 0
Stored change r = r.landing_change ≡ some change

abbrev Parked : Text → IssueRow → Type 0
Parked change r =
    (r.phase ≡ awaiting_inbound_approval)
    × (r.phase_substate ≡ none)
    × (r.landing_change ≡ some change)

abbrev RowOf : {X : Type 0} → Text → (IssueRow → Type 0) → World X → Type 0
RowOf k P w = OnIssues (λ rs. Of P (find_issue k rs)) w

abbrev with_change : Text → ℕ → IssueRow → IssueRow
with_change change now r = record r { landing_change = some change; updated_at = now }

Stored-map :
    (change : Text) (now : ℕ) (o : Option IssueRow)
    → Of (Stored change) (Option.map (with_change change now) o)
Stored-map change now none = tt
Stored-map change now (some r) = refl

Parked-map :
    (change : Text) (now : ℕ) (o : Option IssueRow)
    → Of (Stored change) o
    → Of (Parked change) (Option.map (with_phase awaiting_inbound_approval none now) o)
Parked-map change now none h = tt
Parked-map change now (some r) h = (refl, refl, h)

row-set_landing_change :
    (k change : Text) (db : StateDb) (u : Unit {0})
    → (set_landing_change k change db).0 ≡ ok u
    → row k (set_landing_change k change db).1
      ≡ Option.map (with_change change (db.now db.statements)) (row k db)
unfolding set_landing_change execute
row-set_landing_change k change db u h = ground (
  arith,
  find-update k k (with_change change (db.now db.statements)) db.tables.issues (λ r. refl),
  text_eq_refl k,
)

row-parked :
    (k : Text) (db : StateDb) (u : Unit {0})
    → (set_phase k awaiting_inbound_approval none db).0 ≡ ok u
    → row k (set_phase k awaiting_inbound_approval none db).1
      ≡ Option.map (with_phase awaiting_inbound_approval none (db.now db.statements)) (row k db)
row-parked k db u h = ground (
  arith,
  row-set_phase k k awaiting_inbound_approval none db,
  text_eq_refl k,
  works_of_ok k awaiting_inbound_approval none db u h,
)

module _ {X : Type 0} (k change : Text) where
  store-Leads :
      {R : World X → Type 0}
      → Leads R (λ u w. RowOf k (Stored change) w) (db_step (set_landing_change k change))
  unfolding in_db
  store-Leads = Leads-mapping_err state _ (record {
    at = λ w h u e. record {
      holds =
          rw (row-set_landing_change k change w.db u e)
            (Stored-map change (w.db.now w.db.statements) (row k w.db));
    };
  })

  park-Leads :
      Leads {S = World X}
        (RowOf k (Stored change))
        (λ u w. RowOf k (Parked change) w)
        (db_step (set_phase k awaiting_inbound_approval none))
  unfolding in_db
  park-Leads = Leads-mapping_err state _ (record {
    at = λ w h u e. record {
      holds =
          rw (row-parked k w.db u e)
            (Parked-map change (w.db.now w.db.statements) (row k w.db) h.holds);
    };
  })

module _ {X : Type 0} {P : List IssueRow → Type 0} (repo : CrosslinkRepo X) where
  remove_stale-Keeps :
      (i : ℤ) (want : Text) (ls : List Text)
      → Keeps (OnIssues {X = X} P) (remove_stale repo i want ls)
  unfolding remove_stale
  remove_stale-Keeps i want [] = search keeps_rules
  remove_stale-Keeps i want (l ∷ ls) =
      Keeps-if (starts_with phase_label_prefix l && not (text_eq l want)) _ _
        (Keeps-then _ _ (search (keeps_rules, OnIssues-in_ext)) (remove_stale-Keeps i want ls))
        (remove_stale-Keeps i want ls)

  pub label-Keeps : (i : ℤ) (p : Phase) → Keeps (OnIssues {X = X} P) (set_phase_label repo i p)
  unfolding set_phase_label
  label-Keeps i p = search (keeps_rules, OnIssues-in_ext, remove_stale-Keeps) depth 9

  pub event-Keeps : (key : Text) (p : Payload) → Keeps (OnIssues {X = X} P) (emit_answer key p)
  unfolding emit_answer
  event-Keeps key p = search (keeps_rules, OnIssues-emit)

module _ {X : Type 0} (repo : CrosslinkRepo X) (issue_id : ℤ) (k change : Text) where
  park-Parked :
      {R : World X → Type 0}
      → Leads R
          (λ o w. (o ≡ awaiting_inbound_approval_issue) × RowOf k (Parked change) w)
          (park_for_inbound_approval repo issue_id k change)
  unfolding park_for_inbound_approval
  park-Parked = Leads-then _ _ (store-Leads k change) (λ a.
      Leads-then _ _ (park-Leads k change) (λ b.
        Leads-then _ _ (Leads-kept _ (label-Keeps repo issue_id awaiting_inbound_approval)) (λ c.
          Leads-then _ _ (Leads-kept _ (event-Keeps repo k _)) (λ d.
            Leads-then _ _ (Leads-kept _ (search (keeps_rules, OnIssues-in_ext)))
              (λ e. Leads-pure awaiting_inbound_approval_issue (λ w h. (refl, h)))))))

Parked-row :
    (k change : Text) (rs : List IssueRow) (r : IssueRow)
    → Of (Parked change) (find_issue k rs)
    → find_issue k rs ≡ some r
    → Parked change r
Parked-row k change rs r h e = rw e at h

-- A peer's issue without the label of approval never lands: whatever the rest of `land` does, it is
-- not run, and if `land` returns, the outcome is the park, and the issue's row, if it has one, is at
-- `awaiting-inbound-approval` with no substate and keeps the reviewed change to land later.
pub land_unapproved_lem :
    {X : Type 0} (repo : CrosslinkRepo X)
    (rest rest' : ℤ → Text → Text → Exec PumpError (World X) IssueOutcome) (issue_id : ℤ)
    (k change : Text) (info : IssueInfo) (w : World X)
    → (repo.read_issue issue_id w.ext).0 ≡ ok info
    → unapproved repo info ≡ true
    → (land repo rest issue_id k change w ≡ land repo rest' issue_id k change w)
      × ((o : IssueOutcome)
          → (land repo rest issue_id k change w).0 ≡ ok o
          → (o ≡ awaiting_inbound_approval_issue)
            × ((r : IssueRow)
                → row k (land repo rest issue_id k change w).1.db ≡ some r
                → (r.phase ≡ awaiting_inbound_approval)
                  × (r.phase_substate ≡ none)
                  × (r.landing_change ≡ some change)))
unfolding land in_ext mapping_err ◌>>=◌
land_unapproved_lem repo rest rest' issue_id k change info w e u =
    let parked = (park-Parked repo issue_id k change {R = λ w. Unit}).at in
    rw e (
      rw u (
        refl,
        λ o h. ((parked _ tt o h).0, λ r m. Parked-row k change _ r (parked _ tt o h).1.holds m),
      ))
