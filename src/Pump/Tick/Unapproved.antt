-- ===== src/Pump/Tick/Unapproved.antt =====
-- The resume of approved inbound issues where none is approved.
use mathlib.Core.Path.{subst}
use vetinari.Prelude.{
  ◌≡◌, refl, sym, ap, ◌∙◌, true, false, not, Text, text_eq, Option, none, some, List, [], ◌∷◌, All,
  ok, err, ◌⊎◌, Result-cases, if◌then◌else◌, Bool-cases, inl, inr, arith,
}
use vetinari.Prelude.Int.{ℤ, parse_i64}
use vetinari.Prelude.Exec.{Exec, pure}
use vetinari.Prelude.Exec.Keeps.{Keeps, Keeps-bind, Keeps-pure, Keeps-mapping_err}
use vetinari.Prelude.Exec.Returns.{Leads, Leads-bind, Leads-pure, Leads-fact, Leads-mapping_err}
use vetinari.Prelude.Exec.Ends.{Ends, Ends-bind, Ends-kept}
use vetinari.Error.{PumpError, crosslink, state}
use vetinari.State.Enums.{Phase, awaiting_inbound_approval, as_str, phase_enum}
use vetinari.State.Rows.{IssueRow, Tables}
use vetinari.State.Db.{execute}
use vetinari.State.Issues.{order_by_id, list_issues}
use vetinari.World.{World, in_db, in_ext}
use vetinari.World.Log.{EventLog}
use vetinari.World.Tracker.{CrosslinkRepo, IssueInfo}
use vetinari.Answer.Delivery.{db_step, repo_step}
use vetinari.Pump.Labels.{has_label, inbound_approved_label}
use vetinari.Pump.Gate.{IssueOutcome}
use vetinari.Pump.Site.{Site}
use vetinari.Pump.Tick.{resume_numbered, resume_row, resume_rows, resume_approved_inbound}

-- Reading an issue gives its labels and changes those of none.
pub record ReadLaws {X : Type 0} (repo : CrosslinkRepo X) : Type 0 where
  pub labels_of : ℤ → X → List Text
  pub read_issue_lem :
      (i : ℤ) (info : IssueInfo) (x : X)
      → (repo.read_issue i x).0 ≡ ok info
      → info.labels ≡ labels_of i x
  pub read_issue_labels : (i j : ℤ) (x : X) → labels_of j (repo.read_issue i x).1 ≡ labels_of j x

-- A parked row whose issue does not bear the label of approval, or any other row
abbrev pub IsUnapproved : (ℤ → List Text) → IssueRow → Type 0
IsUnapproved labels r =
    r.phase ≡ awaiting_inbound_approval
    → (i : ℤ) → parse_i64 r.issue_id ≡ some i
    → has_label (labels i) inbound_approved_label ≡ false

parked_phase :
    (p : Phase)
    → text_eq (as_str p) (as_str awaiting_inbound_approval) ≡ true
    → p ≡ awaiting_inbound_approval
unfolding text_eq
parked_phase awaiting_inbound_approval h = refl
parked_phase _ h = cc h

module _ {X : Type 0} (site : Site X) (laws : ReadLaws site.repo) (t : Tables) (l : EventLog)
    (x : X) where
  -- The tables, the log and the labels are these.
  record Calm (w : World X) : Type 0 where
    tables : w.db.tables ≡ t
    log : w.log ≡ l
    labels : (i : ℤ) → laws.labels_of i w.ext ≡ laws.labels_of i x

  abbrev At : List Text → World X → Type 0
  At labels w = Calm w × (has_label labels inbound_approved_label ≡ false)

  read-Calm : (i : ℤ) → Keeps Calm (repo_step (site.repo.read_issue i))
  unfolding in_ext
  read-Calm i = Keeps-mapping_err crosslink _ (record {
    at = λ w h. record {
      tables = h.tables;
      log = h.log;
      labels = λ j. laws.read_issue_labels i j w.ext ∙ h.labels j;
    };
  })

  read-Leads :
      (i : ℤ)
      → has_label (laws.labels_of i x) inbound_approved_label ≡ false
      → Leads Calm (λ info w. At info.labels w) (repo_step (site.repo.read_issue i))
  unfolding in_ext
  read-Leads i h = Leads-mapping_err crosslink _ (record {
    at = λ w c info e. (
      record {
        tables = c.tables;
        log = c.log;
        labels = λ j. laws.read_issue_labels i j w.ext ∙ c.labels j;
      },
      ap (λ ls. has_label ls inbound_approved_label)
            (laws.read_issue_lem i info w.ext e ∙ c.labels i)
          ∙ h,
    );
  })

  -- Nothing was resumed, and all is calm.
  abbrev Nothing : Option (ℤ × IssueOutcome) → World X → Type 0
  Nothing o w = (o ≡ none) × Calm w

  quiet_branch :
      {A : Type 0} (labels : List Text) (m n : Exec PumpError (World X) A)
      → has_label labels inbound_approved_label ≡ false
      → m ≡ (if not (has_label labels inbound_approved_label) then m else n)
  quiet_branch labels m n h = rw h refl

  numbered-Calm :
      (r : IssueRow) (o : Option ℤ)
      → ((i : ℤ) → o ≡ some i → has_label (laws.labels_of i x) inbound_approved_label ≡ false)
      → Ends Calm Calm (resume_numbered site r o)
  unfolding resume_numbered pure
  numbered-Calm r none h = Ends-kept _ (Keeps-pure none) (λ w c. c)
  numbered-Calm r (some i) h =
      Ends-bind _ _ (Ends-kept _ (read-Calm i) (λ w c. c)) (read-Leads i (h i refl)) (λ info.
        record {
          at = λ w c. subst (λ m. Calm (m w).1) (quiet_branch info.labels (pure none) _ c.1) c.0;
        })

  numbered-Leads :
      (r : IssueRow) (o : Option ℤ)
      → ((i : ℤ) → o ≡ some i → has_label (laws.labels_of i x) inbound_approved_label ≡ false)
      → Leads Calm (λ a w. Nothing a w) (resume_numbered site r o)
  unfolding resume_numbered
  numbered-Leads r none h = Leads-pure none (λ w c. (refl, c))
  numbered-Leads r (some i) h = Leads-bind _ _ (read-Leads i (h i refl)) (λ info. record {
    at = λ w c.
        subst (λ m. (a : Option (ℤ × IssueOutcome)) → (m w).0 ≡ ok a → Nothing a (m w).1)
          (quiet_branch info.labels (pure none) _ c.1)
          ((Leads-pure {Q = λ a w. Nothing a w} none (λ v d. (refl, d))).at w c.0);
  })

  abbrev IsQuiet : IssueRow → Type 0
  IsQuiet r = IsUnapproved (λ i. laws.labels_of i x) r

  row-Calm : (r : IssueRow) → IsQuiet r → Keeps Calm (resume_row site r)
  unfolding resume_row
  row-Calm r h = elim (Bool-cases (text_eq (as_str r.phase) (as_str awaiting_inbound_approval))) [
    | inl parked ↦ rw parked (record {
      at = (numbered-Calm r (parse_i64 r.issue_id) (h (parked_phase r.phase parked))).at;
    })
    | inr other ↦ rw other (Keeps-pure none)
  ]

  row-Leads : (r : IssueRow) → IsQuiet r → Leads Calm (λ a w. Nothing a w) (resume_row site r)
  unfolding resume_row
  row-Leads r h = elim (Bool-cases (text_eq (as_str r.phase) (as_str awaiting_inbound_approval))) [
    | inl parked ↦
        rw parked (numbered-Leads r (parse_i64 r.issue_id) (h (parked_phase r.phase parked)))
    | inr other ↦ rw other (Leads-pure none (λ w c. (refl, c)))
  ]

  rows-Calm : (rs : List IssueRow) → All IsQuiet rs → Keeps Calm (resume_rows site rs)
  unfolding resume_rows
  rows-Calm [] h = Keeps-pure []
  rows-Calm (r ∷ rs) h =
      Keeps-bind _ _ (row-Calm r h.0) (λ a. Keeps-bind _ _ (rows-Calm rs h.1) (λ os. Keeps-pure _))

  abbrev Empty : List (ℤ × IssueOutcome) → World X → Type 0
  Empty os w = (os ≡ []) × Calm w

  rows-Leads :
      (rs : List IssueRow) → All IsQuiet rs → Leads Calm (λ os w. Empty os w) (resume_rows site rs)
  unfolding resume_rows
  rows-Leads [] h = Leads-pure [] (λ w c. (refl, c))
  rows-Leads (r ∷ rs) h = Leads-bind _ _ (row-Leads r h.0) (λ a. Leads-fact _ (λ quiet.
      Leads-bind _ _ (rows-Leads rs h.1) (λ os. Leads-pure _ (λ w e. (rw quiet e.0, e.1)))))

  abbrev Listed : List IssueRow → World X → Type 0
  Listed rs w = (rs ≡ order_by_id t.issues) × Calm w

  list-Calm : Keeps Calm (db_step list_issues)
  unfolding in_db list_issues execute
  list-Calm = Keeps-mapping_err state _ (record {
    at = λ w c. record { tables = ground (arith, c.tables); log = c.log; labels = c.labels };
  })

  list-Leads : Leads Calm (λ rs w. Listed rs w) (db_step list_issues)
  unfolding in_db list_issues execute
  list-Leads = Leads-mapping_err state _ (record {
    at = λ w c rs e. (
      ground (arith, e, ap (λ (u : Tables). order_by_id u.issues) c.tables),
      record { tables = ground (arith, c.tables); log = c.log; labels = c.labels },
    );
  })

  module _ (h : All IsQuiet (order_by_id t.issues)) where
    loop-Calm : Ends Calm Calm (resume_approved_inbound site)
    unfolding resume_approved_inbound
    loop-Calm = Ends-bind _ _ (Ends-kept _ list-Calm (λ w c. c)) list-Leads (λ rs. record {
      at = λ w c. (rows-Calm rs (subst (λ us. All IsQuiet us) (sym c.0) h)).at w c.1;
    })

    loop-Leads : Leads Calm (λ os w. Empty os w) (resume_approved_inbound site)
    unfolding resume_approved_inbound
    loop-Leads =
        Leads-bind _ _ list-Leads
          (λ rs. Leads-fact _ (λ all. rows-Leads rs (subst (λ us. All IsQuiet us) (sym all) h)))

-- While no parked issue bears the label of approval, the whole resume lands nothing: no table and no
-- line of the event log changes, and it returns no outcome, or fails.
pub none_approved_lem :
    {X : Type 0} (site : Site X) (laws : ReadLaws site.repo) (w : World X)
    → All (IsUnapproved (λ i. laws.labels_of i w.ext)) (order_by_id w.db.tables.issues)
    → ((resume_approved_inbound site w).1.db.tables ≡ w.db.tables)
      × ((resume_approved_inbound site w).1.log ≡ w.log)
      × (((resume_approved_inbound site w).0 ≡ ok [])
          ⊎ ((e : PumpError) × ((resume_approved_inbound site w).0 ≡ err e)))
none_approved_lem site laws w h =
    let before : Calm site laws w.db.tables w.log w.ext w = record {
      tables = refl;
      log = refl;
      labels = λ i. refl;
    } in
    let after = (loop-Calm site laws w.db.tables w.log w.ext h).at w before in
    (
      after.tables,
      after.log,
      elim (Result-cases (resume_approved_inbound site w).0) [
        | inl (os, e) ↦
            inl (e ∙ ap ok ((loop-Leads site laws w.db.tables w.log w.ext h).at w before os e).0)
        | inr failed ↦ inr failed
      ],
    )
