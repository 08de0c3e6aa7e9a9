-- ===== src/Pump/Tick/Ingest.antt =====
-- What `ingest` writes: rows for issues that have none.
use mathlib.Core.Path.{subst}
use vetinari.Prelude.{
  ℕ, suc, ◌≡◌, refl, sym, ◌∙◌, true, false, Text, text_eq, text_eq_eq, text_eq_refl, Option, none,
  some, Bool, List, [], ◌∷◌, arith, ◌⊎◌, Bool-cases, inl, inr,
}
use vetinari.Prelude.Int.{ℤ, show_i64}
use vetinari.Prelude.Exec.{mapping_err}
use vetinari.Prelude.Exec.Keeps.{Keeps, Keeps-bind, Keeps-then, Keeps-if, Keeps-pure}
use vetinari.Prelude.Exec.Ends.{Ends, Ends-bind, Ends-kept, Ends-after, Ends-then_after}
use vetinari.Prelude.Exec.Returns.{Leads, Leads-mapping_err}
use vetinari.Error.{PumpError, state}
use vetinari.State.Enums.{graphed}
use vetinari.State.Rows.{IssueRow, new_issue}
use vetinari.State.Db.{execute}
use vetinari.State.Issues.{find_issue, put_issue, get_issue, upsert_issue}
use vetinari.State.Issues.Laws.{row, find-put}
use vetinari.World.{World, in_db}
use vetinari.World.Tracker.{IssueInfo}
use vetinari.Phases.{OnIssues}
use vetinari.Answer.{is_inbound}
use vetinari.Answer.Delivery.Queue.{emit_answer-Keeps}
use vetinari.Answer.Delivery.{db_step}
use vetinari.Pump.Labels.{sanitize_inbound_labels}
use vetinari.Pump.Site.{Site}
use vetinari.Pump.Steps.Laws.{table_rules}
use vetinari.Pump.Tick.{sanitize_if, adopt, adopt_unblocked, ingest_all, ingest}

-- Against the row `o` of the issue `k` before: the same, or a new one where there was none.
abbrev pub Adopted : Text → Option IssueRow → List IssueRow → Type 0
Adopted k o rs =
    (find_issue k rs ≡ o)
    ⊎ ((o ≡ none) × ((t : ℕ) × (find_issue k rs ≡ some (new_issue k graphed t))))

-- Besides, the issue `j` has no row.
abbrev Unadopted : Text → Text → Option IssueRow → List IssueRow → Type 0
Unadopted j k o rs = Adopted k o rs × (find_issue j rs ≡ none)

was_none :
    (k : Text) (o : Option IssueRow) (rs : List IssueRow)
    → Adopted k o rs
    → find_issue k rs ≡ none
    → o ≡ none
was_none k o rs (inl same) e = sym same ∙ e
was_none k o rs (inr (was, new)) e = was

put-same :
    (k : Text) (o : Option IssueRow) (rs : List IssueRow) (t : ℕ)
    → Unadopted k k o rs
    → Adopted k o (put_issue (new_issue k graphed t) rs)
put-same k o rs t (h, unknown) = inr (
  was_none k o rs h unknown,
  (t, ground (arith, find-put (new_issue k graphed t) k rs, text_eq_refl k)),
)

put-other :
    (j k : Text) (o : Option IssueRow) (rs : List IssueRow) (t : ℕ)
    → text_eq j k ≡ false
    → Adopted k o rs
    → Adopted k o (put_issue (new_issue j graphed t) rs)
put-other j k o rs t e (inl same) =
    inl (ground (arith, find-put (new_issue j graphed t) k rs, e, same))
put-other j k o rs t e (inr (was, (u, new))) =
    inr (was, (u, ground (arith, find-put (new_issue j graphed t) k rs, e, new)))

-- The row of an issue that has none is put.
Adopted-put :
    (j k : Text) (o : Option IssueRow) (rs : List IssueRow) (t : ℕ)
    → Unadopted j k o rs
    → Adopted k o (put_issue (new_issue j graphed t) rs)
Adopted-put j k o rs t h = elim (Bool-cases (text_eq j k)) [
  | inl e ↦
      let is = text_eq_eq j k e in
      subst (λ i. Adopted k o (put_issue (new_issue i graphed t) rs)) (sym is)
        (put-same k o rs t (h.0, subst (λ i. find_issue i rs ≡ none) is h.1))
  | inr e ↦ put-other j k o rs t e h.0
]

module _ {X : Type 0} (k : Text) (o : Option IssueRow) where
  upsert-Ends :
      (j : Text) (t : ℕ)
      → Ends {E = PumpError} {S = World X}
          (OnIssues (Unadopted j k o))
          (OnIssues (Adopted k o))
          (db_step (upsert_issue (new_issue j graphed t)))
  unfolding in_db upsert_issue execute mapping_err
  upsert-Ends j t = record {
    at = λ w h. elim (Bool-cases (w.db.fails w.db.statements)) [
      | inl fails ↦ record { holds = rw fails h.holds.0 }
      | inr works ↦ record { holds = rw works (Adopted-put j k o w.db.tables.issues t h.holds) }
    ];
  }

  get-Leads :
      (j : Text)
      → Leads {E = PumpError} {S = World X}
          (OnIssues (Adopted k o))
          (λ found w. OnIssues (λ rs. Adopted k o rs × (find_issue j rs ≡ found)) w)
          (db_step (get_issue j))
  unfolding in_db get_issue execute
  get-Leads j =
      Leads-mapping_err state _
        (record { at = λ w h found e. record { holds = ground (arith, h.holds, e) } })

module _ {X : Type 0} {P : List IssueRow → Type 0} (site : Site X) where
  sanitize-Keeps :
      (i : ℤ) (labels : List Text)
      → Keeps (OnIssues {X = X} P) (sanitize_inbound_labels site.repo i labels)
  unfolding sanitize_inbound_labels
  sanitize-Keeps i [] = Keeps-pure 0
  sanitize-Keeps i (l ∷ ls) = Keeps-if _ _ _ (sanitize-Keeps i ls) (
      Keeps-then _ _ (search table_rules) (
        Keeps-then _ _ (emit_answer-Keeps _ _)
          (Keeps-bind _ _ (sanitize-Keeps i ls) (λ n. Keeps-pure (suc n)))))

  sanitize_if-Keeps :
      (b : Bool) (info : IssueInfo) → Keeps (OnIssues {X = X} P) (sanitize_if site b info)
  sanitize_if-Keeps false info = Keeps-pure tt
  sanitize_if-Keeps true info = Keeps-then _ _ (sanitize-Keeps info.id info.labels) (Keeps-pure tt)

module _ {X : Type 0} (site : Site X) (k : Text) (o : Option IssueRow) where
  abbrev Sound : World X → Type 0
  Sound = OnIssues (Adopted k o)

  first : (j : Text) (w : World X) → OnIssues (Unadopted j k o) w → Sound w
  first j w h = record { holds = h.holds.0 }

  adopt-Ends :
      (info : IssueInfo) (found : Option IssueRow)
      → Ends
          (OnIssues (λ rs. Adopted k o rs × (find_issue (show_i64 info.id) rs ≡ found)))
          Sound
          (adopt site info found)
  unfolding adopt
  adopt-Ends info (some r) = Ends-kept _ (Keeps-pure tt) (λ w h. record { holds = h.holds.0 })
  adopt-Ends info none =
      Ends-then_after _ _ (sanitize_if-Keeps site (is_inbound info.labels) info)
        (first (show_i64 info.id))
        (Ends-after _ _ (search table_rules) (first (show_i64 info.id))
          (λ now. upsert-Ends k o (show_i64 info.id) now))

  unblocked-Keeps : (info : IssueInfo) (bs : List ℤ) → Keeps Sound (adopt_unblocked site info bs)
  unfolding adopt_unblocked
  unblocked-Keeps info (b ∷ bs) = Keeps-pure tt
  unblocked-Keeps info [] =
      let ends : Ends Sound Sound (adopt_unblocked site info []) =
        Ends-bind _ _ (Ends-kept _ (search table_rules) (λ w h. h))
          (get-Leads k o (show_i64 info.id)) (λ found. adopt-Ends info found) in
      record { at = ends.at }

  ingest_all-Keeps : (infos : List IssueInfo) → Keeps Sound (ingest_all site infos)
  unfolding ingest_all
  ingest_all-Keeps [] = Keeps-pure tt
  ingest_all-Keeps (info ∷ infos) =
      Keeps-bind _ _ (search table_rules)
        (λ bs. Keeps-then _ _ (unblocked-Keeps info bs) (ingest_all-Keeps infos))

  ingest-Keeps : Keeps Sound (ingest site)
  unfolding ingest
  ingest-Keeps = Keeps-bind _ _ (search table_rules) ingest_all-Keeps

-- Ingest never touches an issue that the orchestrator already has: whether it returns or fails, and
-- however often crosslink names an issue, each row of `state.db` is what it was, and an issue that had
-- none has none still or a new row at `graphed`.
pub ingest_only_adopts :
    {X : Type 0} (site : Site X) (k : Text) (w : World X)
    → (row k (ingest site w).1.db ≡ row k w.db)
      ⊎ ((row k w.db ≡ none)
          × ((t : ℕ) × (row k (ingest site w).1.db ≡ some (new_issue k graphed t))))
ingest_only_adopts site k w =
    ((ingest-Keeps site k (row k w.db)).at w (record { holds = inl refl })).holds
