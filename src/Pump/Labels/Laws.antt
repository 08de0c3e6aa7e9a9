-- ===== src/Pump/Labels/Laws.antt =====
-- What is left of a peer's labels.
use vetinari.Prelude.{
  ℕ, suc, ◌≡◌, true, false, not, Text, text_eq, text_eq_iff, text_eq_refl, List, [], ◌∷◌, All,
  select, ◌⊎◌, sym, ap, ◌∙◌, text_eq_eq, arith, ok, Bool-cases, inl, inr,
}
use vetinari.Prelude.Int.{ℤ}
use vetinari.Prelude.Exec.Returns.{Leads, Leads-bind, Leads-then, Leads-pure, Leads-mapping_err}
use vetinari.Error.{crosslink}
use vetinari.World.{World, in_ext}
use vetinari.World.Rules.{OnExt, world_rules}
use vetinari.World.Tracker.{CrosslinkRepo, LabelLaws}
use vetinari.State.Rows.{Payload}
use vetinari.Events.{emit}
use mathlib.Core.Path.{subst}
use vetinari.Prelude.Exec.Keeps.{Keeps, keeps_rules}
use vetinari.Answer.Delivery.{repo_step, emit_answer}
use vetinari.Pump.Labels.{is_peer_forbidden_inbound_label, sanitize_inbound_labels, has_label}

-- Each label is allowed, or still to come in the loop.
abbrev Pending : List Text → List Text → Type 0
Pending rest labels =
    All (λ l. (is_peer_forbidden_inbound_label l ≡ false) ⊎ (has_label rest l ≡ true)) labels

-- No label that a peer may not set.
abbrev pub IsClean : List Text → Type 0
IsClean labels = All (λ l. is_peer_forbidden_inbound_label l ≡ false) labels

Pending-nil : (labels : List Text) → Pending [] labels → IsClean labels
unfolding has_label
Pending-nil [] h = tt
Pending-nil (l ∷ ls) (inl p, hs) = (p, Pending-nil ls hs)
Pending-nil (l ∷ ls) (inr c, hs) = cc c

passed :
    (m : Text) (rest : List Text) (l : Text)
    → is_peer_forbidden_inbound_label m ≡ false
    → has_label (m ∷ rest) l ≡ true
    → (is_peer_forbidden_inbound_label l ≡ false) ⊎ (has_label rest l ≡ true)
unfolding has_label
passed m rest l a h = elim (Bool-cases (text_eq m l)) [
  | inl e ↦ inl (ap is_peer_forbidden_inbound_label (sym (text_eq_eq m l e)) ∙ a)
  | inr e ↦ inr (rw e at h)
]

removed :
    (m : Text) (rest : List Text) (l : Text)
    → text_eq l m ≡ false
    → (is_peer_forbidden_inbound_label l ≡ false) ⊎ (has_label (m ∷ rest) l ≡ true)
    → (is_peer_forbidden_inbound_label l ≡ false) ⊎ (has_label rest l ≡ true)
unfolding has_label
removed m rest l e (inl p) = inl p
removed m rest l e (inr p) = inr (ground (arith, text_eq_iff m l, text_eq_iff l m))

-- An allowed label at the head of the loop is passed over.
Pending-pass :
    (m : Text) (rest labels : List Text)
    → is_peer_forbidden_inbound_label m ≡ false
    → Pending (m ∷ rest) labels
    → Pending rest labels
unfolding has_label
Pending-pass m rest [] a h = tt
Pending-pass m rest (l ∷ ls) a (inl p, hs) = (inl p, Pending-pass m rest ls a hs)
Pending-pass m rest (l ∷ ls) a (inr p, hs) = (passed m rest l a p, Pending-pass m rest ls a hs)

-- A forbidden one is removed.
Pending-remove :
    (m : Text) (rest labels : List Text)
    → Pending (m ∷ rest) labels
    → Pending rest (select (λ l. not (text_eq l m)) labels)
unfolding has_label
Pending-remove m rest [] h = tt
Pending-remove m rest (l ∷ ls) (p, hs) = elim (Bool-cases (text_eq l m)) [
  | inl e ↦ rw e (Pending-remove m rest ls hs)
  | inr e ↦ rw e (removed m rest l e p, Pending-remove m rest ls hs)
]

emit_answer-OnExt :
    {X : Type 0} {P : X → Type 0} (key : Text) (payload : Payload)
    → Keeps (OnExt P) (emit_answer key payload)
unfolding emit_answer emit
emit_answer-OnExt key payload = search (keeps_rules, world_rules)

module _ {X : Type 0} (repo : CrosslinkRepo X) (laws : LabelLaws repo) (issue_id : ℤ) where
  -- What the loop has still to do, and what it has done.
  abbrev Left : List Text → World X → Type 0
  Left rest = OnExt (λ x. Pending rest (laws.labels_of issue_id x))

  abbrev Done : World X → Type 0
  Done = OnExt (λ x. IsClean (laws.labels_of issue_id x))

  remove-Leads :
      (m : Text) (rest : List Text)
      → Leads (Left (m ∷ rest)) (λ b w. Left rest w) (repo_step (repo.label_remove issue_id m))
  unfolding in_ext
  remove-Leads m rest = Leads-mapping_err crosslink _ (record {
    at = λ w h b e. record {
      holds =
          subst (Pending rest) (sym (laws.label_remove_lem issue_id m b w.ext e))
            (Pending-remove m rest (laws.labels_of issue_id w.ext) h.holds);
    };
  })

  emit-Leads :
      (rest : List Text) (key : Text) (payload : Payload)
      → Leads (Left rest) (λ u w. Left rest w) (emit_answer key payload)
  emit-Leads rest key payload = record { at = λ w h u e. (emit_answer-OnExt key payload).at w h }

  weaken :
      (m : Text) (rest : List Text)
      → is_peer_forbidden_inbound_label m ≡ false
      → Leads (Left rest) (λ n w. Done w) (sanitize_inbound_labels repo issue_id rest)
      → Leads (Left (m ∷ rest)) (λ n w. Done w) (sanitize_inbound_labels repo issue_id rest)
  weaken m rest a k = record {
    at = λ w h n e.
        k.at w (record { holds = Pending-pass m rest (laws.labels_of issue_id w.ext) a h.holds }) n
          e;
  }

  sanitize-Leads :
      (rest : List Text)
      → Leads (Left rest) (λ n w. Done w) (sanitize_inbound_labels repo issue_id rest)
  unfolding sanitize_inbound_labels
  sanitize-Leads [] =
      Leads-pure 0 (λ w h. record { holds = Pending-nil (laws.labels_of issue_id w.ext) h.holds })
  sanitize-Leads (m ∷ rest) = elim (Bool-cases (is_peer_forbidden_inbound_label m)) [
    | inl f ↦ rw f (
        Leads-then _ _ (remove-Leads m rest) (λ b.
          Leads-then _ _ (emit-Leads rest _ _)
            (λ u. Leads-bind _ _ (sanitize-Leads rest) (λ n. Leads-pure (suc n) (λ w h. h)))))
    | inr a ↦ rw a (weaken m rest a (sanitize-Leads rest))
  ]

Pending-all :
    (labels rest : List Text)
    → ((l : Text) → has_label labels l ≡ true → has_label rest l ≡ true)
    → Pending rest labels
unfolding has_label
Pending-all [] rest h = tt
Pending-all (l ∷ ls) rest h = (
  inr (h l (ground (arith, text_eq_refl l))),
  Pending-all ls rest (λ m c. h m (ground (arith, c))),
)

-- If the sanitizing of a newly adopted issue returns, none of the labels that a peer may not set is
-- left on the issue: not the approval to land, not the mark of a proposal, no phase but `graphed`, and
-- no status but `open`.
pub sanitize_inbound_labels-IsClean :
    {X : Type 0} (repo : CrosslinkRepo X) (laws : LabelLaws repo) (issue_id : ℤ) (n : ℕ)
    (w : World X)
    → (sanitize_inbound_labels repo issue_id (laws.labels_of issue_id w.ext) w).0 ≡ ok n
    → IsClean (
        laws.labels_of issue_id
          (sanitize_inbound_labels repo issue_id (laws.labels_of issue_id w.ext) w).1.ext)
sanitize_inbound_labels-IsClean repo laws issue_id n w e =
    let labels = laws.labels_of issue_id w.ext in
    ((sanitize-Leads repo laws issue_id labels).at w
      (record { holds = Pending-all labels labels (λ l h. h) }) n e).holds
