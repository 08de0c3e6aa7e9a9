-- ===== src/Pump/Steps/Once.antt =====
-- What a translated plan leaves in the ledger, and that the same plan is not posted again.
use vetinari.Prelude.{
  ℕ, ◌≡◌, refl, Bool, true, false, Text, List, [], ◌∷◌, ok, arith, Bool-cases, inl, inr,
}
use vetinari.Prelude.Int.{ℤ}
use vetinari.Prelude.Exec.{Exec, mapping_err, ◌>>=◌, ◌>>◌}
use vetinari.Prelude.Exec.Keeps.{Keeps, Keeps-bind, Keeps-then, keeps_rules}
use vetinari.Prelude.Exec.Returns.{
  Leads, Leads-bind, Leads-then, Leads-pure, Leads-any, Leads-mapping_err,
}
use vetinari.Error.{PumpError, state}
use vetinari.State.Rows.{PostedArtifact}
use vetinari.State.Db.{execute}
use vetinari.State.Ledger.{Key, key_of, has_key, is_posted, record_posted}
use vetinari.State.Ledger.Laws.{has_key-insert, key_eq_iff}
use vetinari.World.{World, in_db, in_ext}
use vetinari.Answer.Delivery.{db_step}
use vetinari.Artifacts.Plan.{TranslationItem}
use vetinari.Pump.Site.{Site}
use vetinari.Pump.Steps.{post_item, post_plan, item_key}

-- A row of the ledger has the key.
pub record IsPosted {X : Type 0} (k : Key) (w : World X) : Type 0 where
  pub holds : has_key k w.db.tables.posted ≡ true

module _ {X : Type 0} (k : Key) where
  read-Keeps : (j : Key) → Keeps (IsPosted {X = X} k) (in_db (is_posted j))
  unfolding in_db is_posted execute
  read-Keeps j = record { at = λ w h. record { holds = ground (arith, h.holds) } }

  record-Keeps : (p : PostedArtifact) → Keeps (IsPosted {X = X} k) (in_db (record_posted p))
  unfolding in_db record_posted execute
  record-Keeps p = record {
    at = λ w h. record { holds = ground (arith, h.holds, has_key-insert k p w.db.tables.posted) };
  }

  ext-Keeps : {E A : Type 0} (m : Exec E X A) → Keeps (IsPosted k) (in_ext m)
  unfolding in_ext
  ext-Keeps m = record { at = λ w h. record { holds = h.holds } }

  read-Leads :
      Leads {E = PumpError} {S = World X}
        (λ w. Unit {0})
        (λ b w. b ≡ true → IsPosted k w)
        (db_step (is_posted k))
  unfolding in_db is_posted execute
  read-Leads =
      Leads-mapping_err state _
        (record { at = λ w h b e found. record { holds = ground (arith, e, found) } })

record-Leads :
    {X : Type 0} (p : PostedArtifact)
    → Leads {E = PumpError} {S = World X}
        (λ w. Unit {0})
        (λ b w. IsPosted (key_of p) w)
        (db_step (record_posted p))
unfolding in_db record_posted execute
record-Leads p = Leads-mapping_err state _ (record {
  at = λ w h b e. record {
    holds = ground (
      arith,
      e,
      has_key-insert (key_of p) p w.db.tables.posted,
      key_eq_iff (key_of p) (key_of p),
    );
  };
})

ruleset ledger_rules = (keeps_rules, read-Keeps, record-Keeps, ext-Keeps)

module _ {X : Type 0} (site : Site X) (i : ℤ) (u tag : Text) where
  item-Keeps :
      (k : Key) (item : TranslationItem) (b : Bool)
      → Keeps (IsPosted k) (post_item site i u tag item b)
  unfolding post_item
  item-Keeps k item true = search ledger_rules
  item-Keeps k item false = search ledger_rules depth 12

  plan-Keeps :
      (k : Key) (b : Bool) (items : List TranslationItem)
      → Keeps (IsPosted k) (post_plan site i u tag b items)
  unfolding post_plan
  plan-Keeps k b [] = search ledger_rules
  plan-Keeps k b (item ∷ items) =
      Keeps-bind _ _ (search ledger_rules)
        (λ posted. Keeps-then _ _ (item-Keeps k item posted) (plan-Keeps k _ items))

  item-Leads :
      (item : TranslationItem) (b : Bool)
      → Leads
          (λ w. b ≡ true → IsPosted (item_key i item) w)
          (λ x w. IsPosted (item_key i item) w)
          (post_item site i u tag item b)
  unfolding post_item
  item-Leads item true = Leads-pure tt (λ w h. h refl)
  item-Leads item false = Leads-any _ _ (λ comment.
      Leads-any _ _ (λ now. Leads-then _ _ (record-Leads _) (λ recorded. Leads-pure tt (λ w h. h))))

-- Each item of a plan has a row.
abbrev pub AllPosted : {X : Type 0} → ℤ → List TranslationItem → World X → Type 0
AllPosted i [] w = Unit
AllPosted i (item ∷ items) w = IsPosted (item_key i item) w × AllPosted i items w

-- The ledger of `v` with a statement counted
pub counted :
    {X : Type 0} (i : ℤ) (items : List TranslationItem) (n : ℕ) (v : World X)
    → AllPosted i items v
    → AllPosted i items (record v { db = record v.db { statements = n } })
counted i [] n v h = tt
counted i (item ∷ items) n v h = (record { holds = h.0.holds }, counted i items n v h.1)

module _ {X : Type 0} (site : Site X) (i : ℤ) where
  pub plan-Leads :
      (u tag : Text) (b : Bool) (items : List TranslationItem)
      → Leads (λ w. Unit {0}) (λ x w. AllPosted i items w) (post_plan site i u tag b items)
  unfolding post_plan
  plan-Leads u tag b [] = Leads-pure b (λ w h. tt)
  plan-Leads u tag b (item ∷ items) = Leads-bind _ _ (read-Leads (item_key i item)) (λ posted.
      Leads-then _ _ (item-Leads site i u tag item posted) (λ done. record {
        at = λ w h c e. (
          (plan-Keeps site i u tag (item_key i item) _ items).at w h,
          (plan-Leads u tag _ items).at w tt c e,
        );
      }))

  again :
      (u tag : Text) (items : List TranslationItem) (b : Bool) (v : World X)
      → AllPosted i items v
      → ((post_plan site i u tag b items v).1.ext ≡ v.ext)
        × ((post_plan site i u tag b items v).1.db.tables ≡ v.db.tables)
  unfolding post_plan post_item is_posted execute in_db mapping_err ◌>>=◌ ◌>>◌
  again u tag [] b v h = (refl, refl)
  again u tag (item ∷ items) b v h = elim (Bool-cases (v.db.fails v.db.statements)) [
    | inl fails ↦ rw fails (refl, refl)
    | inr works ↦ rw works (rw (h.0.holds) (again u tag items _ _ (counted i items _ v h.1)))
  ]

-- Everything that was known of the ledger of one state is known of the other's.
abbrev pub Remembers : {X : Type 0} → World X → World X → Type 0
Remembers w v =
    (k : Key) → has_key k w.db.tables.posted ≡ true → has_key k v.db.tables.posted ≡ true

pub remembered :
    {X : Type 0} (i : ℤ) (items : List TranslationItem) (w v : World X)
    → Remembers w v
    → AllPosted i items w
    → AllPosted i items v
remembered i [] w v r h = tt
remembered i (item ∷ items) w v r h =
    (record { holds = r (item_key i item) h.0.holds }, remembered i items w v r h.1)

-- The artifacts of a worker are posted once. After the comments of a plan were posted, and from any
-- later state whose ledger has forgotten nothing, the same plan posts nothing more, whichever attempt
-- of the issue brings it: crosslink is not asked, and no table changes, whether or not the reads of
-- the ledger succeed.
pub plan_posted_once :
    {X : Type 0} (site : Site X) (i : ℤ) (u u' tag tag' : Text) (b b' has_followup : Bool)
    (items : List TranslationItem) (w v : World X)
    → (post_plan site i u tag b items w).0 ≡ ok has_followup
    → Remembers (post_plan site i u tag b items w).1 v
    → ((post_plan site i u' tag' b' items v).1.ext ≡ v.ext)
      × ((post_plan site i u' tag' b' items v).1.db.tables ≡ v.db.tables)
plan_posted_once site i u u' tag tag' b b' has_followup items w v h r =
    again site i u' tag' items b' v
      (remembered i items _ v r ((plan-Leads site i u tag b items).at w tt has_followup h))
