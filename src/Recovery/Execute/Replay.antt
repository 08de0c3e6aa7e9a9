-- ===== src/Recovery/Execute/Replay.antt =====
-- The replay of a worker's DONE after a crash, once the build pump has posted its comments.
use vetinari.Prelude.{
  ℕ, suc, ◌+◌, ◌≡◌, refl, ◌⊎◌, inl, inr, Bool, Text, List, [], ◌∷◌, Result, ok, err, Bool-cases,
  arith,
}
use vetinari.Prelude.Int.{ℤ, show_i64}
use vetinari.Prelude.Exec.{pure, continue, mapping_err, ◌>>=◌, ◌>>◌}
use vetinari.Error.{RecoveryError}
use vetinari.State.Db.{execute}
use vetinari.State.Ledger.{is_posted}
use vetinari.World.{World, in_db}
use vetinari.World.Tracker.{CrosslinkRepo}
use vetinari.Artifacts.Plan.{TranslationItem}
use vetinari.Pump.Site.{Site}
use vetinari.Pump.Steps.{post_plan}
use vetinari.Pump.Steps.Once.{AllPosted, Remembers, remembered, counted, plan-Leads}
use vetinari.Recovery.Execute.{post_items, post_unless}

-- A run that returned 0 or failed, and touched nothing but the count of statements
abbrev pub Nothing : {X : Type 0} → World X → Result RecoveryError ℕ × World X → Type 0
Nothing v (r, w) =
    ((r ≡ ok 0) ⊎ ((e : RecoveryError) × (r ≡ err e)))
    × (w.ext ≡ v.ext)
    × (w.db.tables ≡ v.db.tables)

-- Nothing was posted by an item, and nothing by the rest.
none_more :
    (m : ℕ)
    → (◌≡◌ {A = Result RecoveryError ℕ} (ok m) (ok 0))
      ⊎ ((e : RecoveryError) × (◌≡◌ {A = Result RecoveryError ℕ} (ok m) (err e)))
    → (◌≡◌ {A = Result RecoveryError ℕ} (ok (0 + m)) (ok 0))
      ⊎ ((e : RecoveryError) × (◌≡◌ {A = Result RecoveryError ℕ} (ok (0 + m)) (err e)))
none_more m (inl none) = inl (ground arith)
none_more m (inr (e, failed)) = absurd (cc failed)

after_item :
    {X : Type 0} (v w : World X) (r : Result RecoveryError ℕ)
    → Nothing v (r, w)
    → Nothing v (continue r (λ m. pure (0 + m)) w)
unfolding pure
after_item v w (ok m) h = (none_more m h.0, h.1, h.2)
after_item v w (err e) h = h

again :
    {X : Type 0} (repo : CrosslinkRepo X) (i : ℤ) (u : Text) (items : List TranslationItem)
    (v : World X)
    → AllPosted i items v
    → Nothing v (post_items repo (show_i64 i) i u items v)
unfolding post_items post_unless is_posted execute in_db mapping_err ◌>>=◌ ◌>>◌
again repo i u [] v h = (inl refl, refl, refl)
again repo i u (item ∷ items) v h = elim (Bool-cases (v.db.fails v.db.statements)) [
  | inl fails ↦ rw fails (inr (_, refl), refl, refl)
  | inr works ↦ rw works (
      rw h.0.holds
        (after_item v _ _ (again repo i u items _ (counted i items (suc v.db.statements) v h.1))))
]

-- A crash between the comments of a worker and the end of its round does not double them. After the
-- build pump posted a plan, and from any later state whose ledger has forgotten nothing, the replay
-- of the same plan by recovery posts nothing: it returns zero or fails, crosslink is not asked, and no
-- table changes.
pub replay_posts_nothing :
    {X : Type 0} (site : Site X) (repo : CrosslinkRepo X) (i : ℤ) (u u' tag : Text)
    (b has_followup : Bool) (items : List TranslationItem) (w v : World X)
    → (post_plan site i u tag b items w).0 ≡ ok has_followup
    → Remembers (post_plan site i u tag b items w).1 v
    → (((post_items repo (show_i64 i) i u' items v).0 ≡ ok 0)
        ⊎ ((e : RecoveryError) × ((post_items repo (show_i64 i) i u' items v).0 ≡ err e)))
      × ((post_items repo (show_i64 i) i u' items v).1.ext ≡ v.ext)
      × ((post_items repo (show_i64 i) i u' items v).1.db.tables ≡ v.db.tables)
replay_posts_nothing site repo i u u' tag b has_followup items w v h r =
    again repo i u' items v
      (remembered i items _ v r ((plan-Leads site i u tag b items).at w tt has_followup h))
