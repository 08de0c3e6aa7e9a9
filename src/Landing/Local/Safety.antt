-- ===== src/Landing/Local/Safety.antt =====
-- `main` only moves forward.
use vetinari.Prelude.{◌≡◌, Text, codes, some, Result, ok, err, if◌then◌else◌, Bool, true, false}
use vetinari.Prelude.Exec.Keeps.{Keeps, keeps_rules}
use vetinari.Error.{LandingError, not_fast_forward}
use vetinari.State.Enums.{
  PhaseSubstate, rebase_started, rebase_done_bookmark_pending, bookmark_moved_complete, merging,
}
use vetinari.World.{World, in_ext}
use vetinari.World.Jj.{Jj, JjLaws, CommitInfo}
use vetinari.World.Rules.{OnExt, OnExt-in_ext}
use vetinari.Manager.{resolve_change, rebase, is_ancestor, bookmark_target, fast_forward_bookmark}
use vetinari.Manager.Safety.{IsAhead, IsAhead-refl, reads_keep, fast_forward-Keeps}
use vetinari.Landing.{main_bookmark}
use vetinari.Landing.Steps.{set_phase-OnExt, emit_transition-OnExt}
use vetinari.Landing.Local.{
  merged_step, complete_move, park, after_move, move_step, bookmark_step, after_rebase, rebase_step,
  resume_from, retry_land_after_merge,
}

module _ {X : Type 0} (jj : Jj X) (l : JjLaws jj) (k : Text) (x₀ : X) where
  abbrev Ahead : World X → Type 0
  Ahead = OnExt (IsAhead jj l x₀)

  target-Keeps : Keeps Ahead (in_ext {E = LandingError} (bookmark_target jj main_bookmark))
  target-Keeps =
      OnExt-in_ext _ (reads_keep jj l x₀ main_bookmark main_bookmark main_bookmark main_bookmark).0

  resolve-Keeps : (r : Text) → Keeps Ahead (in_ext (resolve_change jj r))
  resolve-Keeps r = OnExt-in_ext _ (reads_keep jj l x₀ r r r r).1

  ancestor-Keeps : (a d : Text) → Keeps Ahead (in_ext (is_ancestor jj a d))
  ancestor-Keeps a d = OnExt-in_ext _ (reads_keep jj l x₀ a a a d).2

  rebase-Keeps : (r : Text) → Keeps Ahead (in_ext (rebase jj r main_bookmark))
  rebase-Keeps r = OnExt-in_ext _ (reads_keep jj l x₀ r r r r).3

  forward-Keeps : (r : Text) → Keeps Ahead (in_ext (fast_forward_bookmark jj main_bookmark r))
  forward-Keeps r = OnExt-in_ext _ (fast_forward-Keeps jj l x₀ r)

  choice-Keeps :
      (b : Bool) (r : Text)
      → Keeps Ahead (in_ext (if b then resolve_change jj r else rebase jj r main_bookmark))
  choice-Keeps true r = resolve-Keeps r
  choice-Keeps false r = rebase-Keeps r

  after_move-Keeps : (r : Result LandingError (Unit {0})) → Keeps Ahead (after_move jj k r)
  unfolding after_move complete_move merged_step park
  after_move-Keeps (ok u) = search (keeps_rules, set_phase-OnExt, emit_transition-OnExt)
  after_move-Keeps (err (not_fast_forward b c t)) =
      search (keeps_rules, set_phase-OnExt, emit_transition-OnExt)
  after_move-Keeps (err other) = search keeps_rules

  pub move_step-Keeps : (target : Text) → Keeps Ahead (move_step jj k target)
  unfolding move_step complete_move merged_step
  move_step-Keeps target =
      search
        (
          keeps_rules, set_phase-OnExt, emit_transition-OnExt, target-Keeps, forward-Keeps,
          after_move-Keeps,
        )
        depth 9

  after_rebase-Keeps : (t : CommitInfo) → Keeps Ahead (after_rebase jj k t)
  unfolding after_rebase
  after_rebase-Keeps t =
      search (keeps_rules, set_phase-OnExt, emit_transition-OnExt, move_step-Keeps) depth 9

  pub resume-Keeps :
      (change : Text) (from : PhaseSubstate) → Keeps Ahead (resume_from jj k change from)
  unfolding resume_from rebase_step bookmark_step merged_step park
  resume-Keeps change rebase_started =
      search (keeps_rules, set_phase-OnExt, ancestor-Keeps, choice-Keeps, after_rebase-Keeps) depth
        9
  resume-Keeps change rebase_done_bookmark_pending =
      search (keeps_rules, resolve-Keeps, move_step-Keeps)
  resume-Keeps change bookmark_moved_complete =
      search (keeps_rules, set_phase-OnExt, emit_transition-OnExt)
  resume-Keeps change merging = search (keeps_rules, set_phase-OnExt, emit_transition-OnExt)
  resume-Keeps change other = search keeps_rules

  retry-Keeps : (merged : Text) → Keeps Ahead (retry_land_after_merge jj k merged)
  unfolding retry_land_after_merge
  retry-Keeps merged = search (keeps_rules, set_phase-OnExt, move_step-Keeps)

-- `main` is never rewound: from any substate, with any change, whatever fails on the way, a run of
-- the landing machine or of the retry after a merge leaves `main` at the commit where it stood or at
-- a descendant of it.
pub main_only_forward :
    {X : Type 0} (jj : Jj X) (l : JjLaws jj) (k change : Text) (from : PhaseSubstate) (w : World X)
    (c : Text)
    → l.target (codes "main") w.ext ≡ some c
    → ((t : Text) × (l.target (codes "main") (resume_from jj k change from w).1.ext ≡ some t)
        × l.Ancestor c t)
      × ((t : Text) × (l.target (codes "main") (retry_land_after_merge jj k change w).1.ext
            ≡ some t)
          × l.Ancestor c t)
main_only_forward jj l k change from w c here =
    let start : OnExt (IsAhead jj l w.ext) w = record { holds = IsAhead-refl jj l w.ext } in
    (
      ((resume-Keeps jj l k w.ext change from).at w start).holds.ahead c here,
      ((retry-Keeps jj l k w.ext change).at w start).holds.ahead c here,
    )
