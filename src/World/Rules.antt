-- ===== src/World/Rules.antt =====
-- Invariants of actions on one part of the world: a predicate on one part is kept by what acts on
-- another, and by what acts on that part if it is kept there.
use vetinari.Prelude.Exec.{Exec}
use vetinari.Prelude.Exec.Keeps.{Keeps}
use vetinari.State.Db.{StateDb}
use vetinari.World.{World, in_db, in_log, in_ext}
use vetinari.World.Log.{EventLog}

pub record OnDb {X : Type 0} (P : StateDb → Type 0) (w : World X) : Type 0 where
  pub holds : P w.db

pub record OnExt {X : Type 0} (P : X → Type 0) (w : World X) : Type 0 where
  pub holds : P w.ext

module _ {E A X : Type 0} {P : StateDb → Type 0} where
  pub OnDb-in_db : (m : Exec E StateDb A) → Keeps P m → Keeps (OnDb {X = X} P) (in_db m)
  unfolding in_db
  OnDb-in_db m k = record { at = λ w h. record { holds = k.at w.db h.holds } }

  pub OnDb-in_log : (m : Exec E EventLog A) → Keeps (OnDb {X = X} P) (in_log m)
  unfolding in_log
  OnDb-in_log m = record { at = λ w h. record { holds = h.holds } }

  pub OnDb-in_ext : (m : Exec E X A) → Keeps (OnDb P) (in_ext m)
  unfolding in_ext
  OnDb-in_ext m = record { at = λ w h. record { holds = h.holds } }

module _ {E A X : Type 0} {P : X → Type 0} where
  pub OnExt-in_db : (m : Exec E StateDb A) → Keeps (OnExt P) (in_db m)
  unfolding in_db
  OnExt-in_db m = record { at = λ w h. record { holds = h.holds } }

  pub OnExt-in_log : (m : Exec E EventLog A) → Keeps (OnExt P) (in_log m)
  unfolding in_log
  OnExt-in_log m = record { at = λ w h. record { holds = h.holds } }

  pub OnExt-in_ext : (m : Exec E X A) → Keeps P m → Keeps (OnExt P) (in_ext m)
  unfolding in_ext
  OnExt-in_ext m k = record { at = λ w h. record { holds = k.at w.ext h.holds } }

pub ruleset world_rules =
    (OnDb-in_db, OnDb-in_log, OnDb-in_ext, OnExt-in_db, OnExt-in_log, OnExt-in_ext)
