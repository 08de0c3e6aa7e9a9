-- ===== src/World.antt =====
-- What the orchestrator's functions share: `state.db`, the event log, and everything outside the
-- program (the jj repository, crosslink, GitHub, the workers), a state `X` that the interfaces of
-- World/Jj.antt and World/Tracker.antt act on.
pub mod Log
pub mod Jj
pub mod Tracker
pub mod Rules
pub mod Toy
pub mod Healthy
use vetinari.Prelude.Exec.{Exec, within}
use vetinari.State.Db.{StateDb}
use Log.{EventLog}

pub record World (X : Type 0) : Type 0 where
  pub db : StateDb
  pub log : EventLog
  pub ext : X

module _ {E A X : Type 0} where
  unfoldable pub in_db : Exec E StateDb A → Exec E (World X) A
  unfolding within
  in_db = within (λ w. w.db) (λ d w. record w { db = d })

  unfoldable pub in_log : Exec E EventLog A → Exec E (World X) A
  unfolding within
  in_log = within (λ w. w.log) (λ l w. record w { log = l })

  unfoldable pub in_ext : Exec E X A → Exec E (World X) A
  unfolding within
  in_ext = within (λ w. w.ext) (λ x w. record w { ext = x })
