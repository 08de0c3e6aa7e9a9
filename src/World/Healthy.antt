-- ===== src/World/Healthy.antt =====
-- A world whose statements and log writes do not fail.
use vetinari.Prelude.{ℕ, ◌≡◌, refl, false, Text, arith, ok, Option}
use vetinari.Prelude.Exec.{Exec}
use vetinari.Prelude.Exec.Keeps.{Keeps, keeps_rules}
use vetinari.Prelude.Exec.Succeeds.{Succeeds, Succeeds-bind, Succeeds-then, Succeeds-pure}
use vetinari.State.Enums.{EventKind}
use vetinari.State.Rows.{Tables, EventRow, Payload}
use vetinari.State.Db.{StateDb, execute}
use vetinari.State.Ledger.{append_event}
use vetinari.World.{World, in_db, in_log, in_ext}
use vetinari.World.Log.{EventLog}
use vetinari.Events.{emit, append}

pub record DbWorks (db : StateDb) : Type 0 where
  pub never : (n : ℕ) → db.fails n ≡ false

pub record LogWorks (log : EventLog) : Type 0 where
  pub never : (n : ℕ) → log.write_fails n ≡ false

pub record Healthy {X : Type 0} (w : World X) : Type 0 where
  pub db_works : DbWorks w.db
  pub log_works : LogWorks w.log

fails-execute :
    {A : Type 0} (c : Text) (f : ℕ → Tables → A × Tables) (db : StateDb)
    → (execute c f db).1.fails ≡ db.fails
unfolding execute
fails-execute c f db = ground arith

module _ {A : Type 0} where
  pub DbWorks-execute : (c : Text) (f : ℕ → Tables → A × Tables) → Keeps DbWorks (execute c f)
  DbWorks-execute c f = record {
    at = λ db h. record { never = λ n. rw (fails-execute c f db) (h.never n) };
  }

  execute-ok :
      (c : Text) (f : ℕ → Tables → A × Tables) (db : StateDb)
      → db.fails db.statements ≡ false
      → (a : A) × ((execute c f db).0 ≡ ok a)
  unfolding execute
  execute-ok c f db h = rw h ((f (db.now db.statements) db.tables).0, refl)

  pub Succeeds-execute : (c : Text) (f : ℕ → Tables → A × Tables) → Succeeds DbWorks (execute c f)
  Succeeds-execute c f = record { returns = λ db h. execute-ok c f db (h.never db.statements) }

module _ {E A X : Type 0} where
  pub Healthy-in_db : (m : Exec E StateDb A) → Keeps DbWorks m → Keeps (Healthy {X = X}) (in_db m)
  unfolding in_db
  Healthy-in_db m k = record {
    at = λ w h. record { db_works = k.at w.db h.db_works; log_works = h.log_works };
  }

  pub Healthy-in_log :
      (m : Exec E EventLog A) → Keeps LogWorks m → Keeps (Healthy {X = X}) (in_log m)
  unfolding in_log
  Healthy-in_log m k = record {
    at = λ w h. record { db_works = h.db_works; log_works = k.at w.log h.log_works };
  }

  pub Healthy-in_ext : (m : Exec E X A) → Keeps Healthy (in_ext m)
  unfolding in_ext
  Healthy-in_ext m = record {
    at = λ w h. record { db_works = h.db_works; log_works = h.log_works };
  }

  pub Succeeds-in_db :
      (m : Exec E StateDb A) → Succeeds DbWorks m → Succeeds (Healthy {X = X}) (in_db m)
  unfolding in_db
  Succeeds-in_db m s = record { returns = λ w h. s.returns w.db h.db_works }

  pub Succeeds-in_log :
      (m : Exec E EventLog A) → Succeeds LogWorks m → Succeeds (Healthy {X = X}) (in_log m)
  unfolding in_log
  Succeeds-in_log m s = record { returns = λ w h. s.returns w.log h.log_works }

append-both :
    (e : EventRow) (log : EventLog)
    → log.write_fails log.writes ≡ false
    → ((append e log).0 ≡ ok tt) × ((append e log).1.write_fails ≡ log.write_fails)
unfolding append
append-both e log h = rw h (refl, refl)

pub LogWorks-append : (e : EventRow) → Keeps LogWorks (append e)
LogWorks-append e = record {
  at = λ log h. record { never = λ n. rw ((append-both e log (h.never log.writes)).1) (h.never n) };
}

pub Succeeds-append : (e : EventRow) → Succeeds LogWorks (append e)
Succeeds-append e = record { returns = λ log h. (tt, (append-both e log (h.never log.writes)).0) }

module _ {X : Type 0} where
  event-Keeps :
      (kind : EventKind) (i u : Option Text) (p : Payload)
      → Keeps (Healthy {X = X}) (in_db (append_event kind i u p))
  unfolding append_event
  event-Keeps kind i u p = Healthy-in_db _ (DbWorks-execute _ _)

  event-Succeeds :
      (kind : EventKind) (i u : Option Text) (p : Payload)
      → Succeeds (Healthy {X = X}) (in_db (append_event kind i u p))
  unfolding append_event
  event-Succeeds kind i u p = Succeeds-in_db _ (Succeeds-execute _ _)

  pub emit-Healthy :
      (kind : EventKind) (i u : Option Text) (p : Payload)
      → Keeps (Healthy {X = X}) (emit kind i u p)
  unfolding emit
  emit-Healthy kind i u p = search (keeps_rules, event-Keeps, Healthy-in_log, LogWorks-append)

  pub emit-Succeeds :
      (kind : EventKind) (i u : Option Text) (p : Payload)
      → Succeeds (Healthy {X = X}) (emit kind i u p)
  unfolding emit
  emit-Succeeds kind i u p =
      Succeeds-bind _ _ (event-Succeeds kind i u p) (event-Keeps kind i u p) (λ x.
        Succeeds-then _ _ (Succeeds-in_log _ (Succeeds-append _))
          (Healthy-in_log _ (LogWorks-append _)) (Succeeds-pure x.0))

pub ruleset healthy_rules =
    (DbWorks-execute, LogWorks-append, Healthy-in_db, Healthy-in_log, Healthy-in_ext, emit-Healthy)
