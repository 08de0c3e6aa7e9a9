-- ===== src/World/Log.antt =====
-- The state of `EventLog`: the lines of `events.jsonl`.
use vetinari.Prelude.{ℕ, Bool, Text, Option, List}
use vetinari.State.Rows.{Payload}

pub record EventLine : Type 0 where
  pub ts : ℕ
  pub kind : Text
  pub issue_id : Option Text
  pub worker_uuid : Option Text
  pub payload : Payload

pub record EventLog : Type 0 where
  pub lines : List EventLine
  pub writes : ℕ
  pub write_fails : ℕ → Bool
