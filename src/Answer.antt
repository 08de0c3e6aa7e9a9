-- ===== src/Answer.antt =====
-- crates/orchestrator/src/answer.rs: answering a peer's issue once it has ended.
pub mod Retry
pub mod Delivery
pub mod Sweep
pub mod Tests
use vetinari.Prelude.{
  Bool, Text, codes, Option, none, some, List, [], ◌∷◌, strip_prefix, any, text_eq,
}
use vetinari.State.Enums.{Phase, is_terminal}

abbrev pub xb_inbound : Text
xb_inbound = codes "xb:inbound"

abbrev pub xb_source_prefix : Text
xb_source_prefix = codes "xb-source:"

abbrev pub xb_ref_prefix : Text
xb_ref_prefix = codes "xb-ref:"

abbrev pub xb_status_answered : Text
xb_status_answered = codes "xb-status:answered"

abbrev pub phase_delivers_answer : Phase → Bool
phase_delivers_answer p = is_terminal p

unfoldable pub is_inbound : List Text → Bool
is_inbound labels = any (λ l. text_eq l xb_inbound) labels

-- The first label that starts with the prefix, without it.
unfoldable pub label_value : List Text → Text → Option Text
label_value [] prefix = none
label_value (l ∷ ls) prefix = elim (strip_prefix prefix l) [
  | some value ↦ some value
  | none ↦ label_value ls prefix
]
