-- ===== src/Names.antt =====
-- `WorkspaceName` of crates/orchestrator/src/workspace.rs: the name of a worker's workspace.
pub mod Laws
pub mod Tests
use vetinari.Prelude.{
  ℕ, Bool, true, false, not, ◌&&◌, ◌||◌, Text, codes, text_eq, strip_prefix, Option, none, some,
  List, [], ◌∷◌, ◌++◌, all, length, leb, ◌==◌, is_digit, if◌then◌else◌,
}
use vetinari.Prelude.Int.{parse_u32, show_nat}
use vetinari.State.Enums.{Phase, phase_enum, as_str, from_db_str}
use vetinari.Landing.Slug.{dash, fold, trim}

pub record WorkspaceName : Type 0 where
  pub phase : Phase
  pub issue : Text
  pub round : ℕ
  pub uuid : Text

abbrev short_uuid_len : ℕ
short_uuid_len = 8

-- Character for character the loop of `slugify` in landing.rs, with no cap.
unfoldable pub sanitize : Text → Text
sanitize raw = trim dash (fold false raw)

abbrev or_empty_issue : Text → Text
or_empty_issue [] = codes "issue"
or_empty_issue (c ∷ cs) = c ∷ cs

unfoldable pub from_parts : Phase → Text → ℕ → Text → WorkspaceName
from_parts phase issue_id round uuid = record {
  phase = phase;
  issue = or_empty_issue (sanitize issue_id);
  round = round;
  uuid = sanitize uuid;
}

unfoldable pub rendered : WorkspaceName → Text
rendered n = as_str n.phase ++ dash ∷ (n.issue ++ dash ∷ (b'r' ∷ show_nat n.round ++ dash ∷ n.uuid))

-- `s.rsplit_once('-')`
unfoldable pub rsplit_once : Text → Option (Text × Text)
rsplit_once [] = none
rsplit_once (c ∷ cs) = elim (rsplit_once cs) [
  | some (head, tail) ↦ some (c ∷ head, tail)
  | none ↦ if c == dash then some ([], cs) else none
]

abbrev is_lower_hex : ℕ → Bool
is_lower_hex b = is_digit b || leb b'a' b && leb b b'f'

-- The prefixes of `head` that end before a dash, in order; `before` is what was passed.
unfoldable pub match_phase_from : Text → Text → Option (Phase × Text)
match_phase_from before [] = none
match_phase_from before (c ∷ cs) =
    let rest = match_phase_from (before ++ c ∷ []) cs in
    if c == dash
    then elim (from_db_str before) [ some phase ↦ some (phase, cs) | none ↦ rest ]
    else rest

unfoldable pub match_phase : Text → Option (Phase × Text)
match_phase head = match_phase_from [] head

-- `round_tok.strip_prefix('r')?.parse().ok()?`, if that is how the round is printed
canonical : Text → Option ℕ → Option ℕ
canonical tok none = none
canonical tok (some round) = if text_eq tok (b'r' ∷ show_nat round) then some round else none

parsed_digits : Option Text → Option ℕ
parsed_digits none = none
parsed_digits (some digits) = parse_u32 digits

unfoldable pub round_of : Text → Option ℕ
unfolding canonical parsed_digits
round_of tok = canonical tok (parsed_digits (strip_prefix (codes "r") tok))

with_phase : ℕ → Text → Option (Phase × Text) → Option WorkspaceName
with_phase round uuid none = none
with_phase round uuid (some (phase, [])) = none
with_phase round uuid (some (phase, c ∷ issue)) =
    some (record { phase = phase; issue = c ∷ issue; round = round; uuid = uuid })

with_round : Text → Text → Option ℕ → Option WorkspaceName
unfolding with_phase
with_round head uuid none = none
with_round head uuid (some round) = with_phase round uuid (match_phase head)

with_head : Text → Option (Text × Text) → Option WorkspaceName
unfolding with_round
with_head uuid none = none
with_head uuid (some (head, tok)) = with_round head uuid (round_of tok)

with_uuid : Option (Text × Text) → Option WorkspaceName
unfolding with_head
with_uuid none = none
with_uuid (some (head, uuid)) =
    if length uuid == short_uuid_len && all is_lower_hex uuid
    then with_head uuid (rsplit_once head)
    else none

unfoldable pub parse : Text → Option WorkspaceName
unfolding with_uuid
parse s = with_uuid (rsplit_once s)
