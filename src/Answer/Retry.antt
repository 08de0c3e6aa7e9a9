-- ===== src/Answer/Retry.antt =====
-- When an answer that failed is tried again, and which peer slugs may be put into a path.
pub mod Laws
use vetinari.Prelude.{
  ℕ, zero, suc, ◌+◌, ◌/◌, ◌%◌, ◌-◌, Bool, true, false, not, ◌&&◌, ◌||◌, Text, codes, text_eq, List,
  [], ◌∷◌, all, length, leb, ltb, ◌==◌, is_digit, is_lower, is_upper, if◌then◌else◌,
}
use vetinari.Prelude.Int.{ℤ, pos, negsuc, unsigned_abs, i64_max}

abbrev pub max_answer_attempts : ℕ
max_answer_attempts = 12

abbrev pub max_answer_deliveries_per_tick : ℕ
max_answer_deliveries_per_tick = 2

abbrev pub max_peer_slug_len : ℕ
max_peer_slug_len = 128

-- `i64` division rounds to 0, so a negative interval has no positive span.
unfoldable pub retry_jitter_s : ℤ → ℤ → ℕ
retry_jitter_s issue_id (negsuc n) = 0
retry_jitter_s issue_id (pos n) =
    let span = n / 4 in if leb span 0 then 0 else unsigned_abs issue_id % span

-- `saturating_add` of a number that is not negative
abbrev saturating_add : ℤ → ℕ → ℤ
saturating_add (pos a) b = pos (if leb (a + b) i64_max then a + b else i64_max)
saturating_add (negsuc a) b = if ltb a b then pos (b - suc a) else negsuc (a - b)

unfoldable pub due_after : ℤ → ℤ → ℤ
due_after issue_id interval = saturating_add interval (retry_jitter_s issue_id interval)

-- `now.saturating_sub(updated_at) < due`
unfoldable pub too_early : ℕ → ℕ → ℤ → Bool
too_early now updated_at (pos d) = ltb now (updated_at + d)
too_early now updated_at (negsuc d) = ltb (now + suc d) updated_at

pub data SkipReason : Type 0 where
  rate_limited bound_exhausted : SkipReason

pub data Verdict : Type 0 where
  attempt : Verdict
  skip : SkipReason → Verdict

-- The guards on the retry of an unreachable answer: the bound first, then the rate limit.
unfoldable pub retry_guard : ℤ → ℕ → ℤ → ℕ → ℕ → Verdict
retry_guard issue_id answer_attempts interval updated_at now =
    if leb max_answer_attempts answer_attempts
    then skip bound_exhausted
    else if too_early now updated_at (due_after issue_id interval)
    then skip rate_limited
    else attempt

abbrev is_slug_byte : ℕ → Bool
is_slug_byte b =
    (is_digit b || (is_lower b || is_upper b)) || (b == b'.' || (b == b'_' || b == b'-'))

unfoldable pub is_valid_peer_slug : Text → Bool
is_valid_peer_slug slug =
    not (text_eq slug [])
    && (leb (length slug) max_peer_slug_len
        && (not (text_eq slug (codes "."))
            && (not (text_eq slug (codes "..")) && all is_slug_byte slug)))
