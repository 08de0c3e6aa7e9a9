-- ===== src/Answer/Retry/Laws.antt =====
-- The bounds on retries, and that an accepted slug is one path segment.
use native.Mathlib.Nat.{mod-lt}
use vetinari.Prelude.{
  ℕ, ◌+◌, ◌/◌, ◌%◌, ◌≤◌, ◌<◌, ◌≡◌, ◌≢◌, true, Text, codes, text_eq_iff, [], ◌∷◌, all, All, length,
  leb, arith, Bool-cases, inl, inr,
}
use vetinari.Prelude.Int.{ℤ, pos, unsigned_abs, i64_max}
use vetinari.Answer.Retry.{
  max_answer_attempts, retry_jitter_s, due_after, too_early, attempt, retry_guard,
  is_valid_peer_slug, is_slug_byte, max_peer_slug_len,
}

jitter_bound : (issue_id : ℤ) (n : ℕ) → retry_jitter_s issue_id (pos n) ≤ n / 4
unfolding retry_jitter_s
jitter_bound issue_id n = elim (Bool-cases (leb (n / 4) 0)) [
  | inl e ↦ rw e (ground arith)
  | inr e ↦ rw e (
      let bound : unsigned_abs issue_id % (n / 4) < n / 4 =
        mod-lt (unsigned_abs issue_id) {m = n / 4} (ground arith) in
      ground arith)
]

-- The verdict of the retry guard: it says `attempt` only under the bound of attempts and no sooner
-- than a full interval after the row was last written; and under the bound it says so once the
-- interval and a quarter of it have passed: the jitter only delays, and by a quarter of the interval
-- at most. Whether the sweep gets to a row that is due is not said.
pub retry_guard_lem :
    (issue_id : ℤ) (attempts interval updated_at now : ℕ)
    → interval + interval / 4 ≤ i64_max
    → (retry_guard issue_id attempts (pos interval) updated_at now ≡ attempt
        → (attempts < max_answer_attempts) × (updated_at + interval ≤ now))
      × (attempts < max_answer_attempts
          → updated_at + (interval + interval / 4) ≤ now
          → retry_guard issue_id attempts (pos interval) updated_at now ≡ attempt)
unfolding retry_guard too_early due_after
retry_guard_lem issue_id attempts interval updated_at now fits =
    let j = jitter_bound issue_id interval in ground arith

slug_byte_ok : (c : ℕ) → is_slug_byte c ≡ true → c ≢ b'/'
slug_byte_ok c h e = ground arith

all_bytes : (s : Text) → all is_slug_byte s ≡ true → All (λ c. c ≢ b'/') s
all_bytes [] h = tt
all_bytes (c ∷ cs) h = ground (arith, slug_byte_ok c, all_bytes cs)

-- A peer slug that is accepted is one path segment below the socket directory: it is not empty, not
-- `.` and not `..`, holds no `/`, and is at most 128 bytes long.
pub valid_slug_lem :
    (slug : Text)
    → is_valid_peer_slug slug ≡ true
    → (slug ≢ [])
      × (slug ≢ codes ".")
      × (slug ≢ codes "..")
      × All (λ c. c ≢ b'/') slug
      × (length slug ≤ max_peer_slug_len)
unfolding is_valid_peer_slug
valid_slug_lem slug h = ground (
  arith,
  text_eq_iff slug [],
  text_eq_iff slug (codes "."),
  text_eq_iff slug (codes ".."),
  all_bytes slug,
)
