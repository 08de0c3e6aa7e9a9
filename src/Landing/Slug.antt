-- ===== src/Landing/Slug.antt =====
-- The branch name of an issue, and the owner and repository of a remote's URL.
pub mod Laws
pub mod Tests
use vetinari.Prelude.{
  ℕ, zero, suc, ◌+◌, Bool, true, false, ◌&&◌, ◌||◌, not, Text, codes, Option, none, some, List, [],
  ◌∷◌, ◌++◌, length, take, drop, any, leb, ◌==◌, is_digit, is_lower, is_upper, if◌then◌else◌,
  text_eq, strip_prefix,
}
use mathlib.Core.List.{reverse}

abbrev pub dash : ℕ
dash = b'-'

-- `is_ascii_alphanumeric`
abbrev pub is_alphanumeric : ℕ → Bool
is_alphanumeric c = is_digit c || (is_lower c || is_upper c)

-- `to_ascii_lowercase`
abbrev pub lower : ℕ → ℕ
lower c = if is_upper c then c + 32 else c

-- The loop over the characters; the flag is `prev_dash`.
unfoldable pub fold : Bool → Text → Text
fold prev_dash [] = []
fold prev_dash (c ∷ cs) =
    if is_alphanumeric c
    then lower c ∷ fold false cs
    else if not prev_dash
    then dash ∷ fold true cs
    else fold prev_dash cs

-- `trim_start_matches`
unfoldable pub trim_start : ℕ → Text → Text
trim_start d [] = []
trim_start d (c ∷ cs) = if c == d then trim_start d cs else c ∷ cs

-- `trim_end_matches`
unfoldable pub trim_end : ℕ → Text → Text
trim_end d [] = []
trim_end d (c ∷ cs) =
    let rest = trim_end d cs in
    elim rest [ [] ↦ if c == d then [] else c ∷ [] | r ∷ rs ↦ c ∷ r ∷ rs ]

-- `trim_matches`
unfoldable pub trim : ℕ → Text → Text
unfolding trim_start trim_end
trim d s = trim_end d (trim_start d s)

-- `s.rfind(d).map(|i| &s[..i])`
unfoldable pub before_last : ℕ → Text → Option Text
before_last d [] = none
before_last d (c ∷ cs) = elim (before_last d cs) [
  | some head ↦ some (c ∷ head)
  | none ↦ if c == d then some [] else none
]

abbrev or_all : Text → Option Text → Text
or_all s none = s
or_all s (some head) = head

-- `none` is `usize::MAX`, which no text exceeds.
unfoldable pub capped : Option ℕ → Text → Text
capped none trimmed = trimmed
capped (some max_len) trimmed =
    if leb (length trimmed) max_len
    then trimmed
    else trim dash (or_all (take max_len trimmed) (before_last dash (take max_len trimmed)))

unfoldable pub slugify : Text → Option ℕ → Text
slugify raw max_len = capped max_len (trim dash (fold false raw))

abbrev or_issue : Text → Text
or_issue [] = codes "issue"
or_issue (c ∷ cs) = c ∷ cs

abbrev with_slug : Text → Text → Text
with_slug id [] = codes "vdd/" ++ id
with_slug id (c ∷ cs) = codes "vdd/" ++ id ++ dash ∷ c ∷ cs

unfoldable pub branch_name : Text → Text → Text
branch_name issue_id title = with_slug (or_issue (slugify issue_id none)) (slugify title (some 40))
