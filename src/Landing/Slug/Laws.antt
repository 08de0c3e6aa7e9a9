-- ===== src/Landing/Slug/Laws.antt =====
-- What a slug looks like: an automaton that reads it, independent of how it is made.
use vetinari.Prelude.{
  ℕ, zero, suc, ◌≤◌, ◌≡◌, refl, Bool, true, false, ◌&&◌, ◌||◌, not, Text, codes, Option, none, some,
  [], ◌∷◌, ◌++◌, length, take, ◌==◌, leb, leb→le, is_digit, is_lower, if◌then◌else◌, arith,
  Bool-cases, ◌⊎◌, inl, inr,
}
use vetinari.Landing.Slug.{
  dash, is_alphanumeric, lower, fold, trim_start, trim_end, trim, before_last, or_all, capped,
  slugify, or_issue, with_slug, branch_name,
}

-- Digits and lower-case letters, with single dashes between them: no dash at the start or at the
-- end, and no two in a row. The flag says that a letter or digit must come next.
unfoldable pub reads : Bool → Text → Bool
reads wants [] = not wants
reads wants (c ∷ cs) =
    if c == dash then not wants && reads true cs else (is_digit c || is_lower c) && reads false cs

-- The same without the condition on the end.
unfoldable scans : Bool → Text → Bool
scans wants [] = true
scans wants (c ∷ cs) =
    if c == dash then not wants && scans true cs else (is_digit c || is_lower c) && scans false cs

lower_ok :
    (c : ℕ)
    → is_alphanumeric c ≡ true
    → ((is_digit (lower c) || is_lower (lower c)) ≡ true) × ((lower c == dash) ≡ false)
lower_ok c h = ground arith

fold-scans : (p : Bool) (s : Text) → scans p (fold p s) ≡ true
unfolding fold scans
fold-scans p [] = refl
fold-scans p (c ∷ cs) = ground (arith, lower_ok c, fold-scans false cs, fold-scans true cs)

trim_start-scans : (p : Bool) (s : Text) → scans p s ≡ true → scans true (trim_start dash s) ≡ true
unfolding trim_start scans
trim_start-scans p [] h = refl
trim_start-scans p (c ∷ cs) h = ground (arith, trim_start-scans true cs)

-- Nothing, or a whole slug.
abbrev pub IsSlug : Bool → Text → Type 0
IsSlug p s = (s ≡ []) ⊎ (reads p s ≡ true)

trim_end-IsSlug : (p : Bool) (s : Text) → scans p s ≡ true → IsSlug p (trim_end dash s)
unfolding trim_end scans reads
trim_end-IsSlug p [] h = inl refl
trim_end-IsSlug p (c ∷ cs) h = ground (arith, trim_end-IsSlug true cs, trim_end-IsSlug false cs)

trim-IsSlug : (p : Bool) (s : Text) → scans p s ≡ true → IsSlug true (trim dash s)
unfolding trim
trim-IsSlug p s h = trim_end-IsSlug true (trim_start dash s) (trim_start-scans p s h)

reads-scans : (p : Bool) (s : Text) → reads p s ≡ true → scans p s ≡ true
unfolding reads scans
reads-scans p [] h = refl
reads-scans p (c ∷ cs) h = ground (arith, reads-scans true cs, reads-scans false cs)

take-scans : (p : Bool) (n : ℕ) (s : Text) → scans p s ≡ true → scans p (take n s) ≡ true
unfolding scans
take-scans p zero s h = refl
take-scans p (suc n) [] h = refl
take-scans p (suc n) (c ∷ cs) h = ground (arith, take-scans true n cs, take-scans false n cs)

before_last-scans :
    (p : Bool) (s : Text) → scans p s ≡ true → scans p (or_all s (before_last dash s)) ≡ true
unfolding scans before_last
before_last-scans p [] h = refl
before_last-scans p (c ∷ cs) h =
    ground (arith, before_last-scans true cs, before_last-scans false cs)

slug-scans : (s : Text) → IsSlug true s → scans true s ≡ true
unfolding scans
slug-scans [] h = refl
slug-scans (c ∷ cs) (inl e) = cc e
slug-scans (c ∷ cs) (inr h) = reads-scans true (c ∷ cs) h

capped-IsSlug : (m : Option ℕ) (s : Text) → IsSlug true s → IsSlug true (capped m s)
unfolding capped
capped-IsSlug none s h = h
capped-IsSlug (some n) s h = elim (Bool-cases (leb (length s) n)) [
  | inl e ↦ rw e h
  | inr e ↦ rw e (
      trim-IsSlug true (or_all (take n s) (before_last dash (take n s)))
        (before_last-scans true (take n s) (take-scans true n s (slug-scans s h))))
]

slugify-IsSlug : (raw : Text) (m : Option ℕ) → IsSlug true (slugify raw m)
unfolding slugify
slugify-IsSlug raw m =
    capped-IsSlug m (trim dash (fold false raw))
      (trim-IsSlug false (fold false raw) (fold-scans false raw))

length-trim_start : (d : ℕ) (s : Text) → length (trim_start d s) ≤ length s
unfolding trim_start
length-trim_start d [] = ground arith
length-trim_start d (c ∷ cs) = ground (arith, length-trim_start d cs)

length-trim_end : (d : ℕ) (s : Text) → length (trim_end d s) ≤ length s
unfolding trim_end
length-trim_end d [] = ground arith
length-trim_end d (c ∷ cs) = ground (arith, length-trim_end d cs)

length-trim : (d : ℕ) (s : Text) → length (trim d s) ≤ length s
unfolding trim
length-trim d s = omega (arith, length-trim_end d (trim_start d s), length-trim_start d s)

length-take : (n : ℕ) (s : Text) → length (take n s) ≤ n
length-take zero s = ground arith
length-take (suc n) [] = ground arith
length-take (suc n) (c ∷ cs) = ground (arith, length-take n cs)

length-before_last : (d : ℕ) (s : Text) → length (or_all s (before_last d s)) ≤ length s
unfolding before_last
length-before_last d [] = ground arith
length-before_last d (c ∷ cs) = ground (arith, length-before_last d cs)

length-capped : (n : ℕ) (s : Text) → length (capped (some n) s) ≤ n
unfolding capped
length-capped n s = elim (Bool-cases (leb (length s) n)) [
  | inl e ↦ rw e (leb→le (length s) n e)
  | inr e ↦ rw e (
      omega (
        arith,
        length-trim dash (or_all (take n s) (before_last dash (take n s))),
        length-before_last dash (take n s),
        length-take n s,
      ))
]

-- Whatever the title: its slug is empty, or digits and lower-case letters with single dashes
-- between them, none at either end; and with a cap it is no longer than the cap.
slugify_lem :
    (raw : Text)
    → ((m : Option ℕ) → IsSlug true (slugify raw m)) × ((n : ℕ) → length (slugify raw (some n)) ≤ n)
unfolding slugify
slugify_lem raw = (slugify-IsSlug raw, λ n. length-capped n (trim dash (fold false raw)))

reads-append :
    (p : Bool) (s t : Text)
    → reads p s ≡ true
    → reads true t ≡ true
    → reads p (s ++ dash ∷ t) ≡ true
unfolding reads
reads-append p [] t h h' = ground arith
reads-append p (c ∷ cs) t h h' = ground (arith, reads-append true cs t, reads-append false cs t)

issue-reads : (id : Text) → IsSlug true id → reads true (or_issue id) ≡ true
unfolding reads
issue-reads [] h = refl
issue-reads (c ∷ cs) (inl e) = cc e
issue-reads (c ∷ cs) (inr h) = h

with_slug-reads :
    (id slug : Text)
    → reads true id ≡ true
    → IsSlug true slug
    → (body : Text) × (with_slug id slug ≡ codes "vdd/" ++ body) × (reads true body ≡ true)
with_slug-reads id [] h s = (id, refl, h)
with_slug-reads id (c ∷ cs) h (inl e) = cc e
with_slug-reads id (c ∷ cs) h (inr r) =
    (id ++ dash ∷ c ∷ cs, refl, reads-append true id (c ∷ cs) h r)

-- Whatever the issue's id and title, even empty ones, its branch is `vdd/` and a non-empty text of
-- digits and lower-case letters with single dashes between them: a valid git reference with exactly
-- one slash.
pub branch_name_lem :
    (issue_id title : Text)
    → (body : Text) × (branch_name issue_id title ≡ codes "vdd/" ++ body) × (reads true body ≡ true)
unfolding branch_name
branch_name_lem issue_id title =
    with_slug-reads (or_issue (slugify issue_id none)) (slugify title (some 40))
      (issue-reads (slugify issue_id none) (slugify-IsSlug issue_id none))
      (slugify-IsSlug title (some 40))
