-- ===== src/Artifacts/Findings/RoundTrip.antt =====
-- A finding survives its comment: what `parse_finding_from_body` reads back is what was posted.
use mathlib.Core.List.{append_assoc, append-nil}
use vetinari.Prelude.{
  ℕ, ◌<◌, ◌^◌, ◌≡◌, refl, ap, ◌∙◌, ◌≢◌, Bool, true, false, Text, codes, text_eq, strip_prefix,
  Option, none, some, List, [], ◌∷◌, ◌++◌, All, arith,
}
use vetinari.Prelude.Int.{show_nat}
use vetinari.Prelude.Int.Laws.{all-append, all-show_nat, parse_u32-show_nat}
use vetinari.Prelude.Strings.{lines, lines_from, split_once_text, newline}
use vetinari.Prelude.Strings.Laws.{on_line, is_line, lines_from-last, lines-cons, rsplit-append}
use vetinari.Artifacts.{Severity, high, med, low, severity_text}
use vetinari.Artifacts.Findings.{
  Location, parse_location, show_location, Finding, evidence_lines, evidence_part, comment_body,
  split_location, with_line, scanned, scan_line, scan_lines, parse_finding_from_body, from_lines,
}

located_at :
    (path : Text) (line : ℕ)
    → path ≢ []
    → line < 2 ^ 32
    → split_location (some (path, show_nat line)) ≡ some (record { path = path; line = line })
located_at [] line some_path small = absurd (some_path refl)
located_at (c ∷ path) line some_path small =
    ap (with_line (c ∷ path)) (parse_u32-show_nat line small)

-- `path:line`, for a path that is not empty and a line number that a `u32` holds
pub parse-show_location :
    (l : Location) → l.path ≢ [] → l.line < 2 ^ 32 → parse_location (show_location l) ≡ some l
unfolding parse_location show_location
parse-show_location l some_path small =
    ap split_location
      (rsplit-append b':' l.path (show_nat l.line) (all-show_nat _ (λ d h. ground arith) l.line))
    ∙ located_at l.path l.line some_path small

bullets : List Text → List Text
bullets [] = []
bullets (f ∷ fs) = (codes "- " ++ f) ∷ bullets fs

-- The lines from a first one on
lines-evidence :
    (c : ℕ) (l : Text) (fs : List Text)
    → is_line (c ∷ l) ≡ true
    → All (λ f. is_line f ≡ true) fs
    → lines_from [] (c ∷ l ++ evidence_lines fs) ≡ (c ∷ l) ∷ bullets fs
unfolding evidence_lines bullets
lines-evidence c l [] h hs = rw (append-nil l) (lines_from-last [] (c ∷ l) h)
lines-evidence c l (f ∷ fs) h hs =
    lines-cons (c ∷ l) _ h
    ∙ ap (λ ls. (c ∷ l) ∷ ls) (lines-evidence b'-' (b' ' ∷ f) fs (ground (arith, hs.0)) hs.1)

scan-bullets :
    (l : Option Location) (es fs : List Text)
    → scan_lines (record { location = l; evidence_files = es; in_evidence = true }) (bullets fs)
      ≡ record { location = l; evidence_files = es ++ fs; in_evidence = true }
unfolding scan_lines scan_line bullets strip_prefix text_eq
scan-bullets l es [] = rw (append-nil es) refl
scan-bullets l es (f ∷ fs) = rw (← append_assoc es (f ∷ []) fs) (scan-bullets l (es ++ f ∷ []) fs)

evidence_head : List Text → List Text
evidence_head [] = []
evidence_head (f ∷ fs) = codes "evidence:" ∷ bullets (f ∷ fs)

show_location-is_line : (l : Location) → is_line l.path ≡ true → is_line (show_location l) ≡ true
unfolding show_location
show_location-is_line l h =
    all-append on_line l.path _ h (all-show_nat (λ c. on_line c) (λ d k. ground arith) l.line)

-- The lines after the first
tail_lines :
    (s : Text) (fs : List Text)
    → is_line s ≡ true
    → All (λ f. is_line f ≡ true) fs
    → lines_from [] (codes "location: " ++ (s ++ evidence_part fs))
      ≡ (codes "location: " ++ s) ∷ evidence_head fs
unfolding evidence_head bullets evidence_lines
tail_lines s [] h hs = rw (append-nil s) (lines_from-last [] (codes "location: " ++ s) h)
tail_lines s (f ∷ fs) h hs =
    lines-cons (codes "location: " ++ s) _ h
    ∙ ap (λ ls. (codes "location: " ++ s) ∷ ls)
        (lines-evidence b'e' (codes "vidence:") (f ∷ fs) refl hs)

abbrev some_evidence : List Text → Bool
some_evidence [] = false
some_evidence (f ∷ fs) = true

scan-evidence_head :
    (l : Option Location) (fs : List Text)
    → scan_lines
        (record { location = l; evidence_files = []; in_evidence = false })
        (evidence_head fs)
      ≡ record { location = l; evidence_files = fs; in_evidence = some_evidence fs }
unfolding scan_lines scan_line evidence_head strip_prefix text_eq
scan-evidence_head l [] = refl
scan-evidence_head l (f ∷ fs) = scan-bullets l [] (f ∷ fs)

scan-tail :
    (l : Location) (fs : List Text)
    → l.path ≢ []
    → l.line < 2 ^ 32
    → scan_lines
        (record { location = none; evidence_files = []; in_evidence = false })
        ((codes "location: " ++ show_location l) ∷ evidence_head fs)
      ≡ record { location = some l; evidence_files = fs; in_evidence = some_evidence fs }
unfolding scan_lines scan_line strip_prefix text_eq
scan-tail l fs some_path small =
    ap
      (λ (o : Option Location).
        scan_lines (record { location = o; evidence_files = []; in_evidence = false })
          (evidence_head fs))
      (parse-show_location l some_path small)
    ∙ scan-evidence_head (some l) fs

body_lines :
    (head s : Text) (fs : List Text)
    → is_line head ≡ true
    → is_line s ≡ true
    → All (λ f. is_line f ≡ true) fs
    → lines_from [] (((head ++ newline ∷ codes "location: ") ++ s) ++ evidence_part fs)
      ≡ head ∷ (codes "location: " ++ s) ∷ evidence_head fs
body_lines head s fs h k ks = simp append_assoc (
    lines-cons head (codes "location: " ++ (s ++ evidence_part fs)) h
    ∙ ap (λ ls. head ∷ ls) (tail_lines s fs k ks))

parse-head :
    (severity : Severity) (claim : Text) (rest : List Text)
    → from_lines ((b'[' ∷ (severity_text severity ++ (codes "] " ++ claim))) ∷ rest)
      ≡ scanned severity claim
          (scan_lines (record { location = none; evidence_files = []; in_evidence = false }) rest)
unfolding strip_prefix split_once_text text_eq
parse-head high claim rest = refl
parse-head med claim rest = refl
parse-head low claim rest = refl

abbrev head_line : Severity → Text → Text
head_line severity claim = b'[' ∷ (severity_text severity ++ (codes "] " ++ claim))

head_line-is_line :
    (severity : Severity) (claim : Text)
    → is_line claim ≡ true
    → is_line (head_line severity claim) ≡ true
head_line-is_line high claim h = h
head_line-is_line med claim h = h
head_line-is_line low claim h = h

body-head_line :
    (f : Finding)
    → comment_body f
      ≡ ((head_line f.severity f.claim ++ newline ∷ codes "location: ") ++ show_location f.location)
        ++ evidence_part f.evidence_files
unfolding comment_body
body-head_line f = simp append_assoc

-- What `parse_finding_from_body` reads from the comment body of a finding is that finding, when its
-- claim, its path and its evidence files are single lines, the path is not empty and a `u32` holds
-- the line number.
pub parse-comment_body :
    (f : Finding)
    → is_line f.claim ≡ true
    → is_line f.location.path ≡ true
    → All (λ file. is_line file ≡ true) f.evidence_files
    → f.location.path ≢ []
    → f.location.line < 2 ^ 32
    → parse_finding_from_body (comment_body f) ≡ some f
unfolding parse_finding_from_body lines
parse-comment_body f one_line path_line file_lines some_path small =
    ap (λ s. from_lines (lines_from [] s)) (body-head_line f)
    ∙ ap from_lines (
        body_lines (head_line f.severity f.claim) (show_location f.location) f.evidence_files
          (head_line-is_line f.severity f.claim one_line)
          (show_location-is_line f.location path_line) file_lines)
    ∙ parse-head f.severity f.claim _
    ∙ ap (scanned f.severity f.claim) (scan-tail f.location f.evidence_files some_path small)
