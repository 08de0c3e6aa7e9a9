-- ===== src/Artifacts/Findings.antt =====
-- `Location`, `Finding` and `Findings` of crates/orchestrator/src/artifacts.rs, and
-- `parse_finding_from_body` of crates/orchestrator/src/pump.rs.
pub mod RoundTrip
pub mod Bounds
use vetinari.Prelude.{
  ℕ, suc, ◌+◌, ◌*◌, Bool, true, false, Text, codes, text_eq, strip_prefix, Option, none, some, List,
  [], ◌∷◌, ◌++◌, length, ltb, leb, Result, ok, err, ok_or, if◌then◌else◌,
}
use vetinari.Prelude.Int.{parse_u32, show_nat}
use vetinari.Prelude.Strings.{lines, rsplit_once_at, split_once_text, is_blank, byte_len, newline}
use vetinari.Artifacts.{
  Severity, high, med, low, severity_text, ArtifactError, schema_violation, Formats, RawFinding,
}

pub record Location : Type 0 where
  pub path : Text
  pub line : ℕ

abbrev with_line : Text → Option ℕ → Option Location
with_line path none = none
with_line path (some line) = some (record { path = path; line = line })

abbrev split_location : Option (Text × Text) → Option Location
split_location none = none
split_location (some ([], line)) = none
split_location (some (c ∷ path, line)) = with_line (c ∷ path) (parse_u32 line)

unfoldable pub parse_location : Text → Option Location
parse_location raw = split_location (rsplit_once_at b':' raw)

unfoldable pub show_location : Location → Text
show_location l = l.path ++ b':' ∷ show_nat l.line

pub record Finding : Type 0 where
  pub severity : Severity
  pub location : Location
  pub claim : Text
  pub evidence_files : List Text

-- The `\n- file` of each evidence file
unfoldable pub evidence_lines : List Text → Text
evidence_lines [] = []
evidence_lines (file ∷ files) = newline ∷ codes "- " ++ file ++ evidence_lines files

abbrev pub evidence_part : List Text → Text
evidence_part [] = []
evidence_part (file ∷ files) = newline ∷ codes "evidence:" ++ evidence_lines (file ∷ files)

unfoldable pub comment_body : Finding → Text
comment_body f =
    b'[' ∷ severity_text f.severity
    ++ codes "] "
    ++ f.claim
    ++ newline ∷ codes "location: "
    ++ show_location f.location
    ++ evidence_part f.evidence_files

-- `Findings::parse`, the loop over the numbered lines; `found` is how many were pushed.
abbrev pub findings_max : ℕ
findings_max = 256

abbrev pub findings_artifact_max_bytes : ℕ
findings_artifact_max_bytes = 1024 * 1024

module _ {X : Type 0} (formats : Formats X) (path : Text) where
  abbrev violation : {A : Type 0} → ℕ → Option A → Result ArtifactError A
  violation line_no o = ok_or (schema_violation path line_no) o

  abbrev pub located : ℕ → RawFinding → Result ArtifactError Finding
  located line_no raw = elim (parse_location raw.location) [
    | none ↦ err (schema_violation path line_no)
    | some location ↦ ok (record {
      severity = raw.severity;
      location = location;
      claim = raw.claim;
      evidence_files = raw.evidence_files;
    })
  ]

  -- One line that is not blank
  unfoldable pub parse_line : ℕ → Text → Result ArtifactError Finding
  parse_line line_no line = elim (formats.finding_from_json line) [
    | none ↦ err (schema_violation path line_no)
    | some raw ↦ located line_no raw
  ]

  abbrev push :
      Result ArtifactError Finding
      → Result ArtifactError (List Finding)
      → Result ArtifactError (List Finding)
  push (err e) rest = err e
  push (ok f) (err e) = err e
  push (ok f) (ok fs) = ok (f ∷ fs)

  unfoldable pub parse_lines : ℕ → ℕ → List Text → Result ArtifactError (List Finding)
  parse_lines line_no found [] = ok []
  parse_lines line_no found (line ∷ rest) =
      let skipped = parse_lines (suc line_no) found rest in
      let pushed = push (parse_line line_no line) (parse_lines (suc line_no) (suc found) rest) in
      if is_blank line
      then skipped
      else if leb findings_max found
      then err (schema_violation path line_no)
      else pushed

  unfoldable pub parse_findings : Text → Result ArtifactError (List Finding)
  parse_findings content =
      if ltb findings_artifact_max_bytes (byte_len content)
      then err (schema_violation path 1)
      else parse_lines 1 0 (lines content)

-- The state of the loop of `parse_finding_from_body` over the lines after the first
pub record BodyScan : Type 0 where
  pub location : Option Location
  pub evidence_files : List Text
  pub in_evidence : Bool

abbrev evidence_line : BodyScan → Option Text → BodyScan
evidence_line s none = s
evidence_line s (some file) = record s { evidence_files = s.evidence_files ++ file ∷ [] }

unfoldable pub scan_line : BodyScan → Text → BodyScan
scan_line s line = elim (strip_prefix (codes "location: ") line) [
  | some loc ↦ record s { location = parse_location loc }
  | none ↦
      if text_eq line (codes "evidence:")
      then record s { in_evidence = true }
      else if s.in_evidence
      then evidence_line s (strip_prefix (codes "- ") line)
      else s
]

unfoldable pub scan_lines : BodyScan → List Text → BodyScan
scan_lines s [] = s
scan_lines s (line ∷ rest) = scan_lines (scan_line s line) rest

abbrev severity_of : Text → Option Severity
severity_of tok =
    if text_eq tok (codes "high")
    then some high
    else if text_eq tok (codes "med")
    then some med
    else if text_eq tok (codes "low")
    then some low
    else none

abbrev scanned : Severity → Text → BodyScan → Option Finding
scanned severity claim s = elim s.location [
  | none ↦ none
  | some location ↦ some (record {
    severity = severity;
    location = location;
    claim = claim;
    evidence_files = s.evidence_files;
  })
]

abbrev from_head : Option Severity → Text → List Text → Option Finding
from_head none claim rest = none
from_head (some severity) claim rest =
    scanned severity claim
      (scan_lines (record { location = none; evidence_files = []; in_evidence = false }) rest)

abbrev from_token : Option (Text × Text) → List Text → Option Finding
from_token none rest = none
from_token (some (tok, claim)) rest = from_head (severity_of tok) claim rest

abbrev from_bracket : Option Text → List Text → Option Finding
from_bracket none rest = none
from_bracket (some head) rest = from_token (split_once_text (codes "] ") head) rest

abbrev pub from_lines : List Text → Option Finding
from_lines [] = none
from_lines (head ∷ rest) = from_bracket (strip_prefix (codes "[") head) rest

unfoldable pub parse_finding_from_body : Text → Option Finding
parse_finding_from_body text = from_lines (lines text)
