-- ===== src/Artifacts/Tests.antt =====
-- A manifest with one findings file, the findings in it, and a finding as a comment.
use vetinari.Prelude.{
  ◌≡◌, ◌≤◌, ◌*◌, ◌↔◌, refl, Text, codes, text_eq, some, none, [], ◌∷◌, length, ok, arith,
}
use vetinari.Prelude.Int.{parse_u32}
use vetinari.Prelude.Strings.{
  lines, lines_from, strip_cr, is_whitespace, is_blank, byte_len, rsplit_once_at,
}
use vetinari.Artifacts.{Formats, RawFinding, RawDone, high, success}
use vetinari.Artifacts.Findings.{
  Finding, parse_findings, parse_lines, parse_line, parse_location, comment_body,
  parse_finding_from_body,
}
use vetinari.Artifacts.Findings.Bounds.{filled, parse_findings_bounds}
use vetinari.Artifacts.Findings.RoundTrip.{parse-comment_body}
use vetinari.Artifacts.Done.{
  VerifiedArtifact, DoneSentinel, verify, done_path, findings_from_done, artifact_file_name,
  findings_file,
}
use vetinari.Artifacts.Done.Attested.{AttestsAll, verify-Attests}
use vetinari.Artifacts.Done.Clean.{Among, clean_round_attested}

abbrev Files : Type 0
Files = Text

abbrev a_raw : RawFinding
a_raw = record {
  severity = high;
  location = codes "a.rs:12";
  claim = codes "off by one";
  evidence_files = codes "e.txt" ∷ [];
}

abbrev manifest : RawDone
manifest = record {
  exit_status = success;
  artifacts = record { path = codes "_orchestrator/findings.jsonl"; sha256 = codes "ab" } ∷ [];
}

-- The state is the text of the findings file; every digest is `ab`.
abbrev a_format : Formats Files
a_format = record {
  finding_from_json = λ s. some a_raw;
  followup_from_json = λ s. none;
  done_from_json = λ s. some manifest;
  sha256_hex = λ b. codes "ab";
  from_utf8_lossy = λ b. b;
  read_to_string = λ p x. ok (codes "{}");
  read_bytes = λ p x. some x;
}

abbrev the_artifact : Text → VerifiedArtifact
the_artifact bytes = record {
  path = codes "_orchestrator/findings.jsonl";
  sha256 = codes "ab";
  bytes = bytes;
}

abbrev done_with : Text → DoneSentinel
done_with bytes = record { exit_status = success; artifacts = the_artifact bytes ∷ [] }

verify-Attests_example : (verify a_format (codes "/w") (codes "x") ≡ ok (done_with (codes "x"))) ↔ (
    (content : Text) × (raw : RawDone) × (a_format.read_to_string
        (done_path a_format (codes "/w"))
        (codes "x")
      ≡ ok content)
    × (a_format.done_from_json content ≡ some raw)
    × (success ≡ raw.exit_status)
    × AttestsAll a_format (codes "/w") (codes "x") raw.artifacts (the_artifact (codes "x") ∷ []))
verify-Attests_example = verify-Attests a_format (codes "/w") (codes "x") (done_with (codes "x"))

-- Two findings between blank lines
abbrev two_lines : Text
two_lines = b'{' ∷ 10 ∷ 32 ∷ 10 ∷ b'{' ∷ 10 ∷ []

abbrev the_finding : Finding
the_finding = record {
  severity = high;
  location = record { path = codes "a.rs"; line = 12 };
  claim = codes "off by one";
  evidence_files = codes "e.txt" ∷ [];
}

two_found : parse_findings a_format (codes "f") two_lines ≡ ok (the_finding ∷ the_finding ∷ [])
unfolding parse_findings parse_lines parse_line parse_location rsplit_once_at parse_u32 lines
    lines_from strip_cr is_blank is_whitespace byte_len
two_found = refl

parse_findings_bounds_example :
    (byte_len two_lines ≤ 1024 * 1024)
    × (length (the_finding ∷ the_finding ∷ []) ≤ 256)
    × (length (the_finding ∷ the_finding ∷ []) ≡ length (filled (lines two_lines)))
parse_findings_bounds_example =
    parse_findings_bounds a_format (codes "f") two_lines (the_finding ∷ the_finding ∷ []) two_found

none_found : findings_from_done a_format (done_with (10 ∷ [])) ≡ ok []
unfolding findings_from_done parse_findings parse_lines lines lines_from strip_cr is_blank byte_len
    text_eq artifact_file_name rsplit_once_at
none_found = refl

clean_round_attested_example :
    (a : VerifiedArtifact) × Among a (the_artifact (10 ∷ []) ∷ [])
    × (artifact_file_name a.path ≡ findings_file)
    × (filled (lines a.bytes) ≡ [])
clean_round_attested_example = clean_round_attested a_format (done_with (10 ∷ [])) none_found

parse-comment_body_example : parse_finding_from_body (comment_body the_finding) ≡ some the_finding
parse-comment_body_example =
    parse-comment_body the_finding refl refl (refl, tt) (λ e. cc e) (omega arith)
