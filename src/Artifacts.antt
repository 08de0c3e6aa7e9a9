-- ===== src/Artifacts.antt =====
-- crates/orchestrator/src/artifacts.rs: what a worker leaves in its workspace. JSON and SHA-256 are
-- third-party libraries, and the bytes on disk are the environment's: the interface `Formats`.
pub mod Findings
pub mod Followups
pub mod Done
pub mod Plan
pub mod Tests
use vetinari.Prelude.{ℕ, Text, codes, Option, List, Result}
use vetinari.Prelude.Int.{ℤ}

pub data Severity : Type 0 where
  high med low : Severity

abbrev pub severity_text : Severity → Text
severity_text high = codes "high"
severity_text med = codes "med"
severity_text low = codes "low"

pub data ExitStatus : Type 0 where
  success failed : ExitStatus

pub data CommentKind : Type 0 where
  result_comment blocker_comment observation_comment followup_comment : CommentKind

abbrev pub kind_text : CommentKind → Text
kind_text result_comment = codes "result"
kind_text blocker_comment = codes "blocker"
kind_text observation_comment = codes "observation"
kind_text followup_comment = codes "note"

-- `ArtifactError`, its variants with what a caller can tell them apart by.
pub data ArtifactError : Type 0 where
  done_sentinel_missing : Text → ArtifactError
  done_malformed done_artifact_path_unsafe done_artifact_missing : Text → ArtifactError
  read_failed : Text → ArtifactError
  checksum_mismatch : Text → Text → Text → ArtifactError
  findings_missing : List Text → ArtifactError
  -- the artifact and the number of the offending line
  schema_violation : Text → ℕ → ArtifactError

pub data ReadError : Type 0 where
  not_found other_read_error : ReadError

pub record RawFinding : Type 0 where
  pub severity : Severity
  pub location : Text
  pub claim : Text
  pub evidence_files : List Text

pub record RawFollowup : Type 0 where
  pub title : Text
  pub rationale : Text
  pub suggested_blockers : List ℤ
  pub gate_sketch : Option Text

pub record DoneArtifact : Type 0 where
  pub path : Text
  pub sha256 : Text

pub record RawDone : Type 0 where
  pub exit_status : ExitStatus
  pub artifacts : List DoneArtifact

-- `serde_json::from_str` at the three types, the digest in lowercase hex, the decoding of bytes, and
-- the reads of the file system.
pub record Formats (X : Type 0) : Type 0 where
  pub finding_from_json : Text → Option RawFinding
  pub followup_from_json : Text → Option RawFollowup
  pub done_from_json : Text → Option RawDone
  pub sha256_hex : List ℕ → Text
  pub from_utf8_lossy : List ℕ → Text
  pub read_to_string : Text → X → Result ReadError Text
  pub read_bytes : Text → X → Option (List ℕ)
