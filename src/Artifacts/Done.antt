-- ===== src/Artifacts/Done.antt =====
-- `DoneSentinel` of crates/orchestrator/src/artifacts.rs: the manifest of a worker, and its
-- verification against the files that it names.
pub mod Attested
pub mod Clean
use vetinari.Prelude.{
  ℕ, Bool, true, false, not, ◌&&◌, Text, codes, text_eq, starts_with, Option, none, some, List, [],
  ◌∷◌, ◌++◌, map, find, all, Result, ok, err, if◌then◌else◌,
}
use vetinari.Prelude.Strings.{split_at, rsplit_once_at}
use vetinari.Artifacts.{
  ExitStatus, ArtifactError, done_sentinel_missing, done_malformed, done_artifact_path_unsafe,
  done_artifact_missing, read_failed, checksum_mismatch, findings_missing, Formats, ReadError,
  not_found, other_read_error, DoneArtifact, RawDone,
}
use vetinari.Landing.Slug.{lower}
use vetinari.Artifacts.Findings.{Finding, parse_findings}

pub record VerifiedArtifact : Type 0 where
  pub path : Text
  pub sha256 : Text
  pub bytes : List ℕ

pub record DoneSentinel : Type 0 where
  pub exit_status : ExitStatus
  pub artifacts : List VerifiedArtifact

-- Every component is a name or `.`: no root, and no `..`.
unfoldable pub is_workspace_relative : Text → Bool
is_workspace_relative path =
    not (starts_with (codes "/") path)
    && all (λ s. not (text_eq s (codes ".."))) (split_at b'/' path)

-- `workspace.join(path)`, for a path that is not absolute
abbrev pub join : Text → Text → Text
join workspace path = workspace ++ b'/' ∷ path

abbrev last_of : Text → Option (Text × Text) → Text
last_of path none = path
last_of path (some (head, tail)) = tail

unfoldable pub artifact_file_name : Text → Text
artifact_file_name path = last_of path (rsplit_once_at b'/' path)

module _ {X : Type 0} (formats : Formats X) (workspace : Text) where
  abbrev checked : DoneArtifact → List ℕ → Result ArtifactError VerifiedArtifact
  checked artifact bytes =
      let actual = formats.sha256_hex bytes in
      let expected = map lower artifact.sha256 in
      if not (text_eq actual expected)
      then err (checksum_mismatch artifact.path expected actual)
      else ok (record { path = artifact.path; sha256 = actual; bytes = bytes })

  unfoldable pub verify_artifact : DoneArtifact → X → Result ArtifactError VerifiedArtifact
  verify_artifact artifact x =
      if not (is_workspace_relative artifact.path)
      then err (done_artifact_path_unsafe artifact.path)
      else (elim (formats.read_bytes (join workspace artifact.path) x) [
        | none ↦ err (done_artifact_missing artifact.path)
        | some bytes ↦ checked artifact bytes
      ])

  abbrev push :
      Result ArtifactError VerifiedArtifact
      → Result ArtifactError (List VerifiedArtifact)
      → Result ArtifactError (List VerifiedArtifact)
  push (err e) rest = err e
  push (ok a) (err e) = err e
  push (ok a) (ok as') = ok (a ∷ as')

  unfoldable pub verify_artifacts :
      List DoneArtifact → X → Result ArtifactError (List VerifiedArtifact)
  verify_artifacts [] x = ok []
  verify_artifacts (artifact ∷ rest) x = push (verify_artifact artifact x) (verify_artifacts rest x)

  abbrev pub with_status :
      ExitStatus → Result ArtifactError (List VerifiedArtifact) → Result ArtifactError DoneSentinel
  with_status status (err e) = err e
  with_status status (ok artifacts) = ok (record { exit_status = status; artifacts = artifacts })

  abbrev pub done_path : Text
  done_path = join workspace (codes "_orchestrator/DONE")

  abbrev verify_raw : Option RawDone → X → Result ArtifactError DoneSentinel
  verify_raw none x = err (done_malformed done_path)
  verify_raw (some raw) x = with_status raw.exit_status (verify_artifacts raw.artifacts x)

  abbrev verify_read : Result ReadError Text → X → Result ArtifactError DoneSentinel
  verify_read (err not_found) x = err (done_sentinel_missing workspace)
  verify_read (err other_read_error) x = err (read_failed done_path)
  verify_read (ok content) x = verify_raw (formats.done_from_json content) x

  unfoldable pub verify : X → Result ArtifactError DoneSentinel
  verify x = verify_read (formats.read_to_string done_path x) x

abbrev pub findings_file : Text
findings_file = codes "findings.jsonl"

module _ {X : Type 0} (formats : Formats X) where
  abbrev pub found_findings :
      DoneSentinel → Option VerifiedArtifact → Result ArtifactError (List Finding)
  found_findings done none = err (findings_missing (map (λ a. a.path) done.artifacts))
  found_findings done (some artifact) =
      parse_findings formats artifact.path (formats.from_utf8_lossy artifact.bytes)

  -- `Findings::from_done`: no findings file is no clean round.
  unfoldable pub findings_from_done : DoneSentinel → Result ArtifactError (List Finding)
  findings_from_done done =
      found_findings done
        (find (λ a. text_eq (artifact_file_name a.path) findings_file) done.artifacts)
