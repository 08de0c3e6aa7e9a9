-- ===== src/Recovery/Files.antt =====
-- The workers' files of recovery.rs over the artifacts: `done_present`, and the verification and
-- translation in `replay_done`, of crates/orchestrator/src/recovery.rs.
use vetinari.Prelude.{Bool, true, false, Text, msg, List, [], Result, ok, err, map_err}
use vetinari.Prelude.Exec.{Exec}
use vetinari.Recovery.Workers.{WorkerFiles}
use vetinari.Artifacts.{Formats, ArtifactError}
use vetinari.Artifacts.Done.{DoneSentinel, verify}
use vetinari.Artifacts.Plan.{TranslationItem, translation_plan}

abbrev is_ok : {A : Type 0} → Result ArtifactError A → Bool
is_ok (ok a) = true
is_ok (err e) = false

module _ {X : Type 0} (formats : Formats X) where
  unfoldable pub done_present : Text → X → Bool
  done_present workspace x = is_ok (verify formats workspace x)

  -- A DONE that vanished after `done_present` translates to nothing.
  abbrev plan_of : Result ArtifactError DoneSentinel → Result Text (List TranslationItem)
  plan_of (err e) = ok []
  plan_of (ok done) = map_err (λ _. msg "translation plan") (translation_plan formats done)

  unfoldable pub replay_plan : Text → X → Result Text (List TranslationItem)
  replay_plan workspace x = plan_of (verify formats workspace x)

  abbrev pub worker_files : (Text → Exec Text X Unit) → WorkerFiles X
  worker_files remove_dir_all = record {
    done_verifies = done_present;
    translation_plan = λ worker_uuid workspace x. replay_plan workspace x;
    remove_dir_all = remove_dir_all;
  }
