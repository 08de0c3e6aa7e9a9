-- ===== src/Pump/Sites.antt =====
-- A small site for tests: the repository of World/Toy.antt, a crosslink with one issue, and workers
-- that never exit before their timeout.
use vetinari.Prelude.{Bool, true, false, Text, codes, none, List, [], ◌∷◌, ok, err}
use vetinari.Prelude.Int.{pos}
use vetinari.Error.{gh_auth_missing}
use vetinari.State.Enums.{Phase}
use vetinari.State.Rows.{IssueRow, new_issue}
use vetinari.State.Tests.{a_db}
use vetinari.World.{World}
use vetinari.World.Toy.{Repo, toy}
use vetinari.World.Tracker.{CrosslinkRepo, IssueInfo}
use vetinari.Recovery.Workers.{WorkerFiles}
use vetinari.Artifacts.{Formats, not_found}
use vetinari.Pump.Site.{Site, still_running, qa_pass}

abbrev pub the_issue : List Text → IssueInfo
the_issue labels = record {
  id = pos 7;
  title = codes "t";
  description = none;
  status = codes "open";
  labels = labels;
}

abbrev pub a_tracker : List Text → CrosslinkRepo Repo
a_tracker labels = record {
  read_issue = λ i x. (ok (the_issue labels), x);
  list_by_label = λ a b x. (ok (the_issue labels ∷ []), x);
  open_blockers = λ i x. (ok [], x);
  list_comments = λ i x. (ok [], x);
  tracker_remote = λ x. (ok none, x);
  comment_write = λ i k b r x. (ok (codes "c"), x);
  label_add = λ i l x. (ok true, x);
  label_remove = λ i l x. (ok true, x);
  close_issue = λ i x. (ok true, x);
}

abbrev no_artifacts : WorkerFiles Repo
no_artifacts = record {
  done_verifies = λ p x. false;
  translation_plan = λ u p x. ok [];
  remove_dir_all = λ p x. (ok tt, x);
}

abbrev no_formats : Formats Repo
no_formats = record {
  finding_from_json = λ s. none;
  followup_from_json = λ s. none;
  done_from_json = λ s. none;
  sha256_hex = λ b. codes "00";
  from_utf8_lossy = λ b. b;
  read_to_string = λ p x. err not_found;
  read_bytes = λ p x. none;
}

-- `conflicts` says whether a rebase ends in a conflict.
abbrev pub a_site : Bool → List Text → Site Repo
a_site conflicts labels = record {
  jj = toy conflicts;
  repo = a_tracker labels;
  files = no_artifacts;
  formats = no_formats;
  root = codes "/r";
  n_rounds = 2;
  fresh_uuid = λ x. (codes "00000000", x);
  prepare = λ name base x. (ok (codes "/w"), x);
  render_prior_findings = λ path fs x. (ok tt, x);
  render_inputs = λ inputs x. (ok tt, x);
  render_conflict_input = λ context x. (ok tt, x);
  launch = λ role i key round path x. (ok (codes "p"), x);
  wait = λ pane x. (ok still_running, x);
  close = λ pane x. x;
  diff = λ a b x. (ok (codes "+"), x);
  snapshot_workspace = λ name x. (ok tt, x);
  run_qa = λ path x. (ok (ok qa_pass), x);
  opener_for = λ remote x. (err gh_auth_missing, x);
}

-- The issue 7 with this row, beside a repository whose `main` stands at a commit
abbrev pub world_of : IssueRow → World Repo
world_of r = record {
  db = a_db (r ∷ []) [];
  log = record { lines = []; writes = 0; write_fails = λ n. false };
  ext = codes "ab";
}

abbrev pub a_row : Phase → IssueRow
a_row phase = new_issue (codes "7") phase 1
