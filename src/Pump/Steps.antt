-- ===== src/Pump/Steps.antt =====
-- The helpers of `BuildPump` that its phases share.
pub mod Laws
pub mod Once
pub mod Tests
use mathlib.Core.Option
use vetinari.Prelude.{
  ℕ, ◌%◌, ◌^◌, Bool, true, false, not, Text, codes, msg, text_eq, strip_prefix, Option, none, some,
  List, [], ◌∷◌, ◌++◌, find, Result, ok, err, ok_or, map_err, if◌then◌else◌,
}
use vetinari.Prelude.Int.{ℤ, parse_i64, show_i64}
use vetinari.Prelude.Exec.{Exec, pure, lift, gets, mapping_err, try, ◌>>=◌, ◌>>◌}
use vetinari.Error.{
  PumpError, state, spawn_error, artifact_error, landing_failed, landing_target_missing,
  LandingError,
}
use vetinari.State.Enums.{
  Phase, orchestrator_error, implementing, EventKind, transition, WorkerRole, as_str, phase_enum,
}
use vetinari.State.Rows.{IssueRow, ActiveWorkerRow, Payload}
use vetinari.State.Issues.{get_issue, set_phase, upsert_issue}
use vetinari.State.Workers.{upsert_worker, remove_worker}
use vetinari.State.Ledger.{Key, is_posted, record_posted}
use vetinari.World.{World, in_db, in_ext}
use vetinari.World.Jj.{WorkspaceEntry}
use vetinari.World.Tracker.{CommentInfo}
use vetinari.Events.{emit}
use vetinari.Answer.Delivery.{db_step, repo_step}
use vetinari.Recovery.Workers.{forget}
use vetinari.Names.{WorkspaceName, rendered}
use vetinari.Artifacts.{CommentKind, followup_comment, blocker_comment, kind_text, ArtifactError}
use vetinari.Artifacts.Findings.{Finding, parse_finding_from_body}
use vetinari.Artifacts.Done.{DoneSentinel, verify}
use vetinari.Artifacts.Plan.{TranslationItem, translation_plan}
use vetinari.Pump.Labels.{set_phase_label, followup_proposed_label}
use vetinari.Pump.Gate.{IssueOutcome, orchestrator_error_issue}
use vetinari.Pump.Site.{Site}

abbrev pub worker_role_tag : Text
worker_role_tag = codes "implementer"

abbrev pub adversary_role_tag : Text
adversary_role_tag = codes "adversary"

abbrev pub merger_role_tag : Text
merger_role_tag = codes "merger"

abbrev pub worker_base_revset : Text
worker_base_revset = codes "main"

abbrev pub phase_of : Phase → Option IssueRow → Phase
phase_of default none = default
phase_of default (some row) = row.phase

-- `i.round.max(0) as u32`
abbrev pub round_of : Option IssueRow → ℕ
round_of none = 0
round_of (some row) = row.round % 2 ^ 32

-- `emit(…)?`
unfoldable pub note :
    {X : Type 0} → EventKind → Text → Option Text → Payload → Exec PumpError (World X) Unit
note kind key worker payload = do mapping_err state (emit kind (some key) worker payload); pure tt

abbrev pub phases_payload : Phase → Phase → Text → Payload
phases_payload from to reason =
    (codes "from_phase", as_str from)
    ∷ (codes "to_phase", as_str to)
    ∷ (codes "reason", reason)
    ∷ []

-- `if let Some(mut issue) = … { …; upsert_issue(&issue)? }`
unfoldable pub store_issue :
    {X : Type 0} → (IssueRow → IssueRow) → Option IssueRow → Exec PumpError (World X) Unit
store_issue f none = pure tt
store_issue f (some issue) = db_step (upsert_issue (f issue))

abbrev pub item_key : ℤ → TranslationItem → Key
item_key issue_id item = record {
  issue_id = show_i64 issue_id;
  artifact_path = item.artifact_path;
  content_sha = item.content_sha;
  finding_index = item.finding_index;
}

module _ {X : Type 0} (site : Site X) where
  unfoldable pub fresh_uuid : Exec PumpError (World X) Text
  fresh_uuid = in_ext (λ x. let (uuid, x') = site.fresh_uuid x in (ok uuid, x'))

  unfoldable pub close : Text → Exec PumpError (World X) Unit
  close pane = in_ext (λ x. (ok tt, site.close pane x))

  -- `let _ = self.manager.forget(name)`
  unfoldable pub forget_quietly : WorkspaceName → Exec PumpError (World X) Unit
  forget_quietly name = do
    _ ← try {F = PumpError} (in_ext (forget site.jj site.files site.root name))
    pure tt

  unfoldable pub forget_any : Option WorkspaceName → Exec PumpError (World X) Unit
  unfolding forget_quietly
  forget_any none = pure tt
  forget_any (some name) = forget_quietly name

  unfoldable pub label_issue : Option ℤ → Phase → Exec PumpError (World X) Unit
  label_issue none phase = pure tt
  label_issue (some id) phase = set_phase_label site.repo id phase

  unfoldable pub transition_issue : Text → Phase → Phase → Text → Exec PumpError (World X) Unit
  unfolding label_issue
  transition_issue key from to reason = do
    db_step (set_phase key to none)
    label_issue (parse_i64 key) to
    note transition key none (phases_payload from to reason)

  unfoldable pub poison : Text → Option WorkspaceName → Text → Exec PumpError (World X) IssueOutcome
  unfolding label_issue forget_any
  poison key workspace reason = do
    forget_any workspace
    row ← db_step (get_issue key)
    db_step (set_phase key orchestrator_error none)
    label_issue (parse_i64 key) orchestrator_error
    note transition key none (phases_payload (phase_of implementing row) orchestrator_error reason)
    pure orchestrator_error_issue

  unfoldable pub current_round : Text → Exec PumpError (World X) ℕ
  current_round key = do row ← db_step (get_issue key); pure (round_of row)

  unfoldable pub register_worker :
      Text → Text → WorkerRole → ℕ → Text → Exec PumpError (World X) Unit
  register_worker key worker_uuid role round workspace_path = do
    now ← gets (λ w. w.db.now w.db.statements)
    db_step (
        upsert_worker (record {
          worker_uuid = worker_uuid;
          issue_id = key;
          role = role;
          round = round;
          workspace_path = workspace_path;
          pid = none;
          spawned_at = now;
          last_heartbeat = now;
        }))

  -- `let _ = self.state.remove_worker(worker_uuid)`
  unfoldable pub unregister_worker : Text → Exec PumpError (World X) Unit
  unregister_worker worker_uuid = do
    _ ← try {F = PumpError} (in_db (remove_worker worker_uuid))
    pure tt

  abbrev commit_named : Text → ℤ → List WorkspaceEntry → Result PumpError Text
  commit_named name issue_id entries = elim (find (λ e. text_eq e.name name) entries) [
    | none ↦ err (landing_target_missing name issue_id)
    | some e ↦ ok e.working_copy_id
  ]

  unfoldable pub change_revset : WorkspaceName → ℤ → Exec PumpError (World X) Text
  change_revset name issue_id = do
    entries ← mapping_err (λ _. spawn_error (msg "workspace list")) (in_ext site.jj.workspace_list)
    lift (commit_named (rendered name) issue_id entries)

  unfoldable pub verify_done : Text → Exec PumpError (World X) (Result ArtifactError DoneSentinel)
  verify_done workspace = gets (λ w. verify site.formats workspace w.ext)

  abbrev prior_finding : CommentInfo → Option Finding
  prior_finding comment =
      if not (text_eq comment.kind (kind_text blocker_comment))
      then none
      else (elim (strip_prefix (b'[' ∷ adversary_role_tag ++ b']' ∷ 10 ∷ 10 ∷ []) comment.body) [
        | none ↦ none
        | some body ↦ parse_finding_from_body body
      ])

  unfoldable pub prior_findings_in : List CommentInfo → List Finding
  prior_findings_in [] = []
  prior_findings_in (comment ∷ comments) =
      let rest = prior_findings_in comments in
      elim (prior_finding comment) [ none ↦ rest | some finding ↦ finding ∷ rest ]

  unfoldable pub rehydrate_prior_findings : ℤ → Exec PumpError (World X) (List Finding)
  rehydrate_prior_findings issue_id = do
    comments ← repo_step (site.repo.list_comments issue_id)
    pure (prior_findings_in comments)

  -- One comment of the plan, unless the ledger has its key
  unfoldable pub post_item :
      ℤ → Text → Text → TranslationItem → Bool → Exec PumpError (World X) Unit
  post_item issue_id worker_uuid role_tag item true = pure tt
  post_item issue_id worker_uuid role_tag item false = do
    comment_id ←
        repo_step (site.repo.comment_write issue_id (kind_text item.kind) item.body (some role_tag))
    now ← gets (λ w. w.db.now w.db.statements)
    db_step (
        record_posted (record {
          issue_id = show_i64 issue_id;
          artifact_path = item.artifact_path;
          content_sha = item.content_sha;
          finding_index = item.finding_index;
          worker_uuid = worker_uuid;
          comment_id = comment_id;
          posted_at = now;
        }))
    pure tt

  abbrev is_followup : CommentKind → Bool
  is_followup followup_comment = true
  is_followup _ = false

  -- The loop over the plan: whether it holds a follow-up
  unfoldable pub post_plan :
      ℤ → Text → Text → Bool → List TranslationItem → Exec PumpError (World X) Bool
  post_plan issue_id worker_uuid role_tag has_followup [] = pure has_followup
  post_plan issue_id worker_uuid role_tag has_followup (item ∷ items) = do
    posted ← db_step (is_posted (item_key issue_id item))
    post_item issue_id worker_uuid role_tag item posted
    post_plan issue_id worker_uuid role_tag (if is_followup item.kind then true else has_followup)
        items

  unfoldable pub propose : ℤ → Bool → Exec PumpError (World X) Unit
  propose issue_id false = pure tt
  propose issue_id true = do
    repo_step (site.repo.label_add issue_id followup_proposed_label)
    pure tt

  unfoldable pub translate_artifacts :
      ℤ → Text → Text → DoneSentinel → Exec PumpError (World X) Unit
  translate_artifacts issue_id worker_uuid role_tag done = do
    plan ← lift (
        map_err (λ _. artifact_error (msg "translation plan")) (translation_plan site.formats done))
    has_followup ← post_plan issue_id worker_uuid role_tag false plan
    propose issue_id has_followup
