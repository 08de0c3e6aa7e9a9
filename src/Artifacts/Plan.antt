-- ===== src/Artifacts/Plan.antt =====
-- `translation_plan` of crates/orchestrator/src/artifacts.rs: the comments that a verified set of
-- artifacts is posted as.
use vetinari.Prelude.{
  ℕ, suc, Bool, true, false, not, Text, codes, text_eq, List, [], ◌∷◌, ◌++◌, Result, ok, err,
  if◌then◌else◌,
}
use vetinari.Prelude.Int.{ℤ, pos, negsuc}
use vetinari.Artifacts.{
  ExitStatus, success, failed, CommentKind, result_comment, blocker_comment, followup_comment,
  ArtifactError, Formats,
}
use vetinari.Artifacts.Findings.{comment_body, parse_findings}
use vetinari.Artifacts.Followups.{proposal_body, parse_followups}
use vetinari.Artifacts.Done.{DoneSentinel, VerifiedArtifact, artifact_file_name, findings_file}

pub record TranslationItem : Type 0 where
  pub artifact_path : Text
  pub content_sha : Text
  pub finding_index : ℤ
  pub kind : CommentKind
  pub body : Text

abbrev whole_file_index : ℤ
whole_file_index = negsuc 0

abbrev pub item_of : VerifiedArtifact → ℤ → CommentKind → Text → TranslationItem
item_of a index kind body = record {
  artifact_path = a.path;
  content_sha = a.sha256;
  finding_index = index;
  kind = kind;
  body = body;
}

-- One item for each body, numbered from `index`
unfoldable pub numbered : VerifiedArtifact → CommentKind → ℕ → List Text → List TranslationItem
numbered a kind index [] = []
numbered a kind index (body ∷ bodies) =
    item_of a (pos index) kind body ∷ numbered a kind (suc index) bodies

abbrev bodies_of : {A : Type 0} → (A → Text) → List A → List Text
bodies_of f [] = []
bodies_of f (x ∷ xs) = f x ∷ bodies_of f xs

abbrev numbered_items :
    {A : Type 0}
    → VerifiedArtifact
    → CommentKind
    → (A → Text)
    → Result ArtifactError (List A)
    → Result ArtifactError (List TranslationItem)
numbered_items a kind f (err e) = err e
numbered_items a kind f (ok xs) = ok (numbered a kind 0 (bodies_of f xs))

abbrev is_success : ExitStatus → Bool
is_success success = true
is_success failed = false

module _ {X : Type 0} (formats : Formats X) where
  -- The items of one artifact, by the name of its file
  unfoldable pub items_of :
      ExitStatus → VerifiedArtifact → Result ArtifactError (List TranslationItem)
  items_of status a =
      let name = artifact_file_name a.path in
      let content = formats.from_utf8_lossy a.bytes in
      if text_eq name (codes "result.md")
      then ok (
          if not (is_success status)
          then []
          else item_of a whole_file_index result_comment content ∷ [])
      else if text_eq name findings_file
      then numbered_items a blocker_comment comment_body (parse_findings formats a.path content)
      else if text_eq name (codes "followups.jsonl")
      then numbered_items a followup_comment proposal_body (parse_followups formats a.path content)
      else ok []

  abbrev append_items :
      Result ArtifactError (List TranslationItem)
      → Result ArtifactError (List TranslationItem)
      → Result ArtifactError (List TranslationItem)
  append_items (err e) rest = err e
  append_items (ok is) (err e) = err e
  append_items (ok is) (ok js) = ok (is ++ js)

  unfoldable pub plan_artifacts :
      ExitStatus → List VerifiedArtifact → Result ArtifactError (List TranslationItem)
  plan_artifacts status [] = ok []
  plan_artifacts status (a ∷ as') = append_items (items_of status a) (plan_artifacts status as')

  unfoldable pub translation_plan : DoneSentinel → Result ArtifactError (List TranslationItem)
  translation_plan done = plan_artifacts done.exit_status done.artifacts
