-- ===== src/World/Tracker.antt =====
-- crates/crosslink_api, the GitHub side of landing (`PrOpener`) and the crossbridge transport as
-- the orchestrator calls them: interfaces over the state outside the program.
use vetinari.Prelude.{Bool, Text, Option, List, ◌≡◌, ok, select, not, text_eq}
use vetinari.Prelude.Int.{ℤ}
use vetinari.Prelude.Exec.{Exec}
use vetinari.Error.{LandingError}

pub record IssueInfo : Type 0 where
  pub id : ℤ
  pub title : Text
  pub description : Option Text
  pub status : Text
  pub labels : List Text

pub record CommentInfo : Type 0 where
  pub kind : Text
  pub body : Text

-- `CrosslinkError`, by its message.
abbrev pub CrosslinkError : Type 0
CrosslinkError = Text

pub record CrosslinkRepo (X : Type 0) : Type 0 where
  pub read_issue : ℤ → Exec CrosslinkError X IssueInfo
  pub list_by_label : Text → Text → Exec CrosslinkError X (List IssueInfo)
  pub open_blockers : ℤ → Exec CrosslinkError X (List ℤ)
  pub list_comments : ℤ → Exec CrosslinkError X (List CommentInfo)
  pub tracker_remote : Exec CrosslinkError X (Option Text)
  pub comment_write : ℤ → Text → Text → Option Text → Exec CrosslinkError X Text
  pub label_add : ℤ → Text → Exec CrosslinkError X Bool
  pub label_remove : ℤ → Text → Exec CrosslinkError X Bool
  pub close_issue : ℤ → Exec CrosslinkError X Bool

pub record PrRequest : Type 0 where
  pub head : Text
  pub base : Text
  pub title : Text
  pub body : Text

-- The trait `PrOpener` of landing.rs.
pub record PrOpener (X : Type 0) : Type 0 where
  pub open_pr : PrRequest → Exec LandingError X Text
  pub find_open_pr : Text → Exec LandingError X (Option Text)

-- `AnswerReq` of crates/crossbridge_api; `socket_root` is the path's text.
pub record AnswerReq : Type 0 where
  pub peer_slug : Text
  pub own_slug : Text
  pub socket_root : Text
  pub source_uuid : Text
  pub comments : List CommentInfo

pub record AnswerOutcome : Type 0 where
  pub remote_issue_id : ℤ

-- The trait `AnswerTransport` of answer.rs; its error by its message.
pub record AnswerTransport (X : Type 0) : Type 0 where
  pub answer : AnswerReq → Exec Text X AnswerOutcome

-- What the sanitizing of labels relies on, over a reading of an issue's labels: a removal that
-- succeeds takes away that label and no other.
pub record LabelLaws {X : Type 0} (repo : CrosslinkRepo X) : Type 0 where
  pub labels_of : ℤ → X → List Text
  pub label_remove_lem :
      (i : ℤ) (l : Text) (b : Bool) (x : X)
      → (repo.label_remove i l x).0 ≡ ok b
      → labels_of i (repo.label_remove i l x).1 ≡ select (λ m. not (text_eq m l)) (labels_of i x)
