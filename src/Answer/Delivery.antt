-- ===== src/Answer/Delivery.antt =====
-- One delivery of an answer, and the trigger that queues it.
pub mod Laws
pub mod Queue
use vetinari.Prelude.{
  ℕ, Bool, true, false, not, Text, codes, msg, text_eq, Option, none, some, List, [], ◌∷◌, ◌++◌,
  select, length, Result, ok, err, if◌then◌else◌,
}
use vetinari.Prelude.Int.{ℤ, show_i64, show_nat}
use vetinari.Prelude.Exec.{Exec, pure, mapping_err, try, ◌>>=◌, ◌>>◌}
use vetinari.Error.{PumpError, StateError, crosslink, state}
use vetinari.State.Db.{StateDb}
use vetinari.State.Enums.{
  Phase, PhaseSubstate, answer_pending, answer_sent, answer_unreachable, transition, as_str,
  phase_enum, substate_enum, from_db_str,
}
use vetinari.State.Rows.{IssueRow, Payload}
use vetinari.State.Issues.{
  get_issue, set_phase_substate, record_answer_unreachable, retire_answer_unreachable,
}
use vetinari.World.{World, in_db, in_ext}
use vetinari.World.Tracker.{
  CrosslinkRepo, CrosslinkError, IssueInfo, CommentInfo, AnswerReq, AnswerOutcome, AnswerTransport,
}
use vetinari.Events.{emit}
use vetinari.Answer.{
  xb_source_prefix, xb_ref_prefix, xb_status_answered, phase_delivers_answer, is_inbound,
  label_value,
}
use vetinari.Answer.Retry.{SkipReason, is_valid_peer_slug, max_answer_attempts}

pub data AnswerAction : Type 0 where
  answered : ℤ → AnswerAction
  unreachable : ℤ → ℕ → AnswerAction
  retry_skipped : ℤ → SkipReason → AnswerAction

abbrev answer_role_tag : Text
answer_role_tag = codes "crossbridge"

abbrev pub is_answer_substate : Option PhaseSubstate → Bool
is_answer_substate (some answer_pending) = true
is_answer_substate (some answer_sent) = true
is_answer_substate (some answer_unreachable) = true
is_answer_substate _ = false

abbrev pub parsed_substate : IssueRow → Option PhaseSubstate
parsed_substate row = elim row.phase_substate [ none ↦ none | some raw ↦ from_db_str raw ]

-- The `kind=result` comments
abbrev results : List CommentInfo → List CommentInfo
results cs = select (λ c. text_eq c.kind (codes "result")) cs

abbrev pub is_first : PhaseSubstate → Bool
is_first answer_pending = true
is_first _ = false

abbrev shown_bool : Bool → Text
shown_bool b = if b then codes "true" else codes "false"

module _ {X : Type 0} where
  -- `?` on a `state.db` result, and on a crosslink result
  abbrev pub db_step : {A : Type 0} → Exec StateError StateDb A → Exec PumpError (World X) A
  db_step m = mapping_err state (in_db m)

  abbrev pub repo_step : {A : Type 0} → Exec CrosslinkError X A → Exec PumpError (World X) A
  repo_step m = mapping_err crosslink (in_ext m)

  unfoldable pub emit_answer : Text → Payload → Exec PumpError (World X) Unit
  emit_answer key payload = do mapping_err state (emit transition (some key) none payload); pure tt

module _ {X : Type 0} (repo : CrosslinkRepo X) where
  arm : ℤ → IssueRow → IssueInfo → Exec PumpError (World X) Bool
  arm issue_id row info = if not (is_inbound info.labels) then pure false else (do
    db_step (set_phase_substate (show_i64 issue_id) (some answer_pending))
    emit_answer (show_i64 issue_id) (
        (codes "answer", codes "pending")
        ∷ (codes "phase", as_str row.phase)
        ∷ (codes "reason", msg "inbound issue reached a terminal phase — answer queued")
        ∷ [])
    pure true)

  trigger_row : ℤ → Option IssueRow → Exec PumpError (World X) Bool
  unfolding arm
  trigger_row issue_id none = pure false
  trigger_row issue_id (some row) =
      if not (phase_delivers_answer row.phase)
      then pure false
      else if is_answer_substate (parsed_substate row)
      then pure false
      else (do info ← repo_step (repo.read_issue issue_id); arm issue_id row info)

  unfoldable pub on_issue_terminal : ℤ → Exec PumpError (World X) Bool
  unfolding trigger_row
  on_issue_terminal issue_id = do
    row ← db_step (get_issue (show_i64 issue_id))
    trigger_row issue_id row

  unfoldable pub record_success :
      ℤ → AnswerReq → AnswerOutcome → Exec PumpError (World X) AnswerAction
  record_success issue_id req outcome = do
    db_step (set_phase_substate (show_i64 issue_id) (some answer_sent))
    repo_step (repo.label_add issue_id xb_status_answered)
    repo_step (repo.close_issue issue_id)
    emit_answer (show_i64 issue_id) (
        (codes "answer", codes "sent")
        ∷ (codes "peer", req.peer_slug)
        ∷ (codes "source_uuid", req.source_uuid)
        ∷ (codes "comments", show_nat (length req.comments))
        ∷ (codes "remote_issue_id", show_i64 outcome.remote_issue_id)
        ∷ [])
    pure (answered issue_id)

  -- The blocker, on the first failure only.
  blocker_if_first : ℤ → PhaseSubstate → Text → Exec PumpError (World X) Unit
  blocker_if_first issue_id from_substate body =
      if is_first from_substate
      then (do
        repo_step (repo.comment_write issue_id (codes "blocker") body (some answer_role_tag))
        pure tt)
      else pure tt

  unfoldable pub record_failure :
      ℤ → PhaseSubstate → Text → Text → Exec PumpError (World X) AnswerAction
  unfolding blocker_if_first
  record_failure issue_id from_substate peer_slug detail = do
    attempts ← db_step (record_answer_unreachable (show_i64 issue_id))
    blocker_if_first issue_id from_substate
        (msg "Answer-back to peer `" ++ peer_slug ++ msg "` failed: " ++ detail)
    emit_answer (show_i64 issue_id) (
        (codes "answer", codes "unreachable")
        ∷ (codes "peer", peer_slug)
        ∷ (codes "attempts", show_nat attempts)
        ∷ (codes "first_failure", shown_bool (is_first from_substate))
        ∷ (codes "detail", detail)
        ∷ [])
    pure (unreachable issue_id attempts)

  unfoldable pub record_invalid_slug :
      ℤ → PhaseSubstate → Text → Exec PumpError (World X) AnswerAction
  unfolding blocker_if_first
  record_invalid_slug issue_id from_substate peer_slug = do
    attempts ← db_step (retire_answer_unreachable (show_i64 issue_id) max_answer_attempts)
    blocker_if_first issue_id from_substate (msg "Answer-back cannot be routed")
    emit_answer (show_i64 issue_id) (
        (codes "answer", codes "invalid_slug")
        ∷ (codes "peer_slug", peer_slug)
        ∷ (codes "attempts", show_nat attempts)
        ∷ (codes "first_failure", shown_bool (is_first from_substate))
        ∷ (
          codes "reason",
          msg "xb-source: slug is not a valid crossbridge slug — parked, not retried",
        )
        ∷ [])
    pure (unreachable issue_id attempts)

module _ {X : Type 0} (repo : CrosslinkRepo X) (transport : AnswerTransport X)
    (own_slug socket_root : Text) where
  -- The `match` on the round trip.
  finish :
      ℤ
      → PhaseSubstate
      → AnswerReq
      → Result Text AnswerOutcome
      → Exec PumpError (World X) AnswerAction
  finish issue_id from_substate req (ok outcome) = record_success repo issue_id req outcome
  finish issue_id from_substate req (err e) =
      record_failure repo issue_id from_substate req.peer_slug e

  send : ℤ → PhaseSubstate → Text → Text → Exec PumpError (World X) AnswerAction
  unfolding finish
  send issue_id from_substate peer_slug source_uuid = do
    comments ← repo_step (repo.list_comments issue_id)
    let req : AnswerReq = record {
      peer_slug = peer_slug;
      own_slug = own_slug;
      socket_root = socket_root;
      source_uuid = source_uuid;
      comments = results comments;
    } in
        (do
          outcome ← try (in_ext (transport.answer req))
          finish issue_id from_substate req outcome)

  unfoldable pub route :
      ℤ → PhaseSubstate → Option Text → Option Text → Exec PumpError (World X) AnswerAction
  unfolding send
  route issue_id from_substate (some peer_slug) (some source_uuid) =
      if not (is_valid_peer_slug peer_slug)
      then record_invalid_slug repo issue_id from_substate peer_slug
      else send issue_id from_substate peer_slug source_uuid
  route issue_id from_substate peer_slug source_uuid =
      record_failure repo issue_id from_substate (codes "unknown")
        (msg "inbound issue is missing its xb-source:/xb-ref: labels — cannot route the answer")

  unfoldable pub attempt_delivery : ℤ → PhaseSubstate → Exec PumpError (World X) AnswerAction
  attempt_delivery issue_id from_substate = do
    info ← repo_step (repo.read_issue issue_id)
    route issue_id from_substate (label_value info.labels xb_source_prefix)
        (label_value info.labels xb_ref_prefix)
