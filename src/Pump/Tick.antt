-- ===== src/Pump/Tick.antt =====
-- `tick` of crates/orchestrator/src/pump.rs: ingest, the drive of the drivable issues under the
-- budget, the resume of approved inbound issues, and the answer sweep. The drive of an issue runs on
-- fuel; a tick whose fuel runs out returns `none`.
pub mod Ingest
pub mod Unapproved
pub mod Resume
pub mod Tests
use vetinari.Prelude.{
  ℕ, zero, suc, Bool, true, false, not, ◌&&◌, ◌||◌, Text, codes, msg, text_eq, Option, none, some,
  List, [], ◌∷◌, ◌++◌, any, take, select, Result, ok, err, if◌then◌else◌,
}
use vetinari.Prelude.Int.{ℤ, parse_i64, show_i64, leb_ℤ}
use vetinari.Prelude.Exec.{Exec, pure, gets, ◌>>=◌, ◌>>◌}
use vetinari.Error.{PumpError}
use vetinari.State.Enums.{
  Phase, graphed, awaiting_inbound_approval, is_drivable, phase_enum, as_str, PhaseSubstate,
  answer_pending, answer_unreachable, EventKind, transition,
}
use vetinari.State.Rows.{IssueRow, new_issue}
use vetinari.State.Issues.{get_issue, list_issues, upsert_issue, set_phase_substate}
use vetinari.World.{World, in_ext}
use vetinari.World.Tracker.{IssueInfo, AnswerTransport}
use vetinari.Answer.{is_inbound}
use vetinari.Answer.Delivery.{db_step, repo_step, parsed_substate, on_issue_terminal}
use vetinari.Answer.Sweep.{deliver_pending}
use vetinari.Pump.Labels.{graphed_label, inbound_approved_label, has_label, sanitize_inbound_labels}
use vetinari.Pump.Gate.{IssueOutcome, requeued}
use vetinari.Pump.Site.{Site}
use vetinari.Pump.Steps.{note}
use vetinari.Pump.Land.{land}
use vetinari.Pump.Drive.{drive_issue}

abbrev is_terminal_outcome : IssueOutcome → Bool
is_terminal_outcome requeued = false
is_terminal_outcome _ = true

abbrev is_requeued : ℤ × IssueOutcome → Bool
is_requeued (id, requeued) = true
is_requeued (id, _) = false

-- `sort_unstable` on `i64`, where equal elements are the same
insert_id : ℤ → List ℤ → List ℤ
insert_id i [] = i ∷ []
insert_id i (j ∷ js) = if leb_ℤ i j then i ∷ j ∷ js else j ∷ insert_id i js

unfoldable pub sort_ids : List ℤ → List ℤ
unfolding insert_id
sort_ids [] = []
sort_ids (i ∷ is) = insert_id i (sort_ids is)

abbrev cons_id : Option ℤ → List ℤ → List ℤ
cons_id none is = is
cons_id (some i) is = i ∷ is

-- The rows that may be driven, by their number
unfoldable pub drivable_rows : List IssueRow → List ℤ
drivable_rows [] = []
drivable_rows (row ∷ rows) =
    if is_drivable row.phase
    then cons_id (parse_i64 row.issue_id) (drivable_rows rows)
    else drivable_rows rows

-- Whether the answer of the park is still undelivered
unfoldable pub answer_still_owed : IssueRow → Bool
answer_still_owed row = elim (parsed_substate row) [
  | some answer_pending ↦ true
  | some answer_unreachable ↦ true
  | _ ↦ false
]

module _ {X : Type 0} (site : Site X) where
  abbrev sanitize_if : Bool → IssueInfo → Exec PumpError (World X) Unit
  sanitize_if false info = pure tt
  sanitize_if true info = do sanitize_inbound_labels site.repo info.id info.labels; pure tt

  -- The first adoption of an issue
  unfoldable pub adopt : IssueInfo → Option IssueRow → Exec PumpError (World X) Unit
  adopt info (some row) = pure tt
  adopt info none = do
    sanitize_if (is_inbound info.labels) info
    now ← gets (λ w. w.db.now w.db.statements)
    db_step (upsert_issue (new_issue (show_i64 info.id) graphed now))

  unfoldable pub adopt_unblocked : IssueInfo → List ℤ → Exec PumpError (World X) Unit
  adopt_unblocked info (b ∷ bs) = pure tt
  adopt_unblocked info [] = do row ← db_step (get_issue (show_i64 info.id)); adopt info row

  unfoldable pub ingest_all : List IssueInfo → Exec PumpError (World X) Unit
  ingest_all [] = pure tt
  ingest_all (info ∷ infos) = do
    blockers ← repo_step (site.repo.open_blockers info.id)
    adopt_unblocked info blockers
    ingest_all infos

  unfoldable pub ingest : Exec PumpError (World X) Unit
  ingest = do
    graphed_issues ← repo_step (site.repo.list_by_label (codes "open") graphed_label)
    ingest_all graphed_issues

  unfoldable pub drivable_issue_ids : Exec PumpError (World X) (List ℤ)
  drivable_issue_ids = do rows ← db_step list_issues; pure (sort_ids (drivable_rows rows))

  -- The answer that was owed is armed again: landing cleared its substate.
  unfoldable pub rearm : Text → Bool → Exec PumpError (World X) Unit
  rearm key false = pure tt
  rearm key true = do
    db_step (set_phase_substate key (some answer_pending))
    note transition key none (
        (codes "answer", codes "re_armed_pending")
        ∷ (codes "reason", msg "park-time answer was never delivered")
        ∷ [])

  unfoldable pub resume_change :
      ℤ → IssueRow → Option Text → Exec PumpError (World X) (Option IssueOutcome)
  resume_change issue_id row none = do
    note transition row.issue_id none (
        (codes "inbound_approval", codes "resume_skipped")
        ∷ (codes "reason", msg "approved but no stored landing_change")
        ∷ [])
    pure none
  resume_change issue_id row (some change) = do
    outcome ← land site issue_id row.issue_id change
    rearm row.issue_id (answer_still_owed row)
    pure (some outcome)

  unfoldable pub resume_numbered :
      IssueRow → Option ℤ → Exec PumpError (World X) (Option (ℤ × IssueOutcome))
  resume_numbered row none = pure none
  resume_numbered row (some issue_id) = do
    info ← repo_step (site.repo.read_issue issue_id)
    if not (has_label info.labels inbound_approved_label) then pure none else (do
      outcome ← resume_change issue_id row row.landing_change
      pure (elim outcome [ none ↦ none | some o ↦ some (issue_id, o) ]))

  -- One turn of the loop of `resume_approved_inbound`
  unfoldable pub resume_row : IssueRow → Exec PumpError (World X) (Option (ℤ × IssueOutcome))
  resume_row row =
      if not (text_eq (as_str row.phase) (as_str awaiting_inbound_approval))
      then pure none
      else resume_numbered row (parse_i64 row.issue_id)

  abbrev cons_outcome :
      Option (ℤ × IssueOutcome) → List (ℤ × IssueOutcome) → List (ℤ × IssueOutcome)
  cons_outcome none os = os
  cons_outcome (some o) os = o ∷ os

  unfoldable pub resume_rows : List IssueRow → Exec PumpError (World X) (List (ℤ × IssueOutcome))
  resume_rows [] = pure []
  resume_rows (row ∷ rows) = do
    resumed ← resume_row row
    rest ← resume_rows rows
    pure (cons_outcome resumed rest)

  unfoldable pub resume_approved_inbound : Exec PumpError (World X) (List (ℤ × IssueOutcome))
  resume_approved_inbound = do rows ← db_step list_issues; resume_rows rows

-- `[crossbridge]` of the configuration, and the wire
pub record Crossbridge (X : Type 0) : Type 0 where
  pub enabled : Bool
  pub answer_retry_interval_s : ℤ
  pub socket_root : Text
  pub own_slug : Exec PumpError X Text
  pub transport : AnswerTransport X

module _ {X : Type 0} (site : Site X) (bridge : Crossbridge X)
    (max_concurrent_agents fuel : ℕ) where
  unfoldable pub sweep_answers : Exec PumpError (World X) Unit
  sweep_answers = do
    own_slug ← in_ext bridge.own_slug
    now ← gets (λ w. w.db.now w.db.statements)
    deliver_pending site.repo bridge.transport own_slug bridge.socket_root
        bridge.answer_retry_interval_s now
    pure tt

  unfoldable pub arm_answer : ℤ → Bool → Exec PumpError (World X) Unit
  arm_answer issue_id false = pure tt
  arm_answer issue_id true = do on_issue_terminal site.repo issue_id; pure tt

  -- `rest` is the loop over the ids behind this one.
  unfoldable pub after_drive :
      ℤ
      → Exec PumpError (World X) (Option (List (ℤ × IssueOutcome)))
      → Option IssueOutcome
      → Exec PumpError (World X) (Option (List (ℤ × IssueOutcome)))
  after_drive issue_id rest none = pure none
  after_drive issue_id rest (some outcome) = do
    arm_answer issue_id (bridge.enabled && is_terminal_outcome outcome)
    others ← rest
    pure (elim others [ none ↦ none | some os ↦ some ((issue_id, outcome) ∷ os) ])

  unfoldable pub drive_all : List ℤ → Exec PumpError (World X) (Option (List (ℤ × IssueOutcome)))
  drive_all [] = pure (some [])
  drive_all (issue_id ∷ ids) = do
    outcome ← drive_issue site fuel issue_id
    after_drive issue_id (drive_all ids) outcome

  unfoldable pub sweep_if : Bool → Exec PumpError (World X) Unit
  sweep_if false = pure tt
  sweep_if true = sweep_answers

  unfoldable pub after_drives :
      Option (List (ℤ × IssueOutcome)) → Exec PumpError (World X) (Option (List (ℤ × IssueOutcome)))
  after_drives none = pure none
  after_drives (some outcomes) = do
    resumed ← resume_approved_inbound site
    sweep_if bridge.enabled
    pure (some (outcomes ++ resumed))

  unfoldable pub tick : Exec PumpError (World X) (Option (List (ℤ × IssueOutcome)))
  tick = do
    ingest site
    ids ← drivable_issue_ids site
    driven ← drive_all (take max_concurrent_agents ids)
    after_drives driven

  abbrev is_idle : List (ℤ × IssueOutcome) → List ℤ → Bool
  is_idle outcomes [] = not (any is_requeued outcomes)
  is_idle outcomes (id ∷ ids) = false

  -- `more` is the next turn of the loop.
  unfoldable pub after_tick :
      Exec PumpError (World X) (Option (List (ℤ × IssueOutcome)))
      → Option (List (ℤ × IssueOutcome))
      → Exec PumpError (World X) (Option (List (ℤ × IssueOutcome)))
  after_tick more none = pure none
  after_tick more (some outcomes) = do
    ids ← drivable_issue_ids site
    if is_idle outcomes ids then pure (some outcomes) else (do
      others ← more
      pure (elim others [ none ↦ none | some os ↦ some (outcomes ++ os) ]))

  -- At most `ticks` ticks
  unfoldable pub run_until_idle : ℕ → Exec PumpError (World X) (Option (List (ℤ × IssueOutcome)))
  run_until_idle zero = pure none
  run_until_idle (suc ticks) = do outcomes ← tick; after_tick (run_until_idle ticks) outcomes
