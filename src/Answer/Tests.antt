-- ===== src/Answer/Tests.antt =====
-- Runs of the answer machine against a scripted crosslink and a transport that keeps what it sent.
use vetinari.Prelude.{
  ◌⊎◌, ◌+◌, ◌/◌, ◌≤◌, ◌<◌, ◌≡◌, ◌≢◌, refl, Bool, true, false, Text, codes, text_eq, text_leb,
  strip_prefix, none, some, List, [], ◌∷◌, All, length, ok, err, arith,
}
use vetinari.Prelude.Int.{pos, show_i64, show_nat, parse_i64}
use vetinari.Prelude.Exec.{◌>>=◌, ◌>>◌, mapping_err, try}
use vetinari.State.Enums.{merged, answer_pending, from_db_str, as_str, is_terminal, substate_enum}
use vetinari.State.Db.{execute}
use vetinari.State.Rows.{IssueRow, new_issue}
use vetinari.State.Issues.{get_issue, find_issue, list_issues, order_by_id, set_phase_substate}
use vetinari.State.Issues.Laws.{row}
use vetinari.State.Ledger.{append_event}
use vetinari.State.Tests.{a_db}
use vetinari.Events.{emit, append}
use vetinari.World.{World, in_db, in_log, in_ext}
use vetinari.World.Tracker.{CrosslinkRepo, AnswerTransport, AnswerReq, IssueInfo}
use vetinari.Answer.{is_inbound, label_value, xb_source_prefix}
use vetinari.Answer.Retry.{
  retry_guard, too_early, due_after, retry_jitter_s, attempt, skip, rate_limited,
  is_valid_peer_slug, max_answer_attempts, max_answer_deliveries_per_tick, max_peer_slug_len,
}
use vetinari.Answer.Retry.Laws.{retry_guard_lem, valid_slug_lem}
use vetinari.Answer.Delivery.{
  on_issue_terminal, attempt_delivery, route, record_success, emit_answer, answered,
  is_answer_substate, parsed_substate,
}
use vetinari.Answer.Delivery.Laws.{attempt_delivery_invalid}
use vetinari.Answer.Delivery.Queue.{queued_once}
use vetinari.Answer.Sweep.{deliver_pending, sweep, sweep_row, due}
use vetinari.Answer.Sweep.Bound.{delivered, deliver_pending_bound}

-- Outside the program: the requests that were sent, the newest first.
abbrev Sent : Type 0
Sent = List AnswerReq

abbrev info_from : Text → IssueInfo
info_from source = record {
  id = pos 7;
  title = codes "t";
  description = none;
  status = codes "open";
  labels = codes "xb:inbound" ∷ source ∷ codes "xb-ref:r1" ∷ [];
}

-- A tracker whose issues come from one source label; `labels` says whether labels can be added.
abbrev a_repo : Text → Bool → CrosslinkRepo Sent
a_repo source labels = record {
  read_issue = λ i x. (ok (info_from source), x);
  list_by_label = λ a b x. (ok [], x);
  open_blockers = λ i x. (ok [], x);
  list_comments = λ i x. (ok [], x);
  tracker_remote = λ x. (ok none, x);
  comment_write = λ i k b r x. (ok (codes "c"), x);
  label_add = λ i l x. elim labels [ true ↦ (ok true, x) | false ↦ (err (codes "locked"), x) ];
  label_remove = λ i l x. (ok true, x);
  close_issue = λ i x. (ok true, x);
}

abbrev a_transport : AnswerTransport Sent
a_transport = record { answer = λ req x. (ok (record { remote_issue_id = pos 1 }), req ∷ x) }

abbrev no_transport : AnswerTransport Sent
no_transport = record { answer = λ req x. (err (codes "refused"), x) }

abbrev pending : Text → IssueRow
pending id = record (new_issue id merged 1) { phase_substate = some (codes "answer_pending") }

abbrev a_world : List IssueRow → World Sent
a_world rows = record {
  db = a_db rows [];
  log = record { lines = []; writes = 0; write_fails = λ n. false };
  ext = [];
}

abbrev three : List IssueRow
three = pending (codes "7") ∷ pending (codes "8") ∷ pending (codes "9") ∷ []

firmware : is_valid_peer_slug (codes "firmware") ≡ true
unfolding is_valid_peer_slug text_eq
firmware = refl

traversal : is_valid_peer_slug (codes "../x") ≡ false
unfolding is_valid_peer_slug text_eq
traversal = refl

a_retry : retry_guard (pos 7) 3 (pos 300) 1000 1307 ≡ attempt
unfolding retry_guard too_early due_after retry_jitter_s
a_retry = refl

a_wait : retry_guard (pos 7) 3 (pos 300) 1000 1306 ≡ skip rate_limited
unfolding retry_guard too_early due_after retry_jitter_s
a_wait = refl

-- Of three due issues two are delivered.
two_of_three :
    (deliver_pending
      (a_repo (codes "xb-source:firmware") true)
      a_transport
      (codes "own")
      (codes "/s")
      (pos 300)
      9
      (a_world three)).0
    ≡ ok (answered (pos 7) ∷ answered (pos 8) ∷ [])
unfolding text_leb deliver_pending sweep sweep_row due parse_i64 from_db_str text_eq
    attempt_delivery route label_value strip_prefix is_valid_peer_slug record_success
    set_phase_substate list_issues order_by_id execute emit_answer emit append append_event in_db
    in_log in_ext mapping_err try ◌>>=◌ ◌>>◌
two_of_three = refl

-- Where the courtesy label cannot be added no delivery is counted, and all three go to the wire.
uncounted :
    length
      (deliver_pending
        (a_repo (codes "xb-source:firmware") false)
        a_transport
        (codes "own")
        (codes "/s")
        (pos 300)
        9
        (a_world three)).1.ext
    ≡ 3
unfolding text_leb deliver_pending sweep sweep_row due parse_i64 from_db_str text_eq
    attempt_delivery route label_value strip_prefix is_valid_peer_slug record_success
    set_phase_substate list_issues order_by_id execute emit_answer emit append append_event in_db
    in_log in_ext mapping_err try ◌>>=◌ ◌>>◌
uncounted = refl

retry_guard_lem_example :
    (retry_guard (pos 7) 3 (pos 300) 1000 1307 ≡ attempt
      → (3 < max_answer_attempts) × (1000 + 300 ≤ 1307))
    × (3 < max_answer_attempts
        → 1000 + (300 + 300 / 4) ≤ 1307
        → retry_guard (pos 7) 3 (pos 300) 1000 1307 ≡ attempt)
retry_guard_lem_example = retry_guard_lem (pos 7) 3 300 1000 1307 (ground arith)

valid_slug_lem_example :
    (codes "firmware" ≢ [])
    × (codes "firmware" ≢ codes ".")
    × (codes "firmware" ≢ codes "..")
    × All (λ c. c ≢ b'/') (codes "firmware")
    × (length (codes "firmware") ≤ max_peer_slug_len)
valid_slug_lem_example = valid_slug_lem (codes "firmware") firmware

deliver_pending_bound_example :
    delivered (answered (pos 7) ∷ answered (pos 8) ∷ []) ≤ max_answer_deliveries_per_tick
deliver_pending_bound_example =
    deliver_pending_bound (a_repo (codes "xb-source:firmware") true) a_transport (codes "own")
      (codes "/s") (pos 300) 9 (a_world three) (answered (pos 7) ∷ answered (pos 8) ∷ [])
      two_of_three

-- An inbound issue that has just merged
abbrev ended : World Sent
ended = a_world (new_issue (codes "7") merged 1 ∷ [])

the_row : row (show_i64 (pos 7)) ended.db ≡ some (new_issue (codes "7") merged 1)
unfolding find_issue text_eq show_i64 show_nat
the_row = refl

queued : (on_issue_terminal (a_repo (codes "xb-source:firmware") true) (pos 7) ended).0 ≡ ok true
unfolding on_issue_terminal get_issue execute find_issue text_eq show_i64 show_nat is_terminal
    is_inbound set_phase_substate emit_answer emit append append_event in_db in_log in_ext
    mapping_err ◌>>=◌ ◌>>◌
queued = refl

labelled :
    label_value (info_from (codes "xb-source:../x")).labels xb_source_prefix ≡ some (codes "../x")
unfolding label_value strip_prefix
labelled = refl

queued_once_example :
    (q : IssueRow) × (row
        (show_i64 (pos 7))
        (on_issue_terminal (a_repo (codes "xb-source:firmware") true) (pos 7) ended).1.db
      ≡ some q)
    × (q.phase ≡ merged)
    × (((true ≡ false) × (q ≡ new_issue (codes "7") merged 1))
        ⊎ ((true ≡ true)
            × (is_terminal merged ≡ true)
            × (is_answer_substate (parsed_substate (new_issue (codes "7") merged 1)) ≡ false)
            × (q.phase_substate ≡ some (as_str answer_pending))
            × ((on_issue_terminal
                  (a_repo (codes "xb-source:firmware") true)
                  (pos 7)
                  (on_issue_terminal (a_repo (codes "xb-source:firmware") true) (pos 7) ended).1).0
                ≢ ok true)))
queued_once_example =
    queued_once (a_repo (codes "xb-source:firmware") true) (pos 7) (new_issue (codes "7") merged 1)
      true ended the_row queued

attempt_delivery_invalid_example :
    attempt_delivery
      (a_repo (codes "xb-source:../x") true)
      a_transport
      (codes "own")
      (codes "/s")
      (pos 7)
      answer_pending
      (a_world three)
    ≡ attempt_delivery
        (a_repo (codes "xb-source:../x") true)
        no_transport
        (codes "own")
        (codes "/t")
        (pos 7)
        answer_pending
        (a_world three)
attempt_delivery_invalid_example =
    attempt_delivery_invalid (a_repo (codes "xb-source:../x") true) a_transport no_transport
      (codes "own") (codes "own") (codes "/s") (codes "/t") (pos 7) answer_pending
      (info_from (codes "xb-source:../x")) (codes "../x") (a_world three) refl labelled traversal
