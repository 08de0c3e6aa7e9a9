-- ===== src/Pump/Implement/Tests.antt =====
-- A failed QA run of an issue at its first round: back to the Implementer.
use vetinari.Prelude.{
  ◌-◌, ◌+◌, ◌≡◌, ◌<◌, ◌≤◌, ◌⊎◌, refl, false, codes, some, [], ok, starts_with, strip_prefix,
  text_eq,
}
use vetinari.Prelude.Int.{pos, show_i64, show_nat, parse_i64}
use vetinari.Prelude.Exec.{mapping_err, try, ◌>>=◌, ◌>>◌}
use vetinari.State.Enums.{Phase, qa_gate, orchestrator_error}
use vetinari.State.Rows.{IssueRow}
use vetinari.State.Db.{execute}
use vetinari.State.Issues.{get_issue, set_phase, find_issue, update_issue, upsert_issue, put_issue}
use vetinari.State.Issues.Laws.{row}
use vetinari.State.Ledger.{append_event}
use vetinari.Events.{emit, append}
use vetinari.World.{in_db, in_log, in_ext}
use vetinari.Names.{WorkspaceName, from_parts, rendered}
use vetinari.Recovery.Workers.{forget}
use vetinari.Pump.Labels.{set_phase_label, remove_stale}
use vetinari.Pump.Gate.{requeued, orchestrator_error_issue}
use vetinari.Pump.Sites.{a_site, world_of, a_row}
use vetinari.Pump.Steps.{transition_issue, label_issue, note, store_issue}
use vetinari.Pump.Steps.Laws.{StandsAt}
use vetinari.Pump.Implement.{retry_or_poison, on_qa_fail}
use vetinari.Pump.Implement.Retry.{Requeued}
use vetinari.Pump.Implement.Requeues.{qa_history_bounded, start, again}
use vetinari.World.{World}
use vetinari.World.Toy.{Repo}

abbrev in_qa : IssueRow
in_qa = a_row qa_gate

abbrev workspace : WorkspaceName
workspace = from_parts Phase.implementing (codes "7") 0 (codes "00000000")

first_retry :
    (on_qa_fail
      (a_site false [])
      (pos 7)
      (codes "7")
      workspace
      (pos 1)
      (codes "E")
      (world_of in_qa)).0
    ≡ ok requeued
unfolding on_qa_fail retry_or_poison store_issue transition_issue set_phase_label remove_stale
    label_issue note get_issue set_phase find_issue update_issue upsert_issue put_issue emit append
    append_event execute starts_with strip_prefix text_eq show_i64 show_nat parse_i64 forget
    from_parts rendered in_db in_log in_ext mapping_err try ◌>>=◌ ◌>>◌
first_retry = refl

-- The world after one retry, and a second failed run in it
abbrev retried_once : World Repo
retried_once =
    (on_qa_fail (a_site false []) (pos 7) (codes "7") workspace (pos 1) (codes "E")
      (world_of in_qa)).1

second_retry :
    (on_qa_fail (a_site false []) (pos 7) (codes "7") workspace (pos 1) (codes "E") retried_once).0
    ≡ ok requeued
unfolding on_qa_fail retry_or_poison store_issue transition_issue set_phase_label remove_stale
    label_issue note get_issue set_phase find_issue update_issue upsert_issue put_issue emit append
    append_event execute starts_with strip_prefix text_eq show_i64 show_nat parse_i64 forget
    from_parts rendered in_db in_log in_ext mapping_err try ◌>>=◌ ◌>>◌
second_retry = refl

qa_history_bounded_example :
    (1 ≤ 2 - 0)
    × (q : IssueRow) × (row (codes "7") retried_once.db ≡ some q)
    × (0 + 1 ≤ q.round)
    × (p : IssueRow) × (row
          (codes "7")
          (on_qa_fail
            (a_site false [])
            (pos 7)
            (codes "7")
            workspace
            (pos 1)
            (codes "E")
            retried_once).1.db
        ≡ some p)
    × (((q.round + 1 < 3) × (requeued ≡ requeued) × Requeued q.round p)
        ⊎ ((3 ≤ q.round + 1)
            × (requeued ≡ orchestrator_error_issue)
            × StandsAt orchestrator_error p))
unfolding text_eq find_issue
qa_history_bounded_example =
    qa_history_bounded (a_site false []) (pos 7) (codes "7") workspace (pos 1) (codes "E") 1
      (world_of in_qa) retried_once in_qa requeued refl
      (again workspace (pos 1) (codes "E") first_retry start) second_retry
