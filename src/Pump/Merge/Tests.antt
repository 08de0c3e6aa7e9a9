-- ===== src/Pump/Merge/Tests.antt =====
-- A Merger that exceeds its timeout: the issue is parked for a human, and its attempt is spent.
use vetinari.Prelude.{
  arith, ◌≡◌, refl, true, codes, msg, some, [], ok, starts_with, strip_prefix, text_eq,
}
use vetinari.Prelude.Int.{pos, show_i64, show_nat, parse_i64}
use vetinari.Prelude.Exec.{mapping_err, try, ◌>>=◌, ◌>>◌}
use vetinari.State.Enums.{Phase, landing}
use vetinari.State.Rows.{IssueRow}
use vetinari.State.Db.{execute}
use vetinari.State.Issues.{get_issue, set_phase, find_issue, update_issue, upsert_issue, put_issue}
use vetinari.State.Issues.Laws.{row}
use vetinari.State.Ledger.{append_event}
use vetinari.State.Workers.{upsert_worker, remove_worker}
use vetinari.Events.{emit, append}
use vetinari.Phases.{IsKnown}
use vetinari.World.{World, in_db, in_log, in_ext}
use vetinari.World.Jj.{target_in}
use vetinari.World.Toy.{Repo}
use vetinari.Answer.Delivery.{db_step}
use vetinari.Names.{from_parts, rendered}
use vetinari.Recovery.Workers.{forget}
use vetinari.Manager.{bookmark_target}
use vetinari.Pump.Labels.{set_phase_label, remove_stale}
use vetinari.Pump.Gate.{awaiting_human_merge_issue}
use vetinari.Pump.Sites.{a_site, world_of, a_row}
use vetinari.Pump.Steps.{
  note, store_issue, fresh_uuid, close, forget_quietly, current_round, register_worker,
  unregister_worker,
}
use vetinari.Pump.Merge.{
  resolve_conflict_with_merger, run_merger, target_or_forget, on_conflict_render, on_merger_exit,
  merge_failed, park_for_human, post_conflict_blocker,
}
use vetinari.Pump.Merge.Once.{merger_spawned_once}

abbrev conflicted : World Repo
conflicted = world_of (a_row landing)

known : IsKnown (codes "7") conflicted.db.tables.issues
unfolding find_issue text_eq
known = (a_row landing, refl)

parked :
    (resolve_conflict_with_merger
      (a_site true [])
      (pos 7)
      (codes "7")
      (codes "abc")
      (codes "abd")
      conflicted).0
    ≡ ok awaiting_human_merge_issue
unfolding resolve_conflict_with_merger run_merger target_or_forget on_conflict_render on_merger_exit
    merge_failed park_for_human post_conflict_blocker bookmark_target store_issue set_phase_label
    remove_stale current_round forget_quietly fresh_uuid close register_worker unregister_worker
    upsert_worker remove_worker note get_issue set_phase find_issue update_issue upsert_issue
    put_issue emit append append_event execute starts_with strip_prefix text_eq show_i64 show_nat
    parse_i64 forget from_parts rendered in_db in_log in_ext mapping_err try ◌>>=◌ ◌>>◌ target_in
parked = refl

abbrev after : World Repo
after =
    (resolve_conflict_with_merger (a_site true []) (pos 7) (codes "7") (codes "abc") (codes "abd")
      conflicted).1

abbrev spent_row : IssueRow
spent_row = record (a_row Phase.awaiting_human_merge) { landing_retry_count = 1; updated_at = 7 }

spent : row (codes "7") after.db ≡ some spent_row
unfolding resolve_conflict_with_merger run_merger target_or_forget on_conflict_render on_merger_exit
    merge_failed park_for_human post_conflict_blocker bookmark_target store_issue set_phase_label
    remove_stale current_round forget_quietly fresh_uuid close register_worker unregister_worker
    upsert_worker remove_worker note get_issue set_phase find_issue update_issue upsert_issue
    put_issue emit append append_event execute starts_with strip_prefix text_eq show_i64 show_nat
    parse_i64 forget from_parts rendered in_db in_log in_ext mapping_err try ◌>>=◌ ◌>>◌ target_in
spent = refl

merger_spawned_once_example :
    resolve_conflict_with_merger
      (a_site true [])
      (pos 7)
      (codes "7")
      (codes "abe")
      (codes "abf")
      after
    ≡ (db_step (get_issue (codes "7")) >>= λ r.
          park_for_human
            (a_site true [])
            (pos 7)
            (codes "7")
            (msg "rebase still conflicts after a Merger attempt"))
        after
merger_spawned_once_example =
    merger_spawned_once (a_site true []) (pos 7) (codes "7") (codes "abc") (codes "abd")
      (codes "abe") (codes "abf") awaiting_human_merge_issue conflicted after spent_row spent_row
      known parked spent spent (omega arith)
