-- ===== src/Pump/Tick/Tests.antt =====
-- An approved inbound issue whose answer is still owed, and one that nobody approved.
use vetinari.Prelude.{
  All, err, ℕ, ◌⊎◌, ◌≡◌, refl, false, Text, codes, some, none, List, [], ◌∷◌, ok, starts_with,
  strip_prefix, text_eq, if◌then◌else◌,
}
use vetinari.Prelude.Int.{pos, show_i64, show_nat, parse_i64}
use vetinari.Prelude.Exec.{mapping_err, try, ◌>>=◌, ◌>>◌}
use vetinari.State.Enums.{
  from_db_str, graphed, awaiting_inbound_approval, answer_pending, as_str, phase_enum,
  substate_enum,
}
use vetinari.State.Rows.{IssueRow, new_issue}
use vetinari.State.Db.{execute}
use vetinari.State.Issues.{
  order_by_id, set_phase, find_issue, update_issue, set_phase_substate, get_issue, put_issue,
  upsert_issue,
}
use vetinari.State.Issues.Laws.{row}
use vetinari.State.Ledger.{append_event}
use vetinari.Events.{emit, append}
use vetinari.Phases.{IsKnown}
use vetinari.World.{in_db, in_log, in_ext}
use vetinari.World.Jj.{target_in}
use vetinari.Answer.{is_inbound}
use vetinari.Landing
use vetinari.Landing.{emit_transition}
use vetinari.Manager.{
  is_ancestor, resolve_change, bookmark_target, fast_forward_bookmark, guarded_move,
}
use vetinari.Landing.Local.{
  land_local, resume_from, rebase_step, after_rebase, move_step, after_move, complete_move,
  merged_step,
}
use vetinari.Answer.Delivery.{emit_answer}
use vetinari.Pump.Labels.{
  sanitize_inbound_labels, is_peer_forbidden_inbound_label, set_phase_label, remove_stale,
  has_label, inbound_approved_label,
}
use vetinari.Pump.Gate.{merged_issue}
use vetinari.Pump.Outcomes.{outcome_phase}
use vetinari.Pump.Sites.{a_site, world_of, a_row}
use vetinari.World.Toy.{Repo}
use vetinari.State.Tests.{a_db}
use vetinari.Pump.Steps.{note}
use vetinari.Pump.Gate
use vetinari.Pump.Land.{land, past_gate, land_by_mode, on_landing}
use vetinari.Pump.Tick.{
  resume_row, resume_approved_inbound, resume_numbered, resume_change, rearm, answer_still_owed,
  ingest, ingest_all, adopt_unblocked, adopt,
}
use vetinari.Pump.Tick.Ingest.{ingest_only_adopts}
use vetinari.World.{World}
use vetinari.Pump.Tick.Resume.{resume_rearms}
use vetinari.Pump.Tick.Unapproved.{ReadLaws, IsUnapproved, none_approved_lem}
use vetinari.Error.{PumpError}

abbrev parked : IssueRow
parked = record (a_row awaiting_inbound_approval) {
  landing_change = some (codes "abc");
  phase_substate = some (as_str answer_pending);
}

abbrev approved : List Text
approved = codes "xb:inbound" ∷ inbound_approved_label ∷ []

known : IsKnown (codes "7") (world_of parked).db.tables.issues
unfolding find_issue text_eq
known = (parked, refl)

resumed :
    (resume_row (a_site false approved) parked (world_of parked)).0
    ≡ ok (some (pos 7, merged_issue))
unfolding resume_row resume_numbered resume_change rearm answer_still_owed land Gate.land past_gate
    land_by_mode on_landing land_local resume_from is_inbound has_label set_phase_label remove_stale
    set_phase set_phase_substate note find_issue update_issue emit append append_event execute
    starts_with strip_prefix text_eq show_i64 show_nat parse_i64 in_db in_log in_ext mapping_err try
    ◌>>=◌ ◌>>◌ rebase_step Landing.set_phase is_ancestor resolve_change after_rebase move_step
    bookmark_target target_in after_move fast_forward_bookmark guarded_move complete_move
    merged_step emit_transition from_db_str
resumed = refl

resume_rearms_example :
    (q : IssueRow) × (row
        (codes "7")
        (resume_row (a_site false approved) parked (world_of parked)).1.db
      ≡ some q)
    × (q.phase ≡ outcome_phase merged_issue)
    × (q.phase_substate ≡ (if answer_still_owed parked then some (as_str answer_pending) else none))
resume_rearms_example =
    resume_rearms (a_site false approved) parked (pos 7) merged_issue (world_of parked) known
      resumed

the_laws : ReadLaws (a_site false []).repo
the_laws = record {
  labels_of = λ i x. [];
  read_issue_lem = λ i info x e. cc e;
  read_issue_labels = λ i j x. refl;
}

unapproved : All (IsUnapproved (λ i. [])) (order_by_id (world_of parked).db.tables.issues)
unfolding has_label order_by_id
unapproved = (λ phase i number. refl, tt)

none_approved_lem_example :
    ((resume_approved_inbound (a_site false []) (world_of parked)).1.db.tables
      ≡ (world_of parked).db.tables)
    × ((resume_approved_inbound (a_site false []) (world_of parked)).1.log ≡ (world_of parked).log)
    × (((resume_approved_inbound (a_site false []) (world_of parked)).0 ≡ ok [])
        ⊎ ((e : PumpError) × ((resume_approved_inbound (a_site false []) (world_of parked)).0
              ≡ err e)))
unfolding the_laws
none_approved_lem_example =
    none_approved_lem (a_site false []) the_laws (world_of parked) unapproved

-- A peer's issue that it has approved itself, against a `state.db` that does not know it.
abbrev unknown : World Repo
unknown = record (world_of parked) { db = a_db [] [] }

adopted :
    row (codes "7") (ingest (a_site false approved) unknown).1.db
    ≡ some (new_issue (codes "7") graphed 2)
unfolding ingest ingest_all adopt_unblocked adopt find_issue ◌>>=◌ mapping_err in_ext ◌>>◌ in_db
    get_issue execute is_inbound text_eq sanitize_inbound_labels is_peer_forbidden_inbound_label
    starts_with emit_answer emit append_event in_log append strip_prefix show_i64 show_nat put_issue
    upsert_issue
adopted = refl

ingest_only_adopts_example :
    (row (codes "7") (ingest (a_site false approved) unknown).1.db ≡ row (codes "7") unknown.db)
    ⊎ ((row (codes "7") unknown.db ≡ none)
        × ((t : ℕ) × (row (codes "7") (ingest (a_site false approved) unknown).1.db
              ≡ some (new_issue (codes "7") graphed t))))
ingest_only_adopts_example = ingest_only_adopts (a_site false approved) (codes "7") unknown
