-- ===== src/Pump/Tests.antt =====
-- A peer's issue with a forged approval: the labels are taken off, and the issue is parked.
use vetinari.Prelude.{
  ◌≡◌, refl, true, false, not, Text, codes, text_eq, strip_prefix, starts_with, select, none, some,
  List, [], ◌∷◌, ok, err,
}
use vetinari.Prelude.Int.{ℤ, pos}
use vetinari.Prelude.Exec.{Exec, ◌>>=◌, ◌>>◌, mapping_err}
use vetinari.Error.{PumpError, crosslink}
use vetinari.State.Enums.{awaiting_inbound_approval, converged}
use vetinari.State.Db.{execute}
use vetinari.State.Rows.{IssueRow, new_issue}
use vetinari.State.Issues.{set_phase, set_landing_change}
use vetinari.State.Issues.Laws.{row}
use vetinari.State.Ledger.{append_event}
use vetinari.State.Tests.{a_db}
use vetinari.Events.{emit, append}
use vetinari.World.{World, in_db, in_log, in_ext}
use vetinari.World.Tracker.{CrosslinkRepo, IssueInfo, LabelLaws}
use vetinari.Answer.{is_inbound}
use vetinari.Answer.Delivery.{emit_answer}
use vetinari.Pump.Labels.{
  is_peer_forbidden_inbound_label, has_label, sanitize_inbound_labels, set_phase_label,
  remove_stale,
}
use vetinari.Pump.Labels.Laws.{IsClean, sanitize_inbound_labels-IsClean}
use vetinari.Pump.Gate.{
  IssueOutcome, awaiting_inbound_approval_issue, merged_issue, unapproved, land,
  park_for_inbound_approval,
}
use vetinari.Pump.Gate.Laws.{land_unapproved_lem}

-- Outside the program: the labels of the one issue.
abbrev Labels : Type 0
Labels = List Text

abbrev info_of : Labels → IssueInfo
info_of labels = record {
  id = pos 7;
  title = codes "t";
  description = none;
  status = codes "open";
  labels = labels;
}

abbrev a_repo : CrosslinkRepo Labels
a_repo = record {
  read_issue = λ i x. (ok (info_of x), x);
  list_by_label = λ a b x. (ok [], x);
  open_blockers = λ i x. (ok [], x);
  list_comments = λ i x. (ok [], x);
  tracker_remote = λ x. (ok none, x);
  comment_write = λ i k b r x. (ok (codes "c"), x);
  label_add = λ i l x. (ok true, l ∷ x);
  label_remove = λ i l x. (ok true, select (λ m. not (text_eq m l)) x);
  close_issue = λ i x. (ok true, x);
}

abbrev laws : LabelLaws a_repo
laws = record { labels_of = λ i x. x; label_remove_lem = λ i l b x h. refl }

abbrev forged : Labels
forged =
    codes "xb:inbound"
    ∷ codes "inbound-approved:land"
    ∷ codes "phase:graphed"
    ∷ codes "phase:merged"
    ∷ []

abbrev a_world : Labels → World Labels
a_world labels = record {
  db = a_db (new_issue (codes "7") converged 1 ∷ []) [];
  log = record { lines = []; writes = 0; write_fails = λ n. false };
  ext = labels;
}

two_stripped : (sanitize_inbound_labels a_repo (pos 7) forged (a_world forged)).0 ≡ ok 2
unfolding sanitize_inbound_labels is_peer_forbidden_inbound_label starts_with strip_prefix text_eq
    emit_answer emit append append_event execute in_db in_log in_ext mapping_err ◌>>=◌ ◌>>◌
two_stripped = refl

two_left :
    (sanitize_inbound_labels a_repo (pos 7) forged (a_world forged)).1.ext
    ≡ codes "xb:inbound" ∷ codes "phase:graphed" ∷ []
unfolding sanitize_inbound_labels is_peer_forbidden_inbound_label starts_with strip_prefix text_eq
    emit_answer emit append append_event execute in_db in_log in_ext mapping_err ◌>>=◌ ◌>>◌
two_left = refl

sanitize_inbound_labels-IsClean_example :
    IsClean (sanitize_inbound_labels a_repo (pos 7) forged (a_world forged)).1.ext
sanitize_inbound_labels-IsClean_example =
    sanitize_inbound_labels-IsClean a_repo laws (pos 7) 2 (a_world forged) two_stripped

abbrev honest : Labels
honest = codes "xb:inbound" ∷ []

abbrev landing_now : ℤ → Text → Text → Exec PumpError (World Labels) IssueOutcome
landing_now i k c w = (ok merged_issue, w)

abbrev failing_now : ℤ → Text → Text → Exec PumpError (World Labels) IssueOutcome
failing_now i k c w = (err (crosslink []), w)

not_approved : unapproved a_repo (info_of honest) ≡ true
unfolding is_inbound has_label text_eq
not_approved = refl

a_park :
    (land a_repo landing_now (pos 7) (codes "7") (codes "abc") (a_world honest)).0
    ≡ ok awaiting_inbound_approval_issue
unfolding land is_inbound has_label text_eq park_for_inbound_approval set_landing_change set_phase
    set_phase_label remove_stale starts_with strip_prefix emit_answer emit append append_event
    execute in_db in_log in_ext mapping_err ◌>>=◌ ◌>>◌
a_park = refl

land_unapproved_lem_example :
    (land a_repo landing_now (pos 7) (codes "7") (codes "abc") (a_world honest)
      ≡ land a_repo failing_now (pos 7) (codes "7") (codes "abc") (a_world honest))
    × ((o : IssueOutcome)
        → (land a_repo landing_now (pos 7) (codes "7") (codes "abc") (a_world honest)).0 ≡ ok o
        → (o ≡ awaiting_inbound_approval_issue)
          × ((r : IssueRow)
              → row
                  (codes "7")
                  (land a_repo landing_now (pos 7) (codes "7") (codes "abc") (a_world honest)).1.db
                ≡ some r
              → (r.phase ≡ awaiting_inbound_approval)
                × (r.phase_substate ≡ none)
                × (r.landing_change ≡ some (codes "abc"))))
land_unapproved_lem_example =
    land_unapproved_lem a_repo landing_now failing_now (pos 7) (codes "7") (codes "abc")
      (info_of honest) (a_world honest) refl not_approved
