-- ===== src/Answer/Delivery/Laws.antt =====
-- Who is answered: an ended issue once, and never through a slug that is no slug.
use vetinari.Prelude.{
  ◌≡◌, ◌≢◌, ◌⊎◌, refl, true, false, Text, Option, none, some, ok, inl, inr, Bool-cases,
}
use vetinari.Prelude.Int.{ℤ, show_i64}
use vetinari.Prelude.Exec.{pure, mapping_err, ◌>>=◌}
use vetinari.State.Enums.{PhaseSubstate, is_terminal}
use vetinari.State.Db.{execute}
use vetinari.State.Rows.{IssueRow}
use vetinari.State.Issues.{get_issue}
use vetinari.State.Issues.Laws.{row}
use vetinari.World.{World, in_db, in_ext}
use vetinari.World.Tracker.{CrosslinkRepo, AnswerTransport, IssueInfo}
use vetinari.Answer.{label_value, xb_source_prefix, xb_ref_prefix}
use vetinari.Answer.Retry.{is_valid_peer_slug}
use vetinari.Answer.Delivery.{
  on_issue_terminal, trigger_row, is_answer_substate, parsed_substate, route, attempt_delivery,
}

trigger_row-false :
    {X : Type 0} (repo : CrosslinkRepo X) (issue_id : ℤ) (r : IssueRow) (w : World X)
    → (is_terminal r.phase ≡ false) ⊎ (is_answer_substate (parsed_substate r) ≡ true)
    → trigger_row repo issue_id (some r) w ≡ (ok false, w)
unfolding trigger_row pure
trigger_row-false repo issue_id r w (inl h) = rw h refl
trigger_row-false repo issue_id r w (inr h) = elim (Bool-cases (is_terminal r.phase)) [
  | inl t ↦ rw t (rw h refl)
  | inr t ↦ rw t refl
]

-- The trigger leaves alone an issue that is at no terminal phase, and one that is in the answer
-- machine already: no table changes, crosslink is not asked, and nothing is reported as queued.
pub on_issue_terminal_lem :
    {X : Type 0} (repo : CrosslinkRepo X) (issue_id : ℤ) (r : IssueRow) (w : World X)
    → (is_terminal r.phase ≡ false) ⊎ (is_answer_substate (parsed_substate r) ≡ true)
    → row (show_i64 issue_id) w.db ≡ some r
    → ((on_issue_terminal repo issue_id w).1.db.tables ≡ w.db.tables)
      × ((on_issue_terminal repo issue_id w).1.ext ≡ w.ext)
      × ((on_issue_terminal repo issue_id w).0 ≢ ok true)
unfolding on_issue_terminal get_issue execute in_db mapping_err ◌>>=◌
on_issue_terminal_lem repo issue_id r w h e = elim (Bool-cases (w.db.fails w.db.statements)) [
  | inl f ↦ rw f (refl, refl, λ c. cc c)
  | inr f ↦ rw f (rw e (rw (trigger_row-false repo issue_id r _ h) (refl, refl, λ c. cc c)))
]

route_invalid :
    {X : Type 0} (repo : CrosslinkRepo X) (t t' : AnswerTransport X) (own own' root root' : Text)
    (issue_id : ℤ) (sub : PhaseSubstate) (slug : Text) (uuid : Option Text) (w : World X)
    → is_valid_peer_slug slug ≡ false
    → route repo t own root issue_id sub (some slug) uuid w
      ≡ route repo t' own' root' issue_id sub (some slug) uuid w
unfolding route
route_invalid repo t t' own own' root root' issue_id sub slug none w h = refl
route_invalid repo t t' own own' root root' issue_id sub slug (some u) w h = rw h refl

-- A peer slug that is not accepted never reaches the transport: the delivery is the same whatever
-- the transport does, this node's slug is, and the socket directory is.
pub attempt_delivery_invalid :
    {X : Type 0} (repo : CrosslinkRepo X) (t t' : AnswerTransport X) (own own' root root' : Text)
    (issue_id : ℤ) (sub : PhaseSubstate) (info : IssueInfo) (slug : Text) (w : World X)
    → (repo.read_issue issue_id w.ext).0 ≡ ok info
    → label_value info.labels xb_source_prefix ≡ some slug
    → is_valid_peer_slug slug ≡ false
    → attempt_delivery repo t own root issue_id sub w
      ≡ attempt_delivery repo t' own' root' issue_id sub w
unfolding attempt_delivery in_ext mapping_err ◌>>=◌
attempt_delivery_invalid repo t t' own own' root root' issue_id sub info slug w e l h = rw e (
    rw l (
      route_invalid repo t t' own own' root root' issue_id sub slug
        (label_value info.labels xb_ref_prefix) _ h))
