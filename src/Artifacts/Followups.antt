-- ===== src/Artifacts/Followups.antt =====
-- `FollowupProposal` and `Followups` of crates/orchestrator/src/artifacts.rs.
use vetinari.Prelude.{
  ℕ, suc, ◌*◌, Bool, false, ◌||◌, Text, codes, msg, Option, none, some, List, [], ◌∷◌, ◌++◌, length,
  any, ltb, leb, ◌==◌, Result, ok, err, if◌then◌else◌,
}
use vetinari.Prelude.Int.{ℤ, show_i64}
use vetinari.Prelude.Strings.{lines, is_blank, byte_len, newline, carriage_return}
use vetinari.Artifacts.{ArtifactError, schema_violation, Formats, RawFollowup}

-- `blocker_lines` is `\n- #id` for each suggested blocker
unfoldable pub blocker_lines : List ℤ → Text
blocker_lines [] = []
blocker_lines (id ∷ ids) = newline ∷ codes "- #" ++ show_i64 id ++ blocker_lines ids

abbrev blockers_part : List ℤ → Text
blockers_part [] = []
blockers_part (id ∷ ids) =
    newline ∷ newline ∷ msg "suggested blockers (advisory — NOT wired; a human decides):"
    ++ blocker_lines (id ∷ ids)

abbrev sketch_part : Option Text → Text
sketch_part none = []
sketch_part (some sketch) = newline ∷ newline ∷ codes "gate sketch:" ++ newline ∷ sketch

-- A `FollowupProposal` has the fields of its wire form.
unfoldable pub proposal_body : RawFollowup → Text
proposal_body p =
    msg "**Follow-up proposal** — "
    ++ p.title
    ++ newline ∷ newline ∷ p.rationale
    ++ blockers_part p.suggested_blockers
    ++ sketch_part p.gate_sketch

abbrev sketch_too_long : Option Text → Bool
sketch_too_long none = false
sketch_too_long (some sketch) = ltb 2000 (byte_len sketch)

-- The checks on one proposal, in their order; they all reject alike.
unfoldable pub is_rejected : RawFollowup → Bool
is_rejected raw =
    is_blank raw.title
    || (any (λ c. c == carriage_return || c == newline) raw.title
        || (ltb 200 (byte_len raw.title)
            || (ltb 4000 (byte_len raw.rationale)
                || (sketch_too_long raw.gate_sketch || ltb 32 (length raw.suggested_blockers)))))

module _ {X : Type 0} (formats : Formats X) (path : Text) where
  unfoldable pub proposal_line : ℕ → Text → Result ArtifactError RawFollowup
  proposal_line line_no line = elim (formats.followup_from_json line) [
    | none ↦ err (schema_violation path line_no)
    | some raw ↦ if is_rejected raw then err (schema_violation path line_no) else ok raw
  ]

  abbrev push :
      Result ArtifactError RawFollowup
      → Result ArtifactError (List RawFollowup)
      → Result ArtifactError (List RawFollowup)
  push (err e) rest = err e
  push (ok p) (err e) = err e
  push (ok p) (ok ps) = ok (p ∷ ps)

  unfoldable pub proposal_lines : ℕ → ℕ → List Text → Result ArtifactError (List RawFollowup)
  proposal_lines line_no found [] = ok []
  proposal_lines line_no found (line ∷ rest) =
      let skipped = proposal_lines (suc line_no) found rest in
      let pushed =
        push (proposal_line line_no line) (proposal_lines (suc line_no) (suc found) rest) in
      if is_blank line
      then skipped
      else if leb 32 found
      then err (schema_violation path line_no)
      else pushed

  unfoldable pub parse_followups : Text → Result ArtifactError (List RawFollowup)
  parse_followups content =
      if ltb (512 * 1024) (byte_len content)
      then err (schema_violation path 1)
      else proposal_lines 1 0 (lines content)
