-- ===== src/Landing/Slug/Tests.antt =====
-- The examples of landing.rs's tests.
use vetinari.Prelude.{◌≡◌, refl, true, Text, codes, some, ◌++◌}
use vetinari.Landing.Slug.{
  branch_name, slugify, capped, trim, trim_start, trim_end, fold, before_last,
}
use vetinari.Landing.Slug.Laws.{branch_name_lem, reads}

design_example :
    branch_name (codes "42") (codes "Add batch retry logic for sync")
    ≡ codes "vdd/42-add-batch-retry-logic-for-sync"
unfolding branch_name slugify capped trim trim_start trim_end fold
design_example = refl

a_word_boundary : slugify (codes "alpha beta gamma") (some 12) ≡ codes "alpha-beta"
unfolding slugify capped trim trim_start trim_end fold before_last
a_word_boundary = refl

sentinels : branch_name (codes "--") (codes "!!!") ≡ codes "vdd/issue"
unfolding branch_name slugify capped trim trim_start trim_end fold
sentinels = refl

branch_name_lem_example :
    (body : Text) × (branch_name (codes "42") (codes "Add x") ≡ codes "vdd/" ++ body)
    × (reads true body ≡ true)
branch_name_lem_example = branch_name_lem (codes "42") (codes "Add x")
