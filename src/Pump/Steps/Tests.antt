-- ===== src/Pump/Steps/Tests.antt =====
-- The result of an attempt is posted once, also when another attempt or a recovery brings the same
-- file.
use vetinari.Prelude.{◌⊎◌, ◌≡◌, refl, true, false, codes, List, [], ◌∷◌, ok, err}
use vetinari.Prelude.Int.{pos, negsuc, show_i64}
use vetinari.Prelude.Exec.{mapping_err, ◌>>=◌, ◌>>◌}
use vetinari.State.Enums.{implementing}
use vetinari.State.Db.{execute}
use vetinari.State.Ledger.{has_key, is_posted, record_posted, insert_or_ignore}
use vetinari.World.{World, in_db, in_ext}
use vetinari.World.Toy.{Repo}
use vetinari.Artifacts.{result_comment}
use vetinari.Artifacts.Plan.{TranslationItem}
use vetinari.Error.{RecoveryError}
use vetinari.Recovery.Execute.{post_items}
use vetinari.Recovery.Execute.Replay.{replay_posts_nothing}
use vetinari.Pump.Sites.{a_tracker, a_site, world_of, a_row}
use vetinari.Pump.Steps.{post_item, post_plan}
use vetinari.Pump.Steps.Once.{plan_posted_once}

abbrev a_result : List TranslationItem
a_result =
    record {
      artifact_path = codes "result.md";
      content_sha = codes "ab";
      finding_index = negsuc 0;
      kind = result_comment;
      body = codes "done";
    }
    ∷ []

abbrev before : World Repo
before = world_of (a_row implementing)

abbrev after : World Repo
after =
    (post_plan (a_site false []) (pos 7) (codes "u1") (codes "implementer") false a_result before).1

one_posted :
    (post_plan (a_site false []) (pos 7) (codes "u1") (codes "implementer") false a_result before).0
    ≡ ok false
unfolding post_plan post_item is_posted record_posted insert_or_ignore has_key execute in_db in_ext
    mapping_err ◌>>=◌ ◌>>◌
one_posted = refl

plan_posted_once_example :
    ((post_plan
        (a_site false [])
        (pos 7)
        (codes "u2")
        (codes "adversary")
        true
        a_result
        after).1.ext
      ≡ after.ext)
    × ((post_plan
          (a_site false [])
          (pos 7)
          (codes "u2")
          (codes "adversary")
          true
          a_result
          after).1.db.tables
        ≡ after.db.tables)
plan_posted_once_example =
    plan_posted_once (a_site false []) (pos 7) (codes "u1") (codes "u2") (codes "implementer")
      (codes "adversary") false true false a_result before after one_posted (λ k h. h)

replay_posts_nothing_example :
    (((post_items (a_tracker []) (show_i64 (pos 7)) (pos 7) (codes "u1") a_result after).0 ≡ ok 0)
      ⊎ ((e : RecoveryError) × ((post_items
              (a_tracker [])
              (show_i64 (pos 7))
              (pos 7)
              (codes "u1")
              a_result
              after).0
            ≡ err e)))
    × ((post_items (a_tracker []) (show_i64 (pos 7)) (pos 7) (codes "u1") a_result after).1.ext
        ≡ after.ext)
    × ((post_items
          (a_tracker [])
          (show_i64 (pos 7))
          (pos 7)
          (codes "u1")
          a_result
          after).1.db.tables
        ≡ after.db.tables)
replay_posts_nothing_example =
    replay_posts_nothing (a_site false []) (a_tracker []) (pos 7) (codes "u1") (codes "u1")
      (codes "implementer") false false a_result before after one_posted (λ k h. h)
