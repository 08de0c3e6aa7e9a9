-- ===== src/State/Tests.antt =====
-- Test databases, and tests of the statements of `StateDb` on them.
use vetinari.Prelude.{◌+◌, ◌≡◌, ◌≤◌, refl, true, false, Text, codes, text_eq, List, [], ◌∷◌, ok}
use vetinari.Prelude.Int.{pos}
use vetinari.Prelude.Exec.{◌>>◌}
use vetinari.State.Enums.{landing, graphed}
use vetinari.State.Rows.{IssueRow, PostedArtifact, Tables, new_issue}
use vetinari.State.Db.{StateDb, execute}
use vetinari.State.Schema.{migrate, schema_version}
use vetinari.State.Schema.Laws.{migrate_lem}
use vetinari.State.Issues.{
  find_issue, update_issue, record_answer_unreachable, retire_answer_unreachable,
}
use vetinari.State.Issues.Laws.{row, attempts_stored, attempts}
use vetinari.State.Ledger.{key_of, key_eq, is_posted, record_posted, insert_or_ignore, has_key}
use vetinari.State.Ledger.Laws.{record_all, posts_at_most_once}

abbrev pub two_issues : List IssueRow
two_issues = new_issue (codes "7") landing 1 ∷ new_issue (codes "8") graphed 1 ∷ []

abbrev pub tables_of : List IssueRow → List PostedArtifact → Tables
tables_of is ps = record { user_version = 3; issues = is; workers = []; posted = ps; events = [] }

-- A database whose statements all succeed, with a clock that counts them.
abbrev pub a_db : List IssueRow → List PostedArtifact → StateDb
a_db is ps = record { tables = tables_of is ps; statements = 0; fails = λ n. false; now = λ n. n }

abbrev comment : Text → PostedArtifact
comment worker = record {
  issue_id = codes "7";
  artifact_path = codes "result.md";
  content_sha = codes "ab";
  finding_index = pos 0;
  worker_uuid = worker;
  comment_id = codes "1";
  posted_at = 5;
}

abbrev old_db : StateDb
old_db =
    let db = a_db two_issues [] in
    record db { tables = record (tables_of two_issues []) { user_version = 1 } }

migrate_lem_example :
    ((migrate old_db).0 ≡ ok tt
      → ((migrate old_db).1.tables.user_version ≡ schema_version)
        × (old_db.tables.user_version ≤ schema_version))
    × (schema_version ≤ old_db.tables.user_version → (migrate old_db).1.tables ≡ old_db.tables)
    × (old_db.tables.user_version ≤ (migrate old_db).1.tables.user_version)
migrate_lem_example = migrate_lem old_db

-- The ledger holds the comment of another artifact, and then this one.
abbrev earlier : PostedArtifact
earlier = record (comment (codes "w1")) { content_sha = codes "cd" }

abbrev posted_db : StateDb
posted_db = a_db two_issues (earlier ∷ comment (codes "w1") ∷ [])

one_comment : posted_db.tables.posted ≡ record_all (comment (codes "w1") ∷ []) (earlier ∷ [])
unfolding record_all insert_or_ignore has_key key_eq text_eq
one_comment = refl

posts_at_most_once_example :
    ((is_posted (key_of (comment (codes "w1"))) posted_db).0 ≡ ok true)
    × ((record_posted (comment (codes "w2")) posted_db).0 ≡ ok false)
    × ((record_posted (comment (codes "w2")) posted_db).1.tables ≡ posted_db.tables)
posts_at_most_once_example =
    posts_at_most_once (comment (codes "w1")) (comment (codes "w2")) (earlier ∷ []) [] posted_db
      refl one_comment refl

attempts_stored_example :
    ((record_answer_unreachable (codes "7") (a_db two_issues [])).0 ≡ ok 1
      → (attempts (row (codes "7") (record_answer_unreachable (codes "7") (a_db two_issues [])).1)
          ≡ 1)
        × (1 ≡ attempts (row (codes "7") (a_db two_issues [])) + 1))
    × ((retire_answer_unreachable (codes "7") 12 (a_db two_issues [])).0 ≡ ok 1
        → (attempts
              (row (codes "7") (retire_answer_unreachable (codes "7") 12 (a_db two_issues [])).1)
            ≡ 1)
          × (12 ≤ 1)
          × (attempts (row (codes "7") (a_db two_issues [])) ≤ 1))
attempts_stored_example = attempts_stored (codes "7") 12 1 (a_db two_issues [])

a_first_failure : (record_answer_unreachable (codes "7") (a_db two_issues [])).0 ≡ ok 1
unfolding record_answer_unreachable execute find_issue update_issue text_eq ◌>>◌
a_first_failure = refl

a_retirement : (retire_answer_unreachable (codes "7") 12 (a_db two_issues [])).0 ≡ ok 12
unfolding retire_answer_unreachable execute find_issue update_issue text_eq ◌>>◌
a_retirement = refl
