-- ===== src/State/Ledger/Laws.antt =====
-- A recorded key stays recorded, and is refused from then on.
use vetinari.Prelude.{
  ◌≡◌, refl, ◌↔◌, true, false, ◌||◌, text_eq_iff, List, [], ◌∷◌, ◌++◌, ap, arith, ok,
}
use vetinari.Prelude.Int.{ℤ, pos, negsuc, eq_ℤ}
use vetinari.State.Rows.{PostedArtifact}
use vetinari.State.Db.{StateDb, execute}
use vetinari.State.Ledger.{Key, key_of, key_eq, has_key, insert_or_ignore, record_posted, is_posted}

eq_ℤ_iff : (a b : ℤ) → (eq_ℤ a b ≡ true) ↔ (a ≡ b)
eq_ℤ_iff (pos a) (pos b) = ground arith
eq_ℤ_iff (pos a) (negsuc b) = ground arith
eq_ℤ_iff (negsuc a) (pos b) = ground arith
eq_ℤ_iff (negsuc a) (negsuc b) = ground arith

pub key_eq_iff : (a b : Key) → (key_eq a b ≡ true) ↔ (a ≡ b)
unfolding key_eq
key_eq_iff a b = ground (
  arith,
  text_eq_iff a.issue_id b.issue_id,
  text_eq_iff a.artifact_path b.artifact_path,
  text_eq_iff a.content_sha b.content_sha,
  eq_ℤ_iff a.finding_index b.finding_index,
)

pub has_key-append :
    (k : Key) (xs ys : List PostedArtifact) → has_key k (xs ++ ys) ≡ (has_key k xs || has_key k ys)
unfolding has_key
has_key-append k [] ys = refl
has_key-append k (x ∷ xs) ys = ground (arith, has_key-append k xs ys)

-- The ledger after a sequence of `INSERT OR IGNORE`s.
unfoldable pub record_all : List PostedArtifact → List PostedArtifact → List PostedArtifact
record_all [] rows = rows
record_all (p ∷ ps) rows = record_all ps (insert_or_ignore p rows).1

has_key-snoc :
    (k : Key) (p : PostedArtifact) (rows : List PostedArtifact)
    → has_key k (rows ++ p ∷ []) ≡ (has_key k rows || key_eq (key_of p) k)
unfolding has_key
has_key-snoc k p rows = ground (arith, has_key-append k rows (p ∷ []))

pub has_key-insert :
    (k : Key) (p : PostedArtifact) (rows : List PostedArtifact)
    → has_key k (insert_or_ignore p rows).1 ≡ (has_key k rows || key_eq (key_of p) k)
unfolding insert_or_ignore
has_key-insert k p rows = ground (arith, has_key-snoc k p rows, key_eq_iff (key_of p) k)

-- A key once in the ledger stays in it.
has_key-record_all :
    (k : Key) (ps rows : List PostedArtifact)
    → has_key k rows ≡ true
    → has_key k (record_all ps rows) ≡ true
unfolding record_all
has_key-record_all k [] rows h = h
has_key-record_all k (p ∷ ps) rows h =
    has_key-record_all k ps (insert_or_ignore p rows).1 (ground (arith, has_key-insert k p rows))

recorded :
    (p : PostedArtifact) (rows : List PostedArtifact)
    → has_key (key_of p) (insert_or_ignore p rows).1 ≡ true
recorded p rows = ground (arith, has_key-insert (key_of p) p rows, key_eq_iff (key_of p) (key_of p))

-- The idempotency guard: after `p` was offered to a ledger, whatever the ledger held and whatever was
-- offered to it later, `is_posted` answers `true` for `p`'s key, and offering any row `q` with that
-- key returns `false` and leaves the ledger as it is, whichever worker produced `q`.
pub posts_at_most_once :
    (p q : PostedArtifact) (before ps : List PostedArtifact) (db : StateDb)
    → key_of q ≡ key_of p
    → db.tables.posted ≡ record_all (p ∷ ps) before
    → db.fails db.statements ≡ false
    → ((is_posted (key_of p) db).0 ≡ ok true)
      × ((record_posted q db).0 ≡ ok false)
      × ((record_posted q db).1.tables ≡ db.tables)
unfolding is_posted record_posted execute insert_or_ignore record_all
posts_at_most_once p q before ps db same rows works =
    let known =
      has_key-record_all (key_of p) ps (insert_or_ignore p before).1 (recorded p before) in
    ground (arith, ap (has_key (key_of p)) rows, known, ap (λ k. has_key k db.tables.posted) same)
