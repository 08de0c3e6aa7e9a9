-- ===== src/State/Schema/Laws.antt =====
-- What `migrate` does at each version of the database.
use vetinari.Prelude.{◌≤◌, ◌≡◌, arith, ok}
use vetinari.Prelude.Exec.{mapping_err, ◌>>=◌, ◌>>◌}
use vetinari.State.Db.{StateDb, execute}
use vetinari.State.Schema.{schema_version, script, apply_migration, migrate}

-- If `migrate` returns without error the database is at `schema_version`, it was at that version or
-- below, and at that version already nothing was changed; at a newer version `migrate` fails and
-- changes no table; and whatever fails, the version never goes down.
pub migrate_lem :
    (db : StateDb)
    → ((migrate db).0 ≡ ok tt
        → ((migrate db).1.tables.user_version ≡ schema_version)
          × (db.tables.user_version ≤ schema_version))
      × (schema_version ≤ db.tables.user_version → (migrate db).1.tables ≡ db.tables)
      × (db.tables.user_version ≤ (migrate db).1.tables.user_version)
unfolding migrate apply_migration execute mapping_err ◌>>=◌ ◌>>◌ script
migrate_lem db = ground arith
