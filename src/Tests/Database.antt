-- ===== src/Tests/Database.antt =====
-- A database whose state is the version of its schema.
use merch.Base.{ℕ, ◌≡◌, refl, ◌==◌, if◌then◌else◌, []}
use merch.Go.Errors.{sentinel, no_change, errors_is, wrap_result, ok, err}
use merch.App.Files.{FileAction}
use merch.App.Database.{
  MigrateLibrary, setup_postgres, deferring_close, migrate_postgres_db, migration_fs,
  unless_no_change,
}

abbrev migrated : FileAction ℕ Unit
migrated n = ((if n == 1 then err (sentinel no_change) else ok tt), 1)

abbrev counter : MigrateLibrary ℕ
counter = record {
  Db = Unit;
  Files = Unit;
  Source = Unit;
  Driver = Unit;
  Migrate = Unit;
  open_db = λ url d. (ok tt, d);
  close = λ db d. d;
  sub = ok tt;
  new_source = λ files. ok tt;
  with_instance = λ db d. (ok tt, d);
  new_with_instance = λ s v d. (ok tt, d);
  up = λ m. migrated;
}

-- The first run migrates, and the second finds nothing to do.
migrates : setup_postgres counter [] 0 ≡ (ok tt, 1)
unfolding setup_postgres deferring_close migrate_postgres_db migration_fs unless_no_change
    wrap_result
migrates = refl

migrates_again : setup_postgres counter [] 1 ≡ (ok tt, 1)
unfolding setup_postgres deferring_close migrate_postgres_db migration_fs unless_no_change
    wrap_result errors_is
migrates_again = refl
