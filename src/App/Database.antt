-- ===== src/App/Database.antt =====
-- internal/app/postgrespool.go and postgressetup.go, over database/sql, io/fs, golang-migrate and
-- pgxpool.
use merch.Base.{if◌then◌else◌}
use merch.Go.Errors.{no_change, errors_is, wrap_result, Result, ok, err, panic}
use merch.Go.Results
use merch.Postgres.Schema.{Bytes}
use merch.App.Files.{FileAction, lift, wrapped, ◌>>=◌}

-- The database is reached through its state `D`.
pub record MigrateLibrary (D : Type 0) : Type 1 where
  pub Db : Type 0
  pub Files : Type 0
  pub Source : Type 0
  pub Driver : Type 0
  pub Migrate : Type 0
  -- sql.Open, and the deferred (*sql.DB).Close
  pub open_db : Bytes → FileAction D Db
  pub close : Db → D → D
  -- fs.Sub of the embedded files
  pub sub : Result Files
  -- iofs.New, postgres.WithInstance, migrate.NewWithInstance and (*Migrate).Up
  pub new_source : Files → Result Source
  pub with_instance : Db → FileAction D Driver
  pub new_with_instance : Source → Driver → FileAction D Migrate
  pub up : Migrate → FileAction D Unit

module _ {D : Type 0} (lib : MigrateLibrary D) where
  abbrev panic_on_error : {A : Type 0} → Result A → Result A
  panic_on_error (ok a) = ok a
  panic_on_error (err e) = panic
  panic_on_error panic = panic

  unfoldable pub migration_fs : Result lib.Files
  migration_fs = panic_on_error lib.sub

  -- err != nil && !errors.Is(err, migrate.ErrNoChange)
  unfoldable pub unless_no_change : Result Unit → Result Unit
  unless_no_change (ok u) = ok u
  unless_no_change (err e) = if errors_is e no_change then ok tt else err e
  unless_no_change panic = panic

  unfoldable pub migrate_postgres_db : lib.Db → FileAction D Unit
  migrate_postgres_db db = do
    files ← lift migration_fs
    source_driver ← lift (lib.new_source files)
    database_driver ← lib.with_instance db
    m ← lib.new_with_instance source_driver database_driver
    (λ d. let (r, d') = lib.up m d in (unless_no_change r, d'))

  -- on every way out
  unfoldable pub deferring_close : lib.Db → FileAction D Unit → FileAction D Unit
  deferring_close db m d = let (r, d') = m d in (r, lib.close db d')

  unfoldable pub setup_postgres : Bytes → FileAction D Unit
  setup_postgres url =
      wrapped "app.SetupPostgres"
        (do db ← lib.open_db url; deferring_close db (migrate_postgres_db db))

-- pgxpool.ParseConfig and pgxpool.NewWithConfig
module _ {Config Pool : Type 0} (parse_config : Bytes → Result Config)
    (new_with_config : Config → Result Pool) where
  unfoldable pub new_postgres_pool : Bytes → Result Pool
  new_postgres_pool url =
      wrap_result "app.NewPostgresPool" (Results.◌>>=◌ (parse_config url) new_with_config)
