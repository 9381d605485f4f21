-- ===== src/Examples/BootExamples.antt =====
-- Concrete instances of the theorems on the migrations and the seed.
use trading_platform_backend.Prelude.{String, ◌≡◌, ◌≢◌, refl, Option, some, List, [], ◌∷◌}
use trading_platform_backend.Prelude.Int.{ℤ}
use trading_platform_backend.Prelude.Strconv.{atoi}
use trading_platform_backend.External.SeedText.{SeedText}
use trading_platform_backend.Database.Exec.{ok}
use trading_platform_backend.Database.Migrations.{
  Directory, Schema, with_faults, apply_file, apply_one, run_migrations,
}
use trading_platform_backend.Database.Migrations.Applied.{IsProgress, Applies, tables}
use trading_platform_backend.Database.Migrations.Again.{
  files_of, schema_of, run_migrations-IsProgress,
}
use trading_platform_backend.Seed.{parse_seed_row, copied_row, seed_from_csv}
use trading_platform_backend.Trades.Repo.{satisfies_checks}
use trading_platform_backend.Trades.Validate.{
  known_asset_class, known_direction, known_status, bad_emotion,
}
use trading_platform_backend.Seed.Loaded.{IsSeed, seed_from_csv-IsSeed}
use trading_platform_backend.Examples.{
  whole_floats, any_numeric, unary_times, ones, count_ones, with_trades,
}

abbrev pub two_files : Directory
two_files = record {
  glob = λ pattern. some ("/migrations/0002_metrics.up.sql" ∷ "/migrations/0001_init.up.sql" ∷ []);
  read_file = λ file. some file;
}

-- the texts that have run
abbrev pub append_text : String → List String → Option (List String)
append_text sql texts = some (sql ∷ texts)

abbrev pub half_migrated : Schema (List String)
half_migrated = record { versions = "0001_init" ∷ []; state = []; faults = [] }

-- The first version is there, so that only the second text runs.
second_applied : run_migrations append_text two_files "/migrations/*.up.sql" half_migrated ≡ (
  ok tt,
  record {
    versions = "0002_metrics" ∷ "0001_init" ∷ [];
    state = "/migrations/0002_metrics.up.sql" ∷ [];
    faults = [];
  },
)
unfolding run_migrations apply_file apply_one
second_applied = refl

run_migrations-IsProgress_example :
    let out = run_migrations append_text two_files "/migrations/*.up.sql" half_migrated in
    IsProgress append_text two_files
      (files_of append_text two_files (two_files.glob "/migrations/*.up.sql"))
      half_migrated
      out
    × ((out.0 ≡ ok tt)
        → run_migrations append_text two_files "/migrations/*.up.sql" (with_faults [] out.1)
          ≡ (ok tt, with_faults [] out.1))
    × ((t : List String × List String)
        → files_of append_text two_files (two_files.glob "/migrations/*.up.sql") ≢ []
        → Applies append_text two_files
            (files_of append_text two_files (two_files.glob "/migrations/*.up.sql"))
            (tables append_text two_files half_migrated)
            t
        → half_migrated.faults ≡ []
        → out ≡ (ok tt, schema_of append_text two_files t))
run_migrations-IsProgress_example =
    run_migrations-IsProgress append_text two_files "/migrations/*.up.sql" half_migrated

abbrev pub seed_text : SeedText ℤ
seed_text = record { parse_float = atoi; copy_uuid = count_ones }

abbrev one_record : List String
one_record =
    "1" ∷ "1111111" ∷ "Alex" ∷ "111" ∷ "ACME" ∷ "equity" ∷ "long" ∷ "10" ∷ "12" ∷ "5" ∷ "1" ∷ "11"
    ∷ "closed" ∷ "win" ∷ "10" ∷ "4" ∷ "calm" ∷ "" ∷ "false" ∷ "" ∷ []

abbrev pub one_line : Option (List (Option (List String)))
one_line = some (some one_record ∷ some one_record ∷ [])

seeded_once :
    (seed_from_csv whole_floats any_numeric seed_text unary_times one_line (with_trades [])).0
    ≡ ok tt
unfolding seed_from_csv parse_seed_row copied_row satisfies_checks known_asset_class known_direction
    known_status bad_emotion ones
seeded_once = refl

seed_from_csv-IsSeed_example :
    IsSeed whole_floats any_numeric seed_text unary_times one_line
      (with_trades [])
      (seed_from_csv whole_floats any_numeric seed_text unary_times one_line (with_trades []))
seed_from_csv-IsSeed_example =
    seed_from_csv-IsSeed whole_floats any_numeric seed_text unary_times one_line (with_trades [])
