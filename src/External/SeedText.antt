-- ===== src/External/SeedText.antt =====
-- What the seed needs of other code to read a text: strconv.ParseFloat of Go, and the encoding of a
-- text for a UUID column that github.com/jackc/pgx does in COPY. none is the error of either.
use trading_platform_backend.Prelude.{ℕ, String, Option}

pub record SeedText (F : Type 0) : Type 0 where
  pub parse_float : String → Option F
  pub copy_uuid : String → Option ℕ
