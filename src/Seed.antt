-- ===== src/Seed.antt =====
-- internal/db/seed.go: SeedFromCSV and the functions that read a record of the file. A file is what
-- csv.Reader returns from it: its records, none for one that it refuses. trader_name and
-- ground_truth_pathologies are read and not stored here, as the columns are read nowhere.
pub mod Loaded
use trading_platform_backend.Prelude.{
  ℕ, String, Bool, true, false, not, ◌&&◌, ◌||◌, Option, none, some, List, [], ◌∷◌, ltb, ◌==◌,
  if◌then◌else◌, str_eq, length, find_row, all_rows,
}
use trading_platform_backend.Prelude.Int.{ℤ}
use trading_platform_backend.Prelude.Strconv.{atoi, parse_bool}
use trading_platform_backend.External.Float.{FloatOps}
use trading_platform_backend.External.Postgres.{NumericOps}
use trading_platform_backend.External.TimeText.{TimeText}
use trading_platform_backend.External.SeedText.{SeedText}
use trading_platform_backend.Database.{Db}
use trading_platform_backend.Database.Exec.{
  failed, ok, err, Result, Exec, statement, pure, raise, ◌>>=◌,
}
use trading_platform_backend.Trades.Types.{Uuid, Time, outcome_win, outcome_loss, Trade}
use trading_platform_backend.Trades.Repo.{has_id, nullable_18_8, satisfies_checks}

-- the 20 elements of a row, with the types that pgx is given
pub record SeedRow (F : Type 0) : Type 0 where
  pub trade_id : String
  pub user_id : String
  pub trader_name : Option String
  pub session_id : String
  pub asset : String
  pub asset_class : String
  pub direction : String
  pub entry_price : F
  pub exit_price : Option F
  pub quantity : F
  pub entry_at : Time
  pub exit_at : Option Time
  pub status : String
  pub outcome : Option String
  pub pnl : Option F
  pub plan_adherence : Option ℤ
  pub emotional_state : Option String
  pub entry_rationale : Option String
  pub revenge_flag : Bool
  pub ground_truth_pathologies : Option String

-- emptyToNil
abbrev pub empty_to_nil : String → Option String
empty_to_nil s = if str_eq s "" then none else some s

-- parseTimeNullable, parseFloatNullable and parseIntNullable over their parser
abbrev pub parse_nullable : {A : Type 0} → (String → Option A) → String → Option (Option A)
parse_nullable parse s =
    if str_eq s "" then some none else elim (parse s) [ none ↦ none | some a ↦ some (some a) ]

abbrev pub and_then : {A B : Type 0} → Option A → (A → Option B) → Option B
and_then none f = none
and_then (some a) f = f a

module _ {F : Type 0} (times : TimeText) (texts : SeedText F) where
  -- parseSeedRow
  unfoldable pub parse_seed_row : List String → Option (SeedRow F)
  parse_seed_row
        (r0 ∷ r1 ∷ r2 ∷ r3 ∷ r4 ∷ r5 ∷ r6 ∷ r7 ∷ r8 ∷ r9 ∷ r10 ∷ r11 ∷ r12 ∷ r13 ∷ r14 ∷ r15 ∷ r16
          ∷ r17 ∷ r18 ∷ r19 ∷ []) =
      and_then (times.parse_rfc3339 r10) λ entry_at.
        and_then (parse_nullable times.parse_rfc3339 r11) λ exit_at.
          and_then (texts.parse_float r7) λ entry_price. and_then (texts.parse_float r9) λ quantity.
            and_then (parse_nullable texts.parse_float r8) λ exit_price.
              and_then (parse_nullable texts.parse_float r14) λ pnl.
                and_then (parse_nullable atoi r15) λ plan_adherence.
                  and_then (parse_bool r18) λ revenge_flag. some (record {
                    trade_id = r0;
                    user_id = r1;
                    trader_name = empty_to_nil r2;
                    session_id = r3;
                    asset = r4;
                    asset_class = r5;
                    direction = r6;
                    entry_price = entry_price;
                    exit_price = exit_price;
                    quantity = quantity;
                    entry_at = entry_at;
                    exit_at = exit_at;
                    status = r12;
                    outcome = empty_to_nil r13;
                    pnl = pnl;
                    plan_adherence = plan_adherence;
                    emotional_state = empty_to_nil r16;
                    entry_rationale = empty_to_nil r17;
                    revenge_flag = revenge_flag;
                    ground_truth_pathologies = empty_to_nil r19;
                  })
  parse_seed_row other = none

  -- r.Read() with FieldsPerRecord = 20
  abbrev pub read_record : Option (List String) → Option (List String)
  read_record none = none
  read_record (some rec) = if length rec == 20 then some rec else none

  abbrev pub cons_row : Option (SeedRow F) → Option (List (SeedRow F)) → Option (List (SeedRow F))
  cons_row row rows = and_then row λ r. and_then rows λ rs. some (r ∷ rs)

  -- the loop over the records
  abbrev pub parse_rows : List (Option (List String)) → Option (List (SeedRow F))
  parse_rows [] = some []
  parse_rows (line ∷ lines) =
      cons_row (and_then (read_record line) parse_seed_row) (parse_rows lines)

  -- the file from its header on
  abbrev pub parse_file : Option (List (Option (List String))) → Option (List (SeedRow F))
  parse_file none = none
  parse_file (some []) = none
  parse_file (some (header ∷ lines)) = and_then (read_record header) λ h. parse_rows lines

abbrev pub known_outcome : Option String → Bool
known_outcome none = true
known_outcome (some o) = str_eq o outcome_win || str_eq o outcome_loss

module _ {F : Type 0} (ops : FloatOps F) (numeric : NumericOps F) (texts : SeedText F) where
  -- The row that COPY makes of the values, with the defaults of the table.
  unfoldable pub copied_row : Time → SeedRow F → Option (Trade F)
  copied_row now r = and_then (texts.copy_uuid r.trade_id) λ trade_id.
      and_then (texts.copy_uuid r.user_id) λ user_id.
        and_then (texts.copy_uuid r.session_id) λ session_id.
          and_then (numeric.numeric_18_8 r.entry_price) λ entry_price.
            and_then (nullable_18_8 ops numeric r.exit_price) λ exit_price.
              and_then (numeric.numeric_18_8 r.quantity) λ quantity.
                and_then (nullable_18_8 ops numeric r.pnl) λ pnl. some (record {
                  input = record {
                    trade_id = trade_id;
                    user_id = user_id;
                    session_id = session_id;
                    asset = r.asset;
                    asset_class = r.asset_class;
                    direction = r.direction;
                    entry_price = entry_price;
                    exit_price = exit_price;
                    quantity = quantity;
                    entry_at = r.entry_at;
                    exit_at = r.exit_at;
                    status = r.status;
                    plan_adherence = r.plan_adherence;
                    emotional_state = r.emotional_state;
                    entry_rationale = r.entry_rationale;
                  };
                  outcome = r.outcome;
                  pnl = pnl;
                  revenge_flag = r.revenge_flag;
                  created_at = now;
                  updated_at = now;
                })

  abbrev pub copied_rows : Time → List (SeedRow F) → Option (List (Trade F))
  copied_rows now [] = some []
  copied_rows now (r ∷ rs) =
      and_then (copied_row now r) λ t. and_then (copied_rows now rs) λ ts. some (t ∷ ts)

  -- the enum types, the CHECK clauses and the primary key
  abbrev pub is_accepted : Trade F → Bool
  is_accepted t = satisfies_checks ops numeric t && known_outcome t.outcome

  abbrev pub is_missing : Option (Trade F) → Bool
  is_missing none = true
  is_missing (some t) = false

  abbrev pub has_distinct_ids : List (Trade F) → Bool
  has_distinct_ids [] = true
  has_distinct_ids (t ∷ ts) = is_missing (find_row (has_id t.trade_id) ts) && has_distinct_ids ts

  abbrev pub store_rows : Option (List (Trade F)) → Exec F (Unit {0})
  store_rows none db = (err failed, db)
  store_rows (some ts) db =
      if all_rows is_accepted ts && has_distinct_ids ts
      then (ok tt, record db { trades = ts })
      else (err failed, db)

  -- CopyFrom into the empty table
  abbrev pub copy_from : Option (List (SeedRow F)) → Exec F (Unit {0})
  copy_from none = raise failed
  copy_from (some rows) = statement (λ db. store_rows (copied_rows db.now rows) db)

  -- SeedFromCSV
  unfoldable pub seed_from_csv : TimeText → Option (List (Option (List String))) → Exec F (Unit {0})
  seed_from_csv times file = do
    existing ← statement (λ db. (ok (length db.trades), db))
    if ltb 0 existing then pure tt else copy_from (parse_file times texts file)
