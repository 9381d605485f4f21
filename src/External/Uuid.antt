-- ===== src/External/Uuid.antt =====
-- github.com/google/uuid: the text of an id. A Uuid is the number that its 16 bytes spell.
use trading_platform_backend.Prelude.{ℕ, String, ◌≡◌, Option, some}

pub record UuidText : Type 0 where
  -- id.String()
  pub to_string : ℕ → String
  -- uuid.Parse
  pub parse : String → Option ℕ
  pub parse-to_string : (id : ℕ) → parse (to_string id) ≡ some id
