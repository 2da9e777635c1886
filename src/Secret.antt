-- ===== src/Secret.antt =====
-- The crate `secret` (secret/src/lib.rs): a text that is kept out of logs. A `HeaderValue` is its text.
use emporium.Prelude.{String, Bool, Option, none, some, Result, map_ok, if◌then◌else◌}
use emporium.Std.Text.{◌<>◌}

pub record Secret : Type 0 where
  pub revealed : String

-- `From<String>`, `From<&str>` and `Secret::from_str`
unfoldable pub secret_from : String → Secret
secret_from s = record { revealed = s }

-- `Secret::from_env`, by what `std::env::var` answers
unfoldable pub from_env : {E : Type 0} → (String → Result String E) → String → Result Secret E
unfolding secret_from
from_env var name = map_ok secret_from (var name)

-- `HeaderValue::try_from`
unfoldable pub header_value : (String → Bool) → String → Option String
header_value is_header_value s = if is_header_value s then some s else none

-- `Secret::to_header`
unfoldable pub to_header : (String → Bool) → Secret → Option String
unfolding header_value
to_header is_header_value s = header_value is_header_value s.revealed

-- `Secret::bearer`
unfoldable pub bearer : (String → Bool) → Secret → Option String
unfolding header_value
bearer is_header_value s = header_value is_header_value ("Bearer " <> s.revealed)
