-- ===== src/Core/Error.antt =====
-- crates/marshal-core/src/error.rs. The boxed sources are their messages.
use bot_marshal.Prelude.{ℕ, Text, ◌++◌, lit, decimal}

pub data Error : Type 0 where
  config : Text → Error
  layer : (name source : Text) → Error
  layer_timeout : (name : Text) (elapsed_ms : ℕ) → Error
  upstream_guard : Text → Error
  body_too_large : (cap : ℕ) → Error
  io : Text → Error
  other : Text → Error

-- The `#[error(..)]` messages.
unfoldable pub to_string : Error → Text
to_string (config m) = lit "configuration error: " ++ m
to_string (layer name source) = lit "policy layer " ++ (name ++ (lit " failed: " ++ source))
to_string (layer_timeout name elapsed_ms) =
    lit "layer " ++ (name ++ (lit " timed out after " ++ (decimal elapsed_ms ++ lit "ms")))
to_string (upstream_guard m) = lit "upstream connection refused by guard: " ++ m
to_string (body_too_large cap) =
    lit "body exceeded the configured cap of " ++ (decimal cap ++ lit " bytes")
to_string (io m) = m
to_string (other m) = m
