-- ===== src/Logger/Wrappers.antt =====
-- The functions of `logger` that log at a level of their own: what each of them prints.
use tintemp_plus_plus.Text.{Text}
use tintemp_plus_plus.Logger.{
  Fmt, Config, ll_comment, ll_trace, ll_info, ll_debug, ll_error, ll_warning, ll_critical,
  log_level,
}

module _ ⦃f : Fmt⦄ where
  -- `logger::info`.
  unfoldable pub info : Config → Text → Text → Text
  info conf date message = log_level conf date ll_info message

  -- `logger::debug`.
  unfoldable pub debug : Config → Text → Text → Text
  debug conf date message = log_level conf date ll_debug message

  -- `logger::error`.
  unfoldable pub error : Config → Text → Text → Text
  error conf date message = log_level conf date ll_error message

  -- `logger::comment`.
  unfoldable pub comment : Config → Text → Text → Text
  comment conf date message = log_level conf date ll_comment message

  -- `logger::warning`.
  unfoldable pub warning : Config → Text → Text → Text
  warning conf date message = log_level conf date ll_warning message

  -- `logger::critical`.
  unfoldable pub critical : Config → Text → Text → Text
  critical conf date message = log_level conf date ll_critical message

  -- `logger::trace`.
  unfoldable pub trace : Config → Text → Text → Text
  trace conf date message = log_level conf date ll_trace message
