-- ===== src/Logger.antt =====
-- utility.h and utility.cpp: the logger. What it prints is a text; `fmt` and the clock are parameters.
pub mod Styles
pub mod Lines
pub mod Plain
pub mod Wrappers
pub mod Labels
unfoldable pub use Styles.*
use tintemp_plus_plus.Base.{
  ℕ, ◌≡◌, ◌≢◌, Bool, true, false, not, ◌==◌, leb, if◌then◌else◌, Option, none, some, List, [], ◌∷◌,
  ◌++◌,
}
use tintemp_plus_plus.Text.{Text, codes}

module _ ⦃f : Fmt⦄ where
  -- `show_date ? format(…, fmt::format("[{}]", date)) : ""`.
  unfoldable pub date_part : Config → Text → Text
  date_part conf date =
      if conf.show_date
      then f.styled (style dim_gray bold) (f.format (codes "[{}]") (without_newlines date ∷ []))
      else []

  -- `fmt::print`, of one line.
  unfoldable pub print_line : Config → Text → Layout → Text → Text
  print_line conf date l message = f.format l.fields (
      date_part conf date
      ∷ f.styled l.bracket (codes "[")
      ∷ f.styled l.name_style (f.loglevel l.name)
      ∷ f.styled l.bracket l.close
      ∷ f.styled l.message_style message
      ∷ [])

-- The cases of `log_by_level(logger::level, …)`.
unfoldable pub level_layout : Level → Layout
level_layout ll_comment = record {
  fields = five_fields;
  bracket = style dim_gray italic;
  name_style = style dim_gray italic;
  name = info;
  close = codes "] :";
  message_style = style dim_gray italic;
}
level_layout ll_info = record {
  fields = five_fields;
  bracket = style orange bold;
  name_style = style gold bold;
  name = info;
  close = codes "] :";
  message_style = plain_style honey_dew;
}
level_layout ll_trace = record {
  fields = five_fields;
  bracket = style dark_gray italic;
  name_style = style dark_gray italic;
  name = trace;
  close = codes "]:";
  message_style = style dark_gray italic;
}
level_layout ll_debug = record {
  fields = five_fields;
  bracket = style cornflower_blue bold;
  name_style = style aquamarine bold;
  name = debug;
  close = codes "]:";
  message_style = plain_style light_pink;
}
level_layout ll_error = record {
  fields = five_fields;
  bracket = style fire_brick bold;
  name_style = style crimson bold;
  name = error;
  close = codes "]:";
  message_style = style red italic;
}
level_layout ll_warning = record {
  fields = five_fields;
  bracket = style deep_pink bold;
  name_style = style hot_pink bold;
  name = warning;
  close = codes "] :";
  message_style = style salmon italic;
}
level_layout ll_critical = record {
  fields = five_together;
  bracket = banner ghost_white dark_red;
  name_style = banner ghost_white dark_red;
  name = critical;
  close = codes "] :";
  message_style = banner light_golden_rod_yellow crimson;
}

-- The cases of `log_by_level(dpp::loglevel, …)`.
unfoldable pub loglevel_layout : Loglevel → Layout
loglevel_layout info = record {
  fields = five_fields;
  bracket = style orange bold;
  name_style = style gold bold;
  name = info;
  close = codes "] :";
  message_style = plain_style honey_dew;
}
loglevel_layout trace = record {
  fields = five_fields;
  bracket = style dark_gray italic;
  name_style = style dark_gray italic;
  name = trace;
  close = codes "]:";
  message_style = style dark_gray italic;
}
loglevel_layout debug = record {
  fields = five_fields;
  bracket = style cornflower_blue bold;
  name_style = style aquamarine bold;
  name = debug;
  close = codes "]:";
  message_style = plain_style light_pink;
}
loglevel_layout error = record {
  fields = four_fields;
  bracket = style fire_brick bold;
  name_style = style crimson bold;
  name = error;
  close = codes "]:";
  message_style = style red italic;
}
loglevel_layout warning = record {
  fields = five_fields;
  bracket = style deep_pink bold;
  name_style = style hot_pink bold;
  name = warning;
  close = codes "] :";
  message_style = style salmon italic;
}
loglevel_layout critical = record {
  fields = five_together;
  bracket = banner ghost_white dark_red;
  name_style = banner ghost_white dark_red;
  name = critical;
  close = codes "] :";
  message_style = banner light_golden_rod_yellow crimson;
}

module _ ⦃f : Fmt⦄ where
  -- `logger::log(logger::level, …)`; `comment`, `info` and the others call it with their level.
  unfoldable pub log_level : Config → Text → Level → Text → Text
  unfolding print_line level_layout
  log_level conf date level message = print_line conf date (level_layout level) message

  -- `logger::log(dpp::loglevel, …)`.
  unfoldable pub log_loglevel : Config → Text → Loglevel → Text → Text
  unfolding print_line loglevel_layout
  log_loglevel conf date level message = print_line conf date (loglevel_layout level) message

  -- The lambda of `on_log` in main.cpp: what it prints of an event, unless its severity is too low.
  unfoldable pub on_log : Config → Text → Loglevel → Text → Option Text
  unfolding log_loglevel
  on_log conf date level message =
      if leb conf.log_level (severity level)
      then some (log_loglevel conf date level message)
      else none
