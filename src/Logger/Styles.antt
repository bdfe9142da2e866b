-- ===== src/Logger/Styles.antt =====
-- The levels, the configuration and the styles of the logger of utility.h, and the parts of `fmt` and
-- D++ that it uses.
use tintemp_plus_plus.Base.{
  ℕ, ◌≡◌, ◌≢◌, Bool, true, ◌==◌, if◌then◌else◌, Option, none, some, List, [], ◌∷◌, ◌++◌,
}
use tintemp_plus_plus.Text.{Text, codes}

-- `logger::level`.
pub data Level : Type 0 where
  ll_comment ll_trace ll_info ll_debug ll_error ll_warning ll_critical : Level

-- `dpp::loglevel`.
pub data Loglevel : Type 0 where
  trace debug info warning error critical : Loglevel

pub data Color : Type 0 where
  dim_gray dark_gray orange gold honey_dew cornflower_blue aquamarine light_pink : Color
  fire_brick crimson red deep_pink hot_pink salmon ghost_white dark_red : Color
  light_golden_rod_yellow : Color

pub data Emphasis : Type 0 where
  bold italic strikethrough : Emphasis

pub record TextStyle : Type 0 where
  pub fg : Color
  pub bg : Option Color
  pub emphasis : Option Emphasis

-- `fmt::format` with a text style, `fmt::format` of a format string with texts for its arguments, and
-- `dpp::utility::loglevel`. The laws are those of the format strings of `fmt`: `{}` stands for the
-- next argument, other characters for themselves, and arguments that are left over are ignored.
pub record Fmt : Type 0 where
  pub styled : TextStyle → Text → Text
  pub loglevel : Loglevel → Text
  pub format : Text → List Text → Text
  pub format-nil : (args : List Text) → format [] args ≡ []
  pub format-field :
      (s : Text) (a : Text) (args : List Text)
      → format (b'{' ∷ b'}' ∷ s) (a ∷ args) ≡ a ++ format s args
  pub format-char :
      (c : ℕ) (s : Text) (args : List Text)
      → c ≢ b'{'
      → c ≢ b'}'
      → format (c ∷ s) args ≡ c ∷ format s args

-- `logger::config_t`.
pub record Config : Type 0 where
  pub log_level : ℕ
  pub show_date : Bool

-- `config`, with `ll_comment` for the level.
abbrev pub config : Config
config = record { log_level = 0; show_date = true }

-- The enumerators of `dpp::loglevel` as the numbers that main.cpp compares.
abbrev pub severity : Loglevel → ℕ
severity trace = 0
severity debug = 1
severity info = 2
severity warning = 3
severity error = 4
severity critical = 5

-- `date.erase(std::remove(…, '\n'), …)`.
unfoldable pub without_newlines : Text → Text
without_newlines [] = []
without_newlines (c ∷ s) = let rest = without_newlines s in if c == 10 then rest else c ∷ rest

abbrev pub style : Color → Emphasis → TextStyle
style c e = record { fg = c; bg = none; emphasis = some e }

abbrev pub plain_style : Color → TextStyle
plain_style c = record { fg = c; bg = none; emphasis = none }

abbrev pub banner : Color → Color → TextStyle
banner f b = record { fg = f; bg = some b; emphasis = some strikethrough }

-- `"{}{}{}{} {}\n"`, and the two other format strings of the file.
abbrev pub five_fields : Text
five_fields = codes "{}{}{}{} {}" ++ 10 ∷ []

abbrev pub four_fields : Text
four_fields = codes "{}{}{} {}" ++ 10 ∷ []

abbrev pub five_together : Text
five_together = codes "{}{}{}{}{}" ++ 10 ∷ []

-- The styles of a line, and the text that closes the level's name.
pub record Layout : Type 0 where
  pub fields : Text
  pub bracket : TextStyle
  pub name_style : TextStyle
  pub name : Loglevel
  pub close : Text
  pub message_style : TextStyle
