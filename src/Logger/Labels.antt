-- ===== src/Logger/Labels.antt =====
-- The label that each function of `logger` prints in front of a message.
use tintemp_plus_plus.Base.{◌≡◌, refl}
use tintemp_plus_plus.Text.{Text}
use tintemp_plus_plus.Logger.{
  Fmt, Config, Level, Loglevel, info, trace, debug, error, warning, critical, level_layout,
  ll_comment, ll_trace, ll_info, ll_debug, ll_error, ll_warning, ll_critical,
}
use tintemp_plus_plus.Logger.Lines.{Shows, log_level-Shows}
use tintemp_plus_plus.Logger.Wrappers as Wrappers

-- The functions by their level, and the label that the comments of utility.h mean.
abbrev pub function_of : ⦃f : Fmt⦄ → Level → Config → Text → Text → Text
function_of ll_comment = Wrappers.comment
function_of ll_trace = Wrappers.trace
function_of ll_info = Wrappers.info
function_of ll_debug = Wrappers.debug
function_of ll_error = Wrappers.error
function_of ll_warning = Wrappers.warning
function_of ll_critical = Wrappers.critical

abbrev pub label_of : Level → Loglevel
label_of ll_comment = info
label_of ll_trace = trace
label_of ll_info = info
label_of ll_debug = debug
label_of ll_error = error
label_of ll_warning = warning
label_of ll_critical = critical

-- Every function prints the message at the end of its line, and the label of its name in front of it.
function_of-Shows :
    ⦃f : Fmt⦄ (conf : Config) (date : Text) (level : Level)
    → Shows (function_of level conf date) (level_layout level).message_style
      × ((level_layout level).name ≡ label_of level)
unfolding level_layout Wrappers.comment Wrappers.trace Wrappers.info Wrappers.debug Wrappers.error
    Wrappers.warning Wrappers.critical
function_of-Shows conf date ll_comment = (log_level-Shows conf date ll_comment, refl)
function_of-Shows conf date ll_trace = (log_level-Shows conf date ll_trace, refl)
function_of-Shows conf date ll_info = (log_level-Shows conf date ll_info, refl)
function_of-Shows conf date ll_debug = (log_level-Shows conf date ll_debug, refl)
function_of-Shows conf date ll_error = (log_level-Shows conf date ll_error, refl)
function_of-Shows conf date ll_warning = (log_level-Shows conf date ll_warning, refl)
function_of-Shows conf date ll_critical = (log_level-Shows conf date ll_critical, refl)
