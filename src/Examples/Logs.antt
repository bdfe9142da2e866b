-- ===== src/Examples/Logs.antt =====
-- Lines of the log of utility.cpp.
use tintemp_plus_plus.Base.{◌≡◌, [], ◌∷◌, ◌++◌}
use tintemp_plus_plus.Text.{Text, codes}
use tintemp_plus_plus.Logger.{ll_info, error, config, level_layout, log_level, log_loglevel}
use tintemp_plus_plus.Logger.Plain.{colourless}
use tintemp_plus_plus.Logger.Lines.{Shows, log_level-Shows, error_message_lost}

abbrev noon : Text
noon = codes "12:00" ++ 10 ∷ []

log_level-Shows_example : Shows (log_level config noon ll_info) (level_layout ll_info).message_style
log_level-Shows_example = log_level-Shows config noon ll_info

error_message_lost_example :
    log_loglevel config noon error (codes "a") ≡ log_loglevel config noon error (codes "b")
error_message_lost_example = error_message_lost config noon (codes "a") (codes "b")
