-- ===== src/Logger/Lines.antt =====
-- What a line of the log holds.
use mathlib.Core.List.{append_assoc}
use tintemp_plus_plus.Base.{◌≡◌, refl, sym, ◌∙◌, ◌≢◌, [], ◌∷◌, ◌++◌, arith}
use tintemp_plus_plus.Text.{Text, codes}
use tintemp_plus_plus.Logger.{
  Fmt, TextStyle, Config, Level, Loglevel, Layout, ll_comment, ll_trace, ll_info, ll_debug,
  ll_error, ll_warning, ll_critical, trace, debug, info, warning, error, critical, five_fields,
  four_fields, five_together, date_part, print_line, level_layout, log_level, log_loglevel,
}

module _ ⦃f : Fmt⦄ where
  format-five_fields :
      (a b c d e : Text)
      → f.format five_fields (a ∷ b ∷ c ∷ d ∷ e ∷ [])
        ≡ a ++ (b ++ (c ++ (d ++ (32 ∷ (e ++ 10 ∷ [])))))
  format-five_fields a b c d e = rw (
    f.format-field,
    f.format-field,
    f.format-field,
    f.format-field,
    f.format-char 32 _ _ (omega arith) (omega arith),
    f.format-field,
    f.format-char 10 _ _ (omega arith) (omega arith),
    f.format-nil,
  )

  format-five_together :
      (a b c d e : Text)
      → f.format five_together (a ∷ b ∷ c ∷ d ∷ e ∷ []) ≡ a ++ (b ++ (c ++ (d ++ (e ++ 10 ∷ []))))
  format-five_together a b c d e = rw (
    f.format-field,
    f.format-field,
    f.format-field,
    f.format-field,
    f.format-field,
    f.format-char 10 _ _ (omega arith) (omega arith),
    f.format-nil,
  )

  -- The fifth argument is left over.
  format-four_fields :
      (a b c d e : Text)
      → f.format four_fields (a ∷ b ∷ c ∷ d ∷ e ∷ []) ≡ a ++ (b ++ (c ++ (32 ∷ (d ++ 10 ∷ []))))
  format-four_fields a b c d e = rw (
    f.format-field,
    f.format-field,
    f.format-field,
    f.format-char 32 _ _ (omega arith) (omega arith),
    f.format-field,
    f.format-char 10 _ _ (omega arith) (omega arith),
    f.format-nil,
  )

  -- What stands before the message in a line with this layout.
  abbrev pub heading : Config → Text → Layout → Text
  heading conf date l =
      date_part conf date
      ++ (f.styled l.bracket (codes "[")
          ++ (f.styled l.name_style (f.loglevel l.name) ++ f.styled l.bracket l.close))

  -- The text printed for a message shows it in the given style, after a text that does not depend on it.
  abbrev pub Shows : (Text → Text) → TextStyle → Type 0
  Shows line s = (before : Text) × ((m : Text) → line m ≡ before ++ (f.styled s m ++ 10 ∷ []))

  five_fields-line :
      (conf : Config) (date : Text) (l : Layout)
      → l.fields ≡ five_fields
      → Shows (print_line conf date l) l.message_style
  unfolding print_line
  five_fields-line conf date l e =
      (heading conf date l ++ 32 ∷ [], λ m. rw e (format-five_fields _ _ _ _ _ ∙ simp append_assoc))

  five_together-line :
      (conf : Config) (date : Text) (l : Layout)
      → l.fields ≡ five_together
      → Shows (print_line conf date l) l.message_style
  unfolding print_line
  five_together-line conf date l e =
      (heading conf date l, λ m. rw e (format-five_together _ _ _ _ _ ∙ simp append_assoc))

  -- Through `logger::log(logger::level, …)` the line of every level ends with the message in the
  -- level's style and a newline, after a text that does not depend on the message.
  pub log_level-Shows :
      (conf : Config) (date : Text) (level : Level)
      → Shows (log_level conf date level) (level_layout level).message_style
  unfolding log_level
  log_level-Shows conf date ll_critical =
      five_together-line conf date (level_layout ll_critical) refl
  log_level-Shows conf date ll_error = five_fields-line conf date (level_layout ll_error) refl
  log_level-Shows conf date ll_warning = five_fields-line conf date (level_layout ll_warning) refl
  log_level-Shows conf date ll_info = five_fields-line conf date (level_layout ll_info) refl
  log_level-Shows conf date ll_trace = five_fields-line conf date (level_layout ll_trace) refl
  log_level-Shows conf date ll_debug = five_fields-line conf date (level_layout ll_debug) refl
  log_level-Shows conf date ll_comment = five_fields-line conf date (level_layout ll_comment) refl

  -- The level of the other logger that has the same name.
  abbrev pub same_level : Loglevel → Level
  same_level trace = ll_trace
  same_level debug = ll_debug
  same_level info = ll_info
  same_level warning = ll_warning
  same_level error = ll_error
  same_level critical = ll_critical

  -- For every level of D++ but `error`, the two overloads of `logger::log` print the same line for
  -- the levels of the same name.
  pub log_loglevel-log_level :
      (conf : Config) (date : Text) (level : Loglevel) (m : Text)
      → level ≢ error
      → log_loglevel conf date level m ≡ log_level conf date (same_level level) m
  unfolding log_loglevel log_level
  log_loglevel-log_level conf date trace m h = refl
  log_loglevel-log_level conf date debug m h = refl
  log_loglevel-log_level conf date info m h = refl
  log_loglevel-log_level conf date warning m h = refl
  log_loglevel-log_level conf date critical m h = refl
  log_loglevel-log_level conf date error m h = absurd (h refl)

  -- Through `logger::log(dpp::loglevel, …)` the line of the level `error` is the same for all
  -- messages.
  pub error_message_lost :
      (conf : Config) (date : Text) (m n : Text)
      → log_loglevel conf date error m ≡ log_loglevel conf date error n
  unfolding log_loglevel
  error_message_lost conf date m n =
      format-four_fields _ _ _ _ (f.styled _ m) ∙ sym (format-four_fields _ _ _ _ (f.styled _ n))
