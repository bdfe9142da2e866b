-- ===== src/Callbacks/Reported.antt =====
-- What the log shows of a call that has failed, and of one that has not.
use tintemp_plus_plus.Base.{
  ℕ, ◌≡◌, refl, ap, Bool, true, false, not, ◌&&◌, ◌==◌, if◌then◌else◌, some, List, [], ◌∷◌, map,
  any, arith, Bool-cases, inl, inr,
}
use mathlib.Core.List.{append-nil}
use tintemp_plus_plus.Dpp.{Dpp, ErrorInfo, Message}
use tintemp_plus_plus.Ttt.{get_uid}
use tintemp_plus_plus.Registry.{Entry, Bot}
use tintemp_plus_plus.Bot.{
  Call, LogLine, bot_line, logger_line, with_lines, log, Callback, LogOnly, stranger_warned,
  start_shown, game_shown, decline_shown, square_warned, turn_warned, end_shown, refused, log_only,
  no_callback, origin_deployed, confirm_replied, original_response, turn_replied, result_deployed,
}
use tintemp_plus_plus.Callbacks.{is_error, value, complete, act}
use tintemp_plus_plus.Callbacks.{reasons, success_line, failure_lines, origin_lines, logs}
use tintemp_plus_plus.Logger.{ll_error, error}

-- The lambda looks at how its call ended.
abbrev pub looks : Callback → Bool
looks no_callback = false
looks (confirm_replied uid) = false
looks (log_only w) = true
looks (origin_deployed id) = true
looks (original_response uid) = true
looks (turn_replied uid usr channel) = true
looks (result_deployed uid) = true

-- The lambda stands in main.cpp.
abbrev pub of_main : Callback → Bool
of_main (log_only refused) = true
of_main (origin_deployed id) = true
of_main cb = false

-- A line of the level of errors.
abbrev pub error_line : LogLine → Bool
error_line (bot_line error t) = true
error_line (bot_line l t) = false
error_line (logger_line ll_error t) = true
error_line (logger_line l t) = false

-- A callback that only writes lines.
quiet_lines : (ls : List LogLine) (s : Bot) → with_lines ls (some (s, [])) ≡ some (s, map log ls)
quiet_lines ls s = ap (λ (cs : List Call). some (s, cs)) (append-nil (map log ls))

module _ ⦃d : Dpp⦄ where
  origin_lines-quiet :
      (m : Message) (id : ℕ) (es : List Entry) → any error_line (origin_lines m id es) ≡ false
  unfolding origin_lines
  origin_lines-quiet m id [] = refl
  origin_lines-quiet m id (e ∷ es) =
      elim (Bool-cases ((id == get_uid e.first) && not e.first.have_origin)) [
        | inl takes ↦ rw takes (origin_lines-quiet m id es)
        | inr other ↦ rw other (origin_lines-quiet m id es)
      ]

  success-quiet :
      (cb : Callback) (m : Message) (s : Bot) → any error_line (logs cb (value m) s) ≡ false
  unfolding logs success_line
  success-quiet (log_only stranger_warned) m s = refl
  success-quiet (log_only start_shown) m s = refl
  success-quiet (log_only game_shown) m s = refl
  success-quiet (log_only decline_shown) m s = refl
  success-quiet (log_only square_warned) m s = refl
  success-quiet (log_only turn_warned) m s = refl
  success-quiet (log_only end_shown) m s = refl
  success-quiet (log_only refused) m s = refl
  success-quiet no_callback m s = refl
  success-quiet (origin_deployed id) m s = origin_lines-quiet m id s.ttt_list_g
  success-quiet (confirm_replied uid) m s = refl
  success-quiet (original_response uid) m s = refl
  success-quiet (turn_replied uid usr channel) m s = refl
  success-quiet (result_deployed uid) m s = refl

  -- What is to show of a failed call.
  abbrev pub Reports : Callback → ErrorInfo → Bot → Type 0
  Reports cb err s =
      (head : LogLine) × (error_line head ≡ true)
      × (complete cb (is_error err) s
          ≡ some (s, map log (head ∷ (if of_main cb then [] else reasons err))))

  reported :
      (cb : Callback) (err : ErrorInfo) (s : Bot) (head : LogLine)
      → error_line head ≡ true
      → logs cb (is_error err) s ≡ head ∷ (if of_main cb then [] else reasons err)
      → act cb (is_error err) s ≡ some (s, [])
      → Reports cb err s
  unfolding complete
  reported cb err s head level lines stays = (
    head,
    level,
    rw (lines, stays) (quiet_lines (head ∷ (if of_main cb then [] else reasons err)) s),
  )

  log_only-Reports : (w : LogOnly) (err : ErrorInfo) (s : Bot) → Reports (log_only w) err s
  unfolding logs failure_lines complete act
  log_only-Reports stranger_warned err s =
      reported (log_only stranger_warned) err s _ refl refl refl
  log_only-Reports start_shown err s = reported (log_only start_shown) err s _ refl refl refl
  log_only-Reports game_shown err s = reported (log_only game_shown) err s _ refl refl refl
  log_only-Reports decline_shown err s = reported (log_only decline_shown) err s _ refl refl refl
  log_only-Reports square_warned err s = reported (log_only square_warned) err s _ refl refl refl
  log_only-Reports turn_warned err s = reported (log_only turn_warned) err s _ refl refl refl
  log_only-Reports end_shown err s = reported (log_only end_shown) err s _ refl refl refl
  log_only-Reports refused err s = reported (log_only refused) err s _ refl refl refl

  failure-Reports : (cb : Callback) (err : ErrorInfo) (s : Bot) → looks cb ≡ true → Reports cb err s
  unfolding logs complete act
  failure-Reports (log_only w) err s h = log_only-Reports w err s
  failure-Reports no_callback err s h = absurd (ground arith)
  failure-Reports (confirm_replied uid) err s h = absurd (ground arith)
  failure-Reports (origin_deployed id) err s h =
      reported (origin_deployed id) err s _ refl refl refl
  failure-Reports (original_response uid) err s h =
      reported (original_response uid) err s _ refl refl refl
  failure-Reports (turn_replied uid usr channel) err s h =
      reported (turn_replied uid usr channel) err s _ refl refl refl
  failure-Reports (result_deployed uid) err s h =
      reported (result_deployed uid) err s _ refl refl refl

  -- A callback that looks at how its call ended, on an error, keeps the state and does no more than
  -- write one line of the level of errors, after which those of tictactoe.cpp, and not those of
  -- main.cpp, write one line for the reason of each detail of the error; on success it writes no
  -- line of that level.
  pub failures_are_reported :
      (cb : Callback) (err : ErrorInfo) (m : Message) (s : Bot)
      → looks cb ≡ true
      → ((head : LogLine) × (error_line head ≡ true)
          × (complete cb (is_error err) s
              ≡ some (s, map log (head ∷ (if of_main cb then [] else reasons err)))))
        × (any error_line (logs cb (value m) s) ≡ false)
  failures_are_reported cb err m s h = (failure-Reports cb err s h, success-quiet cb m s)
