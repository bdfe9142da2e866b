-- ===== src/Commands/Dispatch.antt =====
-- Which command a message of main.cpp's `on_message_create` runs.
use tintemp_plus_plus.Base.{
  ℕ, ◌≡◌, ap, ◌∙◌, true, false, if◌then◌else◌, some, List, [], ◌∷◌, ◌++◌, arith, Bool-cases,
  Option-cases, inl, inr,
}
use mathlib.Core.List.{append-nil}
use tintemp_plus_plus.Text.{Text, codes}
use tintemp_plus_plus.Dpp.{Dpp, MessageCreate}
use tintemp_plus_plus.ConfirmButton.{Compiler}
use tintemp_plus_plus.Registry.{Bot}
use tintemp_plus_plus.Bot.{Call, LogLine, bot_line}
use tintemp_plus_plus.Logger.{info}
use tintemp_plus_plus.Regex.{is_word, is_syntax}
use tintemp_plus_plus.Regex.Prefix.{IsName, starts_with, regex_search_prefix}
use tintemp_plus_plus.Commands.{
  Handler, logged, then_handle, command_pattern, new_command, ping, tictactoe, on_message_create,
}

abbrev pub ping_name : Text
ping_name = codes "ping"

abbrev pub ttt_name : Text
ttt_name = codes "ttt"

-- The line that says which command runs.
abbrev pub occured : Text → LogLine
occured name = bot_line info (codes "command occured: " ++ name)

new_command_prefix :
    (p : ℕ) (name : Text) (msg : MessageCreate) (h : Handler) (s : Bot)
    → is_word p ≡ false
    → IsName name
    → new_command (p ∷ []) name msg h s
      ≡ (if starts_with (p ∷ name) msg.msg.content then logged (occured name) h s else some (s, []))
unfolding new_command command_pattern
new_command_prefix p name msg h s punctuation plain =
    rw (regex_search_prefix msg.msg.content p name punctuation plain, new_command)

-- No text starts with both commands.
apart :
    (p : ℕ) (content : Text)
    → starts_with (p ∷ ping_name) content ≡ true
    → starts_with (p ∷ ttt_name) content ≡ false
unfolding starts_with
apart p [] h = cc
apart p (x ∷ []) h = ground arith
apart p (x ∷ y ∷ s) h = ground arith

ping_plain : IsName ping_name
unfolding is_syntax
ping_plain = ground arith

ttt_plain : IsName ttt_name
unfolding is_syntax
ttt_plain = ground arith

-- Two handlers of which the first, or the second, does nothing.
then_handle_none : (f g : Handler) (s : Bot) → f s ≡ some (s, []) → then_handle f g s ≡ g s
unfolding then_handle
then_handle_none f g s idle = elim (Option-cases (g s)) [
  | inl fault ↦ rw (idle, fault, then_handle)
  | inr (r, done) ↦ rw (idle, done, then_handle)
]

then_handle_last :
    (f g : Handler) (s s' : Bot) (cs : List Call)
    → f s ≡ some (s', cs)
    → g s' ≡ some (s', [])
    → then_handle f g s ≡ some (s', cs)
unfolding then_handle
then_handle_last f g s s' cs first idle =
    rw (first, idle, then_handle) (ap (λ (ds : List Call). some (s', ds)) (append-nil cs))

module _ ⦃d : Dpp⦄ where
  -- With a prefix of one character that is no letter, digit or `_`, a message that starts with the
  -- prefix and "ping" logs the command and runs `ping` alone, one that starts with the prefix and
  -- "ttt" logs the command and runs `tictactoe` alone, and every other message changes nothing and
  -- is neither answered nor logged.
  pub on_message_create_dispatch :
      (c : Compiler) (p : ℕ) (msg : MessageCreate) (s : Bot)
      → is_word p ≡ false
      → on_message_create c (p ∷ []) msg s ≡ (
          if starts_with (p ∷ ping_name) msg.msg.content
          then logged (occured ping_name) (ping msg) s
          else if starts_with (p ∷ ttt_name) msg.msg.content
          then logged (occured ttt_name) (tictactoe c msg) s
          else some (s, []))
  unfolding on_message_create ping logged
  on_message_create_dispatch c p msg s punctuation =
      let run_ping = new_command (p ∷ []) ping_name msg (ping msg) in
      let run_ttt = new_command (p ∷ []) ttt_name msg (tictactoe c msg) in
      let as_ping = new_command_prefix p ping_name msg (ping msg) s punctuation ping_plain in
      let as_ttt = new_command_prefix p ttt_name msg (tictactoe c msg) s punctuation ttt_plain in
      elim (Bool-cases (starts_with (p ∷ ping_name) msg.msg.content)) [
        | inl is_ping ↦ rw is_ping (
            then_handle_last run_ping run_ttt s s _ (as_ping ∙ rw is_ping)
              (as_ttt ∙ rw (apart p msg.msg.content is_ping)))
        | inr other ↦ rw other (then_handle_none run_ping run_ttt s (as_ping ∙ rw other) ∙ as_ttt)
      ]
