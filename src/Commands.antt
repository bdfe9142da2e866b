-- ===== src/Commands.antt =====
-- main.cpp: the commands `ping` and `ttt`, and the handlers of new messages and of button clicks.
-- PREFIX, which stands in a file that is not in the repository, is a parameter.
pub mod Relates
pub mod Dispatch
pub mod Challenge
pub mod Refusals
pub mod Contents
pub mod Clicks
pub mod Defined
pub mod Discreet
use tintemp_plus_plus.Base.{
  ℕ, Bool, true, false, ◌==◌, if◌then◌else◌, Option, none, some, List, [], ◌∷◌, ◌++◌,
}
use tintemp_plus_plus.Text.{Text, codes}
use tintemp_plus_plus.Color.{yellow}
use tintemp_plus_plus.Dpp.{
  Dpp, Message, EmbedAuthor, GuildMember, mt_default, MessageRef, MessageCreate, ButtonClick, User,
  GuildMember, ActionRow, AllowedMentions, cot_button, cos_success, cos_danger, Embed,
}
use tintemp_plus_plus.Render.{mention}
use tintemp_plus_plus.Ttt.{get_player, get_uid}
use tintemp_plus_plus.ConfirmButton.{get_button_id, Compiler}
use tintemp_plus_plus.Registry.{Entry, Bot, push_onto_list}
use tintemp_plus_plus.Bot.{
  LogLine, bot_line, with_lines, Call, Callback, message_create, log_only, refused, no_callback,
  origin_deployed,
}
use tintemp_plus_plus.Confirm.{on_confirm_click}
use tintemp_plus_plus.Interaction.{on_ttt_interaction}
use tintemp_plus_plus.Regex.{regex_search}
use tintemp_plus_plus.Logger.{info, trace}

-- What a handler does with the bot.
abbrev pub Handler : Type 0
Handler = Bot → Option (Bot × List Call)

-- One handler after another.
unfoldable pub then_handle : Handler → Handler → Handler
then_handle f g s = elim (f s) [
  | none ↦ none
  | some (s', cs) ↦ elim (g s') [ none ↦ none | some (s'', ds) ↦ some (s'', cs ++ ds) ]
]

-- A handler that writes a line to the log first.
unfoldable pub logged : LogLine → Handler → Handler
logged l f s = with_lines (l ∷ []) (f s)

-- The regular expression of a command: `^\`, the prefix and the name.
unfoldable pub command_pattern : Text → Text → Text
command_pattern prefix name = codes "^\\" ++ prefix ++ name

-- `newCommand`; `none` also where the pattern is outside the model of regular expressions.
unfoldable pub new_command : Text → Text → MessageCreate → Handler → Handler
unfolding logged
new_command prefix name msg command_event s =
    elim (regex_search msg.msg.content (command_pattern prefix name)) [
      | none ↦ none
      | some found ↦
          if found
          then logged (bot_line info (codes "command occured: " ++ name)) command_event s
          else some (s, [])
    ]

module _ ⦃d : Dpp⦄ where
  -- `ping`.
  unfoldable pub ping : MessageCreate → Handler
  ping msg s = some (
    s,
    message_create
          (d.messages.message_embed msg.msg.channel_id
            (d.embeds.set_title d.embeds.embed (codes "pong!")))
          no_callback
        ∷ [],
  )

  -- The two refusals of `tictactoe`, as replies that may ping the author.
  unfoldable pub refusal : MessageCreate → Text → Call
  refusal msg text =
      message_create
        (d.messages.set_allowed_mentions
          (d.messages.set_reference (d.messages.message_text msg.msg.channel_id text mt_default)
            msg.msg.id msg.msg.guild_id msg.msg.channel_id false)
          false false false true (msg.msg.author.id ∷ []) [])
        (log_only refused)

  unfoldable pub bot_refusal : MessageCreate → Call
  bot_refusal msg = refusal msg (codes "bot can't play you bruh")

  unfoldable pub self_refusal : MessageCreate → Call
  self_refusal msg = refusal msg (codes "hey, you can't play with yourself")

  -- `author`.
  unfoldable pub author_of : MessageCreate → EmbedAuthor
  author_of msg = record {
    name = msg.msg.author.username;
    url = [];
    icon_url = d.users.get_avatar_url msg.msg.author;
    proxy_icon_url = [];
  }

  unfoldable pub confirm_embed : MessageCreate → Entry → Embed
  confirm_embed msg e =
      d.embeds.set_color
        (d.embeds.set_author
          (d.embeds.set_description
            (d.embeds.set_title d.embeds.embed (codes "Hey :right_facing_fist:"))
            (mention (get_player e.first).1
              ++ codes ", "
              ++ mention (get_player e.first).0
              ++ codes " want to play tic-tac-toe with you"))
          (author_of msg))
        yellow

  -- The row with the two buttons of the confirmation.
  unfoldable pub confirm_row : Entry → ActionRow
  confirm_row e =
      d.components.add_component
        (d.components.add_component e.second.component (
          d.components.set_id
            (d.components.set_style
              (d.components.set_type (d.components.set_label d.components.component (codes "YES"))
                cot_button)
              cos_success)
            (get_button_id e.second).0))
        (d.components.set_id
          (d.components.set_style
            (d.components.set_type (d.components.set_label d.components.component (codes "Nah"))
              cot_button)
            cos_danger)
          (get_button_id e.second).1)

  -- The first message of the command.
  unfoldable pub challenge : MessageCreate → Entry → Call
  challenge msg e =
      message_create
        (d.parts.add_component (d.messages.message_embed msg.msg.channel_id (confirm_embed msg e))
          (confirm_row e))
        (origin_deployed (get_uid e.first))

  -- The lines on a new game.
  unfoldable pub game_lines : Entry → List LogLine
  game_lines e =
      bot_line trace (codes "init new ttt id: " ++ d.format_int (get_uid e.first))
      ∷ bot_line trace (codes "ttt: player 1:  " ++ d.format_int (get_player e.first).0)
      ∷ bot_line trace (codes "ttt: player 2: " ++ d.format_int (get_player e.first).1)
      ∷ []

  -- `tictactoe`, by the list of mentioned users.
  unfoldable pub tictactoe_with : Compiler → MessageCreate → List (User × GuildMember) → Handler
  tictactoe_with c msg [] s = some (s, [])
  tictactoe_with c msg (u ∷ us) s =
      if d.users.is_bot u.0
      then some (s, bot_refusal msg ∷ [])
      else if u.0.id == msg.msg.author.id
      then some (s, self_refusal msg ∷ [])
      else (let (e, s') = push_onto_list c msg.msg.author.id u.0.id s in
          with_lines (game_lines e) (some (s', challenge msg e ∷ [])))

  unfoldable pub tictactoe : Compiler → MessageCreate → Handler
  unfolding tictactoe_with
  tictactoe c msg = tictactoe_with c msg msg.msg.mentions

  -- The lambda of `initCommands`.
  unfoldable pub on_message_create : Compiler → Text → MessageCreate → Handler
  unfolding then_handle
  on_message_create c prefix msg =
      then_handle (new_command prefix (codes "ping") msg (ping msg))
        (new_command prefix (codes "ttt") msg (tictactoe c msg))

  -- The text that `initButtons` logs.
  unfoldable pub pressed_text : ButtonClick → Text
  pressed_text click =
      codes "user "
      ++ mention click.command.usr.id
      ++ codes " pressed the button ["
      ++ click.custom_id
      ++ codes "]"

  -- The lambda of `initButtons`.
  unfoldable pub on_button_click : ButtonClick → Handler
  unfolding then_handle logged
  on_button_click click =
      logged (bot_line info (pressed_text click))
        (then_handle (on_confirm_click click) (on_ttt_interaction click))
