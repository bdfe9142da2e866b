-- ===== src/Confirm.antt =====
-- `on_confirm_click` of tictactoe.cpp: a click on a button is offered to each game of the list.
pub mod Blocked
pub mod Elsewhere
pub mod Keeps
pub mod Raises
pub mod Answers
pub mod FirstAnswer
pub mod Starts
pub mod One
pub mod Yes
pub mod No
pub mod Twice
pub mod Unposted
use tintemp_plus_plus.Base.{
  ℕ, Bool, true, false, not, ◌&&◌, ◌==◌, if◌then◌else◌, Option, none, some, List, [], ◌∷◌, ◌++◌,
}
use tintemp_plus_plus.Text.{Text, codes, text_eq}
use tintemp_plus_plus.Color.{green, red}
use tintemp_plus_plus.Dpp.{
  Dpp, m_ephemeral, message_flag, Message, Embed, ButtonClick, ir_channel_message_with_source,
  ir_update_message,
}
use tintemp_plus_plus.Ttt.{Ttt, get_uid, get_origin, get_game, set_origin_embed}
use tintemp_plus_plus.Render.{mention, mention_only}
use tintemp_plus_plus.Game.{init_game}
use tintemp_plus_plus.ConfirmButton.{get_button_id, get_replied_msg, ConfirmButton, Status}
use tintemp_plus_plus.Registry.{Entry, Bot}
use tintemp_plus_plus.Bot.{
  Call, reply, reply_text, message_edit, message_delete, Visit, goes_on, returns, undefined, Loop,
  resume, run_loop, add_calls, log_only, stranger_warned, start_shown, game_shown, decline_shown,
  no_callback, confirm_replied,
}

-- The text of the line at the start of `on_confirm_click`.
abbrev pub confirm_text : Text
confirm_text = codes "entered on_confirm_click()"

-- The player who pressed the button, 0 for anybody else.
unfoldable pub player_of : ℕ → ConfirmButton → ℕ
player_of usr c =
    let player = if usr == c.player_1 then 1 else 0 in if usr == c.player_2 then 2 else player

-- `player == 1 ? is_player_1_confm : is_player_2_confm`, and the same of the other player.
abbrev pub own_confm : ℕ → Status → Bool
own_confm player st = if player == 1 then st.is_player_1_confm else st.is_player_2_confm

abbrev pub other_confm : ℕ → Status → Bool
other_confm player st = if player == 1 then st.is_player_2_confm else st.is_player_1_confm

-- The flag of the player, set.
unfoldable pub confirm : ℕ → Entry → Entry
confirm player e =
    if player == 1
    then record e {
      second = record (e.second) { st = record (e.second.st) { is_player_1_confm = true } };
    }
    else record e {
      second = record (e.second) { st = record (e.second.st) { is_player_2_confm = true } };
    }

abbrev pub pressing_player : ℕ → Entry → ℕ
pressing_player player e = if player == 1 then e.second.player_1 else e.second.player_2

module _ ⦃d : Dpp⦄ where
  -- "that's not your button!"
  unfoldable pub not_your_button : ButtonClick → Call
  not_your_button click =
      reply ir_channel_message_with_source
        (d.parts.set_flags
          (mention_only
            (d.parts.set_content d.messages.message
              (mention click.command.usr.id ++ codes " that's not your button!"))
            (click.command.usr.id ∷ []))
          (message_flag m_ephemeral))
        (log_only stranger_warned)

  -- The first confirmation of a game.
  unfoldable pub first_confirmed : ℕ → Entry → ℕ → Visit
  first_confirmed player e n = goes_on e n (
      reply_text ir_channel_message_with_source
        (mention (pressing_player player e) ++ codes " confirmed! *(1/2)*")
        (confirm_replied (get_uid e.first))
      ∷ [])

  unfoldable pub start_embed : Entry → Embed
  start_embed e =
      d.embeds.set_color
        (d.embeds.set_description (d.embeds.set_title d.embeds.embed (codes "Game Started!"))
          (mention e.second.player_1 ++ codes " ***vs*** " ++ mention e.second.player_2))
        green

  -- Both players have confirmed: the game starts.
  unfoldable pub both_confirmed : Entry → ℕ → Visit
  both_confirmed e n = elim (set_origin_embed e.first (start_embed e)) [
    | none ↦ undefined
    | some t ↦
        let (t', n') = init_game t n in
        goes_on (record e { first = t' }) n'
          (reply ir_update_message (get_origin t') (log_only start_shown)
            ∷ message_edit (get_game t') (log_only game_shown)
            ∷ [])
  ]

  -- The region ANSWERED_YES.
  unfoldable pub answered_yes : ℕ → Entry → ℕ → Visit
  answered_yes player e n =
      let e' = confirm player e in
      if own_confm player e.second.st
      then returns e n []
      else if not (other_confm player e'.second.st)
      then first_confirmed player e' n
      else both_confirmed e' n

  unfoldable pub cancelled_embed : ℕ → Entry → Embed
  cancelled_embed player e =
      d.embeds.set_color
        (d.embeds.set_description (d.embeds.set_title d.embeds.embed (codes "*Cancelled*"))
          (mention (pressing_player player e) ++ codes " Declined"))
        red

  -- The game is declined: its first message says so, and the reply to the other player is deleted.
  unfoldable pub declined : ℕ → Entry → ℕ → Visit
  declined player e n = elim (set_origin_embed e.first (cancelled_embed player e)) [
    | none ↦ undefined
    | some t ↦
        goes_on (record e { first = t }) n
          (message_edit (get_origin t) (log_only decline_shown)
            ∷ (if e.second.st.replied
                then message_delete (get_replied_msg e.second).id
                    (get_replied_msg e.second).channel_id
                  ∷ []
                else []))
  ]

  -- The region ANSWERED_NO.
  unfoldable pub answered_no : ℕ → Entry → ℕ → Visit
  answered_no player e n =
      if own_confm player e.second.st then returns e n [] else declined player (confirm player e) n

  -- `if (event.custom_id == get_button_id().second)`, after the first region.
  unfoldable pub then_no : ButtonClick → ℕ → Visit → Visit
  then_no click player (goes_on e n cs) =
      if text_eq click.custom_id (get_button_id e.second).1
      then add_calls cs (answered_no player e n)
      else goes_on e n cs
  then_no click player (returns e n cs) = returns e n cs
  then_no click player undefined = undefined

  -- The body of the loop.
  unfoldable pub visit : ButtonClick → Entry → ℕ → Visit
  visit click e n =
      let player = player_of click.command.usr.id e.second in
      if player == 0
      then returns e n (not_your_button click ∷ [])
      else then_no click player (
          if text_eq click.custom_id (get_button_id e.second).0
          then answered_yes player e n
          else goes_on e n [])

  -- The loop over `ttt_list_g`.
  unfoldable pub visit_all : ButtonClick → List Entry → ℕ → Loop
  visit_all click [] n = some ([], n, [])
  visit_all click (e ∷ es) n = resume (visit click e n) es (λ m. visit_all click es m)

  -- `on_confirm_click`.
  unfoldable pub on_confirm_click : ButtonClick → Bot → Option (Bot × List Call)
  unfolding visit_all resume run_loop
  on_confirm_click click = run_loop confirm_text (visit_all click)
