-- ===== src/Confirm/Blocked.antt =====
-- The first game of the list decides who may press any button.
use tintemp_plus_plus.Base.{◌≡◌, ◌≢◌, List, [], ◌∷◌, some, arith}
use tintemp_plus_plus.Dpp.{Dpp, ButtonClick}
use tintemp_plus_plus.Registry.{Entry, Bot}
use tintemp_plus_plus.Bot.{entry_line, run_loop}
use tintemp_plus_plus.Confirm.{confirm_text, player_of, not_your_button, visit, on_confirm_click}

player_of_stranger :
    (click : ButtonClick) (e : Entry)
    → click.command.usr.id ≢ e.second.player_1
    → click.command.usr.id ≢ e.second.player_2
    → player_of click.command.usr.id e.second ≡ 0
unfolding player_of
player_of_stranger click e p q = ground arith

module _ ⦃d : Dpp⦄ where
  -- A click of a user who does not play in the first game of the list changes nothing and, after
  -- the entry of the handler is logged, is refused with "that's not your button!", whatever button
  -- of whatever game it is on.
  pub blocked_by_first :
      (click : ButtonClick) (s : Bot) (e : Entry) (es : List Entry)
      → s.ttt_list_g ≡ e ∷ es
      → click.command.usr.id ≢ e.second.player_1
      → click.command.usr.id ≢ e.second.player_2
      → on_confirm_click click s ≡ some (s, entry_line confirm_text ∷ not_your_button click ∷ [])
  unfolding on_confirm_click run_loop visit
  blocked_by_first click s e es list p q = rw (list, run_loop, player_of_stranger click e p q, list)
