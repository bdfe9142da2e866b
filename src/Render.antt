-- ===== src/Render.antt =====
-- The part of tictactoe.cpp that turns a game into a message: `fetch_btn_icon`,
-- `ttt::fetch_ttt_components` and `ttt::fetch_ttt_turn`. The log line of an unknown status is left out.
pub mod Buttons
pub mod Shown
pub mod Turn
use tintemp_plus_plus.Base.{ℕ, Bool, true, false, ◌||◌, ◌==◌, if◌then◌else◌, List, [], ◌∷◌, ◌++◌}
use tintemp_plus_plus.Text.{Text, codes}
use tintemp_plus_plus.Dpp.{
  Dpp, Button, ComponentStyle, cos_primary, cos_secondary, cos_success, cos_danger, cot_button,
  ActionRow, Message, AllowedMentions,
}
use tintemp_plus_plus.Board.{get_id, Pair, Board, Array3, idle, x_mark, o_mark}
use tintemp_plus_plus.Ttt.{Ttt, GameResult, is_won, is_draw, is_expired}

-- `fetch_btn_icon`, the `switch` on `pair.status`.
unfoldable pub fetch_btn_icon : Pair → Text × ComponentStyle
fetch_btn_icon p =
    if p.status == idle
    then (codes "-", cos_secondary)
    else if p.status == x_mark
    then (codes "X", if p.won then cos_success else cos_danger)
    else if p.status == o_mark
    then (codes "O", if p.won then cos_success else cos_primary)
    else (codes "...", cos_secondary)

-- `this->result == WON || this->result == DRAW`.
abbrev pub is_over : GameResult → Bool
is_over r = is_won r || is_draw r

module _ ⦃d : Dpp⦄ where
  -- `set_allowed_mentions(false, false, false, false, users, {})`.
  abbrev pub mention_only : Message → List ℕ → Message
  mention_only m users = d.messages.set_allowed_mentions m false false false false users []

  -- One button of the board.
  unfoldable pub pair_button : GameResult → Pair → Button
  pair_button result p =
      d.components.set_disabled
        (d.components.set_id
          (d.components.set_style
            (d.components.set_type
              (d.components.set_label d.components.component
                (if is_expired result then codes "EXPIRED" else (fetch_btn_icon p).0))
              cot_button)
            (fetch_btn_icon p).1)
          (get_id p))
        (is_over result)

  unfoldable pub board_row : GameResult → Array3 Pair → ActionRow
  board_row result r =
      d.components.add_component
        (d.components.add_component
          (d.components.add_component d.components.component (pair_button result r.e0))
          (pair_button result r.e1))
        (pair_button result r.e2)

  -- `fetch_ttt_components`.
  unfoldable pub fetch_ttt_components : Ttt → Board → ActionRow × ActionRow × ActionRow
  fetch_ttt_components t b =
      (board_row t.result b.e0, board_row t.result b.e1, board_row t.result b.e2)

  -- `fmt::format("<@{}>", id)`.
  unfoldable pub mention : ℕ → Text
  mention id = codes "<@" ++ d.format_int id ++ codes ">"

  unfoldable pub turn_text : ℕ → Text
  turn_text id = codes "its " ++ mention id ++ codes "'s turn"

  -- `fetch_ttt_turn`: `msg_to_fetch` with the board's buttons added.
  unfoldable pub fetch_ttt_turn : Ttt → Message → Message
  fetch_ttt_turn t msg =
      let (row_1, row_2, row_3) = fetch_ttt_components t t.board in
      let m =
        d.parts.add_component
          (d.parts.add_component
            (d.parts.add_component
              (d.parts.set_content (mention_only msg (t.player_1 ∷ t.player_2 ∷ []))
                (turn_text t.turn.0))
              row_1)
            row_2)
          row_3 in
      if is_draw t.result || is_won t.result then d.parts.set_content m (codes "** **") else m
