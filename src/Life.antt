-- ===== src/Life.antt =====
-- The life of one game in `ttt_list_g` of tictactoe.cpp: the changes that the handlers and callbacks
-- make to the pair of the game and its confirmation.
pub mod Rounds
pub mod Clicks
pub mod Callbacks
pub mod Events
pub mod Sane
pub mod Reached
pub mod Whole
use tintemp_plus_plus.Base.{ℕ, ◌≡◌, ◌≢◌, true, some}
use tintemp_plus_plus.Text.{Text}
use tintemp_plus_plus.Dpp.{Dpp, Message, Embed}
use tintemp_plus_plus.Ttt.{Ttt, set_origin_embed}
use tintemp_plus_plus.Winner.{fetch_winner}
use tintemp_plus_plus.Game.{init_game, swap_turn}
use tintemp_plus_plus.ConfirmButton.{Compiler}
use tintemp_plus_plus.Registry.{Entry, new_entry, set_entry_origin}
use tintemp_plus_plus.Confirm.{confirm}
use tintemp_plus_plus.Interaction.{press_board}
use tintemp_plus_plus.Callbacks.{store_response}

module _ ⦃d : Dpp⦄ where
  -- The game after the squares with the id of the click were marked.
  abbrev pub pressed : Text → Entry → Entry
  pressed custom_id e = record e {
    first = record (e.first) { board = (press_board custom_id e.first.turn.1 e.first.board).board };
  }

  pub data Life : Entry → Type 0 where
    born : (c : Compiler) (p1 p2 n : ℕ) → p1 ≢ p2 → Life (new_entry c p1 p2 n).0
    answered : (player : ℕ) {e : Entry} → Life e → Life (confirm player e)
    edited :
        {e : Entry} (embed : Embed) (t : Ttt)
        → Life e
        → set_origin_embed e.first embed ≡ some t
        → Life (record e { first = t })
    began :
        {e : Entry} (n : ℕ)
        → Life e
        → e.second.st.is_player_1_confm ≡ true
        → e.second.st.is_player_2_confm ≡ true
        → Life (record e { first = (init_game e.first n).0 })
    posted : {e : Entry} (m : Message) (id : ℕ) → Life e → Life (set_entry_origin m id e)
    stored : {e : Entry} (m : Message) → Life e → Life (store_response m e)
    marked : {e : Entry} (custom_id : Text) → Life e → Life (pressed custom_id e)
    swapped : {e : Entry} → Life e → Life (record e { first = swap_turn (fetch_winner e.first) })
