-- ===== src/Ttt.antt =====
-- Class `ttt` of tictactoe.hpp: one game with its messages, and its accessors and modifiers. A method
-- that writes `*this` returns the new record.
pub mod Embeds
use tintemp_plus_plus.Base.{ℕ, Bool, true, false, Option, none, some, List, [], ◌∷◌}
use tintemp_plus_plus.Dpp.{Dpp, Message, Embed}
use tintemp_plus_plus.UniqueId.{new_id}
use tintemp_plus_plus.Board.{Board, default_board}

-- `ttt::RESULT`.
pub data GameResult : Type 0 where
  in_progress expired draw won : GameResult

abbrev pub is_won : GameResult → Bool
is_won won = true
is_won _ = false

abbrev pub is_draw : GameResult → Bool
is_draw draw = true
is_draw _ = false

abbrev pub is_expired : GameResult → Bool
is_expired expired = true
is_expired _ = false

pub record Ttt : Type 0 where
  pub uid : ℕ
  pub origin : Message
  pub game : Message
  pub turn : ℕ × ℕ  -- this turn's player and mark
  pub player_1 : ℕ
  pub player_2 : ℕ
  pub have_origin : Bool
  pub result : GameResult
  pub turns : ℕ
  pub board : Board

abbrev pub get_player : Ttt → ℕ × ℕ
get_player t = (t.player_1, t.player_2)

-- `get_origin`, `get_game`, `get_uid` and `this_turn`, where they are read.
abbrev pub get_origin : Ttt → Message
get_origin t = t.origin

abbrev pub get_game : Ttt → Message
get_game t = t.game

abbrev pub get_uid : Ttt → ℕ
get_uid t = t.uid

abbrev pub this_turn : Ttt → ℕ × ℕ
this_turn t = t.turn

-- `set_origin`.
unfoldable pub set_origin : Ttt → Message → Ttt
set_origin t m = record t { origin = m; have_origin = true }

-- `embeds.front() = e`; `none` is the undefined `front` of an empty vector.
unfoldable pub set_front : List Embed → Embed → Option (List Embed)
set_front [] e = none
set_front (x ∷ xs) e = some (e ∷ xs)

-- `set_origin_embed`.
unfoldable pub set_origin_embed : Ttt → Embed → Option Ttt
set_origin_embed t e = elim (set_front t.origin.embeds e) [
  | none ↦ none
  | some es ↦ some (record t { origin = record (t.origin) { embeds = es } })
]

-- `set_game_origin`.
unfoldable pub set_game_origin : Ttt → Message → Ttt
set_game_origin t m = record t { game = m }

module _ ⦃d : Dpp⦄ where
  -- The constructor, with `init` and `init_uid`.
  unfoldable pub new_ttt : ℕ → ℕ → ℕ → Ttt × ℕ
  unfolding new_id
  new_ttt p1 p2 next_id =
      let (uid, next) = new_id next_id in
      (
        record {
          uid = uid;
          origin = d.messages.message;
          game = d.messages.message;
          turn = (0, 0);
          player_1 = p1;
          player_2 = p2;
          have_origin = false;
          result = in_progress;
          turns = 0;
          board = default_board;
        },
        next,
      )
