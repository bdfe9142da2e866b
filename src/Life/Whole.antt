-- ===== src/Life/Whole.antt =====
-- A game from the two answers to the challenge to its end.
use tintemp_plus_plus.Base.{ℕ, ◌≡◌, ◌⊎◌, [], some, arith}
use tintemp_plus_plus.Dpp.{Dpp, ButtonClick}
use tintemp_plus_plus.Board.{Ix, Board}
use tintemp_plus_plus.Game.Plays.{IsFresh}
use tintemp_plus_plus.Registry.{Entry}
use tintemp_plus_plus.Registry.Uids.{yes_of, no_of}
use tintemp_plus_plus.Confirm.Answers.{Presses}
use tintemp_plus_plus.Confirm.FirstAnswer.{Unanswered, other}
use tintemp_plus_plus.Confirm.Starts.{two_clicks, second_yes_starts}
use tintemp_plus_plus.Interaction.Ends.{PicksFree, Over, rounds, rounds_end}

module _ ⦃d : Dpp⦄ where
  -- Of a fresh challenge between two different players, that was posted and that nobody has
  -- answered, one player answers first with either button and the other one then with YES, and
  -- after that the player to move always clicks, by whatever rule, on a square that is free where
  -- one is: the two answers are handled, and after at most nine rounds of the board's handler the
  -- game, played by moves of the rules, is won or a draw.
  pub accepted_game_ends :
      (a b click : ButtonClick) (choose : Board → Ix × Ix) (e : Entry) (n player : ℕ)
      → Unanswered e
      → IsFresh e.first
      → (player ≡ 1) ⊎ (player ≡ 2)
      → Presses a e player
      → Presses b e (other player)
      → (a.custom_id ≡ yes_of e) ⊎ (a.custom_id ≡ no_of e)
      → b.custom_id ≡ yes_of e
      → PicksFree choose
      → (f : Entry) × (m : ℕ) × (two_clicks a b e n ≡ some (f, m))
        × Over (rounds click choose 9 f).first
  accepted_game_ends a b click choose e n player new fresh which plays_a plays_b answer yes_b
        picks =
      let (f, done, board, turn, plays) =
        second_yes_starts a b e n player new fresh which plays_a plays_b answer yes_b in
      (f, _, done, rounds_end click choose picks 9 f [] plays (omega arith))
