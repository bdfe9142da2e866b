-- ===== src/Interaction/Play.antt =====
-- Clicks on a board as moves of the game.
use tintemp_plus_plus.Base.{
  ℕ, ◌≡◌, ◌≢◌, sym, ◌∙◌, ◌==◌, [], ◌∷◌, length, ◌⊎◌, Bool-cases, inl, inr, arith, ==_iff,
}
use tintemp_plus_plus.Dpp.{Dpp, ButtonClick}
use tintemp_plus_plus.Board.{Ix, at, status_at, idle}
use tintemp_plus_plus.Board.Ids.{DistinctIds, square_id, id-init_board, init_board-DistinctIds}
use tintemp_plus_plus.Ttt.{Ttt, in_progress}
use tintemp_plus_plus.Game.{take_turn, init_game}
use tintemp_plus_plus.Game.Moves.{Moves, cell, player_after}
use tintemp_plus_plus.Game.Turn.{id-take_turn}
use tintemp_plus_plus.Game.Plays.{Plays, start, move, Plays-IsGame}
use tintemp_plus_plus.Registry.{Entry}
use tintemp_plus_plus.Bot.{goes_on, returns}
use tintemp_plus_plus.Interaction.{edited_square, already_taken, visit}
use tintemp_plus_plus.Interaction.Outcome.{turn_reply, visit_square}

module _ ⦃d : Dpp⦄ where
  -- The ids of the squares stay distinct through a game.
  pub Plays-DistinctIds : {t : Ttt} {ms : Moves} → Plays t ms → DistinctIds t.board
  unfolding init_game
  Plays-DistinctIds (start t n f) = init_board-DistinctIds n
  Plays-DistinctIds (move {t = t} {ms = ms} i k p playing free) = λ a b e f same.
      Plays-DistinctIds p a b e f (sym (id-take_turn t i k a b) ∙ (same ∙ id-take_turn t i k e f))

  -- The ids of the squares are those of a new board.
  pub Plays-square_id :
      {t : Ttt} {ms : Moves}
      → Plays t ms
      → (n : ℕ) × ((i k : Ix) → (at t.board i k).id ≡ square_id n i k)
  unfolding init_game
  Plays-square_id (start t n f) = (n, id-init_board n)
  Plays-square_id (move {t = t} {ms = ms} i k p playing free) =
      let (n, ids) = Plays-square_id p in (n, λ a b. id-take_turn t i k a b ∙ ids a b)

  -- In a game in progress that was played by the moves `ms`, a click on its message by the player
  -- who has to move, on a square's button, either finds the square taken by the rules, is answered
  -- with "already taken" and changes nothing, or finds it free by the rules, makes the move, logs
  -- the mark that the square got and is answered with the new board.
  pub click_moves :
      (click : ButtonClick) (e : Entry) (n : ℕ) (ms : Moves) (i k : Ix)
      → Plays e.first ms
      → e.first.result ≡ in_progress
      → click.command.message_id ≡ e.first.game.id
      → click.command.usr.id ≡ player_after e.first.player_1 e.first.player_2 (length ms)
      → click.custom_id ≡ (at e.first.board i k).id
      → ((cell ms i k ≢ idle) × (visit click e n ≡ returns e n (already_taken ∷ [])))
        ⊎ ((cell ms i k ≡ idle)
            × (t : Ttt) × (visit click e n
                ≡ goes_on
                    (record e { first = t })
                    n
                    (edited_square e.first.turn.1 ∷ turn_reply click t ∷ []))
            × Plays t ((i, k) ∷ ms))
  click_moves click e n ms i k p playing here player square =
      let g = Plays-IsGame p in
      let outcome =
        visit_square click e n i k (Plays-DistinctIds p) here (player ∙ sym (g.turn_player playing))
          square in
      elim (Bool-cases (status_at e.first.board i k == idle)) [
        | inl free ↦
            let empty = (==_iff (status_at e.first.board i k) idle).0 free in
            inr (
              sym (g.statuses i k) ∙ empty,
              take_turn e.first i k,
              outcome ∙ rw free,
              move i k p playing empty,
            )
        | inr full ↦ inl (λ same. ground (arith, g.statuses i k), outcome ∙ rw full)
      ]
