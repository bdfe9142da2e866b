-- ===== src/Interaction/Ends.antt =====
-- Games between players who go on clicking.
use tintemp_plus_plus.Base.{
  ℕ, zero, suc, ◌+◌, ◌≡◌, ◌≢◌, ◌≤◌, ◌⊎◌, refl, sym, ◌∙◌, Bool, true, false, if◌then◌else◌,
  Bool-cases, inl, inr, ◌∷◌, length, arith,
}
use tintemp_plus_plus.Dpp.{Dpp, ButtonClick}
use tintemp_plus_plus.Board.{Ix, Board, at, status_at, idle}
use tintemp_plus_plus.Ttt.{Ttt, GameResult, in_progress, expired, draw, won}
use tintemp_plus_plus.Game.Moves.{Moves}
use tintemp_plus_plus.Game.Plays.{Plays, Plays-IsGame, Plays-bounded}
use tintemp_plus_plus.Game.Progress.{free_of_playing}
use tintemp_plus_plus.Registry.{Entry}
use tintemp_plus_plus.Bot.{Visit, goes_on, returns, undefined}
use tintemp_plus_plus.Interaction.{visit}
use tintemp_plus_plus.Interaction.Play.{click_moves}

abbrev is_playing : GameResult → Bool
is_playing in_progress = true
is_playing expired = false
is_playing draw = false
is_playing won = false

-- The click, with the data of `click`, of the player in `turn` on a square of the game's message.
abbrev pub press_square_of : ButtonClick → Ttt → Ix × Ix → ButtonClick
press_square_of click t m = record click {
  command = record (click.command) {
    message_id = t.game.id;
    usr = record (click.command.usr) { id = t.turn.0 };
  };
  custom_id = (at t.board m.0 m.1).id;
}

-- The game after a round of the handler.
abbrev entry_after : Visit → Entry → Entry
entry_after (goes_on e n cs) old = e
entry_after (returns e n cs) old = e
entry_after undefined old = old

-- A way to choose the next square that takes a free one where there is one.
abbrev pub PicksFree : (Board → Ix × Ix) → Type 0
PicksFree choose =
    (b : Board) (i k : Ix) → status_at b i k ≡ idle → status_at b (choose b).0 (choose b).1 ≡ idle

module _ ⦃d : Dpp⦄ where
  -- The game after some rounds in which the player to move clicks on the square chosen.
  unfoldable pub rounds : ButtonClick → (Board → Ix × Ix) → ℕ → Entry → Entry
  rounds click choose zero e = e
  rounds click choose (suc f) e =
      let v = visit (press_square_of click e.first (choose e.first.board)) e 0 in
      let rest = rounds click choose f (entry_after v e) in
      if is_playing e.first.result then rest else e

  playing_or_over : (r : GameResult) → is_playing r ≡ true → r ≡ in_progress
  playing_or_over in_progress e = refl
  playing_or_over expired e = ground arith
  playing_or_over draw e = ground arith
  playing_or_over won e = ground arith

  -- A game that was played and is won or a draw.
  pub Over : Ttt → Type 0
  Over t = (ms : Moves) × Plays t ms × ((t.result ≡ won) ⊎ (t.result ≡ draw))

  Plays-Over : {t : Ttt} {ms : Moves} → Plays t ms → t.result ≢ in_progress → Over t
  unfolding Over
  Plays-Over {ms = ms} p over = (ms, p, ground (arith, (Plays-IsGame p).result_outcome, over))

  -- From a game that was played by the moves `ms`, in rounds of the board's handler in which the
  -- player to move clicks, by whatever rule, on a square that is free where one is, a number of
  -- rounds that fills up `ms` to nine leads to a game that is played by moves of the rules and is
  -- won or a draw.
  pub rounds_end :
      (click : ButtonClick) (choose : Board → Ix × Ix)
      → PicksFree choose
      → (f : ℕ) (e : Entry) (ms : Moves) → Plays e.first ms
      → 9 ≤ length ms + f
      → Over (rounds click choose f e).first
  unfolding rounds
  rounds_end click choose picks zero e ms p enough =
      Plays-Over p (λ playing. omega (arith, enough, ((Plays-bounded p).2.0 playing).1))
  rounds_end click choose picks (suc f) e ms p enough =
      elim (Bool-cases (is_playing e.first.result)) [
        | inl going ↦
            let playing = playing_or_over e.first.result going in
            let (i, k, free) = free_of_playing p playing in
            let m = choose e.first.board in
            let g = Plays-IsGame p in
            let picked = sym (g.statuses m.0 m.1) ∙ picks e.first.board i k free in
            elim (click_moves (press_square_of click e.first m) e 0 ms m.0 m.1 p playing refl
              (g.turn_player playing) refl) [
                | inl (taken, refused) ↦ absurd (taken picked)
                | inr (empty, t, done, p') ↦
                    rw (going, done)
                      (rounds_end click choose picks f (record e { first = t }) (m ∷ ms) p'
                        (omega (arith, enough)))
              ]
        | inr over ↦ rw over (Plays-Over p (λ playing. ground (arith, over, playing)))
      ]
