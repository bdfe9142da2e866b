-- ===== src/Life/Sane.antt =====
-- What holds of a game through its whole life.
use tintemp_plus_plus.Base.{
  ℕ, suc, ◌≤◌, ◌≡◌, ◌≢◌, ◌⊎◌, refl, sym, subst, ◌∙◌, Bool, true, not, ◌&&◌, ◌==◌, some, arith,
  Bool-cases, Option-cases, inl, inr,
}
use tintemp_plus_plus.Text.{Text, text_eq}
use tintemp_plus_plus.Dpp.{Dpp, Embed, Message}
use tintemp_plus_plus.Board.{Pair, Ix, i0, i1, i2, Board, at, update, set_status, status_at, idle}
use tintemp_plus_plus.Board.Access.{at-update_self, at-update_ne, Ix-discrete}
use tintemp_plus_plus.Ttt.{
  Ttt, GameResult, in_progress, expired, in_progress, draw, won, is_won, set_origin_embed,
  set_front, set_game_origin, new_ttt,
}
use tintemp_plus_plus.Ttt
use tintemp_plus_plus.Winner.{fetch_winner}
use tintemp_plus_plus.Winner.Result.{result-fetch_winner, field-fetch_winner}
use tintemp_plus_plus.Winner.Statuses.{status-fetch_winner}
use tintemp_plus_plus.Game.{swap_turn, init_game}
use tintemp_plus_plus.Game.Plays.{status-init_board}
use tintemp_plus_plus.Registry.{Entry, new_entry, set_entry_origin}
use tintemp_plus_plus.Confirm.FirstAnswer.{confirm_first}
use tintemp_plus_plus.Interaction.{Press, press_square, press_row, press_board}
use tintemp_plus_plus.Callbacks.{store_response}
use tintemp_plus_plus.Life.{
  Life, born, answered, edited, began, posted, stored, marked, swapped, pressed,
}

-- The statuses of the squares are those of the game.
abbrev pub Known : Board → Type 0
Known b = (i k : Ix) → status_at b i k ≤ 2

pub record IsSane (t : Ttt) : Type 0 where
  pub two_players : t.player_1 ≢ t.player_2
  pub known : Known t.board
  pub known_mark : t.turn.1 ≤ 2
  pub whose_turn : (t.turn.0 ≡ 0) ⊎ ((t.turn.0 ≡ t.player_1) ⊎ (t.turn.0 ≡ t.player_2))
  pub not_expired : t.result ≢ expired
  pub full_draw : t.result ≡ draw → 9 ≤ t.turns
  pub open_turns : t.result ≡ in_progress → t.turns ≤ 8

update-Known :
    (b : Board) (i k : Ix) (m : ℕ) → m ≤ 2 → Known b → Known (update b i k (set_status m))
update-Known b i k m low h = λ p q. elim (Ix-discrete i p) [
  | yes row ↦ elim (Ix-discrete k q) [
    | yes column ↦
        rw (← row, ← column)
          (subst (λ (x : Pair). x.status ≤ 2) (sym (at-update_self b i k (set_status m))) low)
    | no other ↦
        subst (λ (x : Pair). x.status ≤ 2) (sym (at-update_ne b i k p q (set_status m) (inr other)))
          (h p q)
  ]
  | no other ↦
      subst (λ (x : Pair). x.status ≤ 2) (sym (at-update_ne b i k p q (set_status m) (inl other)))
        (h p q)
]

swap_turn-IsSane : (t : Ttt) → IsSane t → IsSane (swap_turn t)
unfolding swap_turn
swap_turn-IsSane t s = record {
  two_players = ground (arith, s.two_players);
  known = λ i k. ground (arith, s.known i k);
  known_mark = ground (arith, s.known_mark);
  whose_turn = ground (arith, s.whose_turn);
  not_expired = ground (arith, s.not_expired);
  full_draw = ground (arith, s.full_draw);
  open_turns = ground (arith, s.open_turns);
}

pub fetch_winner-IsSane : (t : Ttt) → IsSane t → IsSane (fetch_winner t)
fetch_winner-IsSane t s =
    let p1 = field-fetch_winner (λ u. u.player_1) t (λ u b r. refl) in
    let p2 = field-fetch_winner (λ u. u.player_2) t (λ u b r. refl) in
    let turn = field-fetch_winner (λ u. u.turn) t (λ u b r. refl) in
    let turns = field-fetch_winner (λ u. u.turns) t (λ u b r. refl) in
    let result = result-fetch_winner t in
    record {
      two_players = λ same. s.two_players (sym p1 ∙ (same ∙ p2));
      known = λ i k. rw (status-fetch_winner t i k) (s.known i k);
      known_mark = rw turn s.known_mark;
      whose_turn = rw (turn, p1, p2) s.whose_turn;
      not_expired = ground (arith, s.not_expired, result);
      full_draw = ground (arith, s.full_draw, result, turns);
      open_turns = ground (arith, s.open_turns, result, turns);
    }

module _ ⦃d : Dpp⦄ where
  press_square-Known :
      (custom_id : Text) (mark : ℕ) (i k : Ix) (p : Press)
      → mark ≤ 2
      → Known p.board
      → Known (press_square custom_id mark i k p).board
  unfolding press_square
  press_square-Known custom_id mark i k p low h =
      elim (Bool-cases (text_eq custom_id (at p.board i k).id)) [
        | inl here ↦ elim (Bool-cases ((at p.board i k).status == idle)) [
          | inl free ↦ rw (here, free) (update-Known p.board i k mark low h)
          | inr taken ↦ rw (here, taken) h
        ]
        | inr other ↦ rw other h
      ]

  press_row-Known :
      (custom_id : Text) (mark : ℕ) (i : Ix) (p : Press)
      → mark ≤ 2
      → Known p.board
      → Known (press_row custom_id mark i p).board
  unfolding press_row
  press_row-Known custom_id mark i p low h = press_square-Known custom_id mark i i2 _ low (
      press_square-Known custom_id mark i i1 _ low (press_square-Known custom_id mark i i0 p low h))

  press_board-Known :
      (custom_id : Text) (mark : ℕ) (b : Board)
      → mark ≤ 2
      → Known b
      → Known (press_board custom_id mark b).board
  unfolding press_board
  press_board-Known custom_id mark b low h =
      press_row-Known custom_id mark i2 _ low
        (press_row-Known custom_id mark i1 _ low (press_row-Known custom_id mark i0 _ low h))

  init_game-IsSane : (t : Ttt) (n : ℕ) → IsSane t → IsSane (init_game t n).0
  unfolding init_game
  init_game-IsSane t n s = record {
    two_players = s.two_players;
    known = λ i k. omega (arith, status-init_board n i k);
    known_mark = omega arith;
    whose_turn = inr (inl refl);
    not_expired = s.not_expired;
    full_draw = s.full_draw;
    open_turns = s.open_turns;
  }

  origin-IsSane :
      (t : Ttt) (o : Message) (h : Bool)
      → IsSane t
      → IsSane (record t { origin = o; have_origin = h })
  origin-IsSane t o h s = record {
    two_players = s.two_players;
    known = s.known;
    known_mark = s.known_mark;
    whose_turn = s.whose_turn;
    not_expired = s.not_expired;
    full_draw = s.full_draw;
    open_turns = s.open_turns;
  }

  game-IsSane : (t : Ttt) (m : Message) → IsSane t → IsSane (set_game_origin t m)
  unfolding set_game_origin
  game-IsSane t m s = record {
    two_players = s.two_players;
    known = s.known;
    known_mark = s.known_mark;
    whose_turn = s.whose_turn;
    not_expired = s.not_expired;
    full_draw = s.full_draw;
    open_turns = s.open_turns;
  }

  pressed-IsSane :
      (custom_id : Text) (e : Entry) → IsSane e.first → IsSane (pressed custom_id e).first
  pressed-IsSane custom_id e s = record {
    two_players = s.two_players;
    known = press_board-Known custom_id e.first.turn.1 e.first.board s.known_mark s.known;
    known_mark = s.known_mark;
    whose_turn = s.whose_turn;
    not_expired = s.not_expired;
    full_draw = s.full_draw;
    open_turns = s.open_turns;
  }

  new_ttt-IsSane : (p1 p2 n : ℕ) → p1 ≢ p2 → IsSane (new_ttt p1 p2 n).0
  unfolding new_ttt
  new_ttt-IsSane p1 p2 n differ = record {
    two_players = differ;
    known = λ i k. ground arith;
    known_mark = omega arith;
    whose_turn = inl refl;
    not_expired = λ e. cc e;
    full_draw = λ e. absurd (ground arith);
    open_turns = λ e. omega arith;
  }

  edited-IsSane :
      (t u : Ttt) (embed : Embed) → set_origin_embed t embed ≡ some u → IsSane t → IsSane u
  unfolding set_origin_embed
  edited-IsSane t u embed done s = elim (Option-cases (set_front t.origin.embeds embed)) [
    | inl fault ↦ absurd (ground arith)
    | inr (es, found) ↦
        let same : u ≡ record t { origin = record (t.origin) { embeds = es } } = ground arith in
        rw same (origin-IsSane t (record (t.origin) { embeds = es }) t.have_origin s)
  ]

  pub Life-IsSane : {e : Entry} → Life e → IsSane e.first
  unfolding new_entry set_entry_origin Ttt.set_origin store_response
  Life-IsSane (born c p1 p2 n differ) = elim (Bool-cases c.left_first) [
    | inl order ↦ rw order (new_ttt-IsSane p1 p2 n differ)
    | inr order ↦ rw order (new_ttt-IsSane p1 p2 (suc (suc n)) differ)
  ]
  Life-IsSane (answered player {e = e} l) =
      subst IsSane (sym (confirm_first player e)) (Life-IsSane l)
  Life-IsSane (edited {e = e} embed t l done) = edited-IsSane e.first t embed done (Life-IsSane l)
  Life-IsSane (began {e = e} n l one two) = init_game-IsSane e.first n (Life-IsSane l)
  Life-IsSane (posted {e = e} m id l) =
      elim (Bool-cases ((id == e.first.uid) && not e.first.have_origin)) [
        | inl here ↦ rw here (origin-IsSane e.first m true (Life-IsSane l))
        | inr other ↦ rw other (Life-IsSane l)
      ]
  Life-IsSane (stored {e = e} m l) = game-IsSane e.first m (Life-IsSane l)
  Life-IsSane (marked {e = e} custom_id l) = pressed-IsSane custom_id e (Life-IsSane l)
  Life-IsSane (swapped {e = e} l) =
      swap_turn-IsSane (fetch_winner e.first) (fetch_winner-IsSane e.first (Life-IsSane l))
