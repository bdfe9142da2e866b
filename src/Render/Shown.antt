-- ===== src/Render/Shown.antt =====
-- The buttons of `fetch_ttt_components` show the whole board.
use tintemp_plus_plus.Base.{◌≤◌, ◌≡◌, ◌≢◌, sym, ap, ◌∙◌, false, List, [], ◌∷◌, length, arith}
use tintemp_plus_plus.Dpp.{Dpp, Button, ActionRow}
use tintemp_plus_plus.Board.{Ix, i0, i1, i2, get, Pair, Board, Array3, at, idle}
use tintemp_plus_plus.Ttt.{Ttt, GameResult, is_expired}
use tintemp_plus_plus.Render.{fetch_btn_icon, pair_button, board_row, fetch_ttt_components}
use tintemp_plus_plus.Render.Buttons.{pair_button_fields, board_row-components}

-- A square with a status that the game uses and an id that fits a button.
pub record IsSound (p : Pair) : Type 0 where
  pub known : p.status ≤ 2
  pub fits : length p.id ≤ 100

-- Two squares that look alike.
pub record Alike (p q : Pair) : Type 0 where
  pub ids : p.id ≡ q.id
  pub statuses : p.status ≡ q.status
  pub flags : p.status ≢ idle → p.won ≡ q.won

icon_status :
    (p q : Pair)
    → p.status ≤ 2
    → q.status ≤ 2
    → (fetch_btn_icon p).0 ≡ (fetch_btn_icon q).0
    → p.status ≡ q.status
unfolding fetch_btn_icon
icon_status p q hp hq e = ground arith

icon_flag :
    (p q : Pair)
    → p.status ≤ 2
    → p.status ≡ q.status
    → p.status ≢ idle
    → (fetch_btn_icon p).1 ≡ (fetch_btn_icon q).1
    → p.won ≡ q.won
unfolding fetch_btn_icon
icon_flag p q hp same taken e = ground arith

module _ ⦃d : Dpp⦄ where
  pair_button-Alike :
      (r : GameResult) (p q : Pair)
      → is_expired r ≡ false
      → IsSound p
      → IsSound q
      → pair_button r p ≡ pair_button r q
      → Alike p q
  pair_button-Alike r p q live hp hq e =
      let same = sym (pair_button_fields r p hp.fits) ∙ (e ∙ pair_button_fields r q hq.fits) in
      let labels : (fetch_btn_icon p).0 ≡ (fetch_btn_icon q).0 =
        rw live at (ap (λ (c : Button). c.label) same) in
      let statuses = icon_status p q hp.known hq.known labels in
      record {
        ids = ap (λ (c : Button). c.custom_id) same;
        statuses = statuses;
        flags = λ taken. icon_flag p q hp.known statuses taken (ap (λ (c : Button). c.style) same);
      }

  -- Equal rows have equal buttons.
  row_buttons :
      (r : GameResult) (a b : Array3 Pair)
      → board_row r a ≡ board_row r b
      → (k : Ix) → pair_button r (get a k) ≡ pair_button r (get b k)
  row_buttons r a b e k = three k
    where
      lists :
          ◌≡◌ {A = List Button}
            (pair_button r a.e0 ∷ pair_button r a.e1 ∷ pair_button r a.e2 ∷ [])
            (pair_button r b.e0 ∷ pair_button r b.e1 ∷ pair_button r b.e2 ∷ [])
      lists =
          sym (board_row-components r a)
          ∙ (ap (λ (x : ActionRow). x.components) e ∙ board_row-components r b)

      three : (k : Ix) → pair_button r (get a k) ≡ pair_button r (get b k)
      three i0 = cc lists
      three i1 = cc lists
      three i2 = cc lists

  rows_equal :
      (t : Ttt) (b c : Board)
      → fetch_ttt_components t b ≡ fetch_ttt_components t c
      → (i : Ix) → board_row t.result (get b i) ≡ board_row t.result (get c i)
  unfolding fetch_ttt_components
  rows_equal t b c e i0 = ap (λ (x : ActionRow × ActionRow × ActionRow). x.0) e
  rows_equal t b c e i1 = ap (λ (x : ActionRow × ActionRow × ActionRow). x.1) e
  rows_equal t b c e i2 = ap (λ (x : ActionRow × ActionRow × ActionRow). x.2) e

  -- Two boards that one game, not expired, shows by the same buttons have the same ids and marks on
  -- all squares, and the same winning flags on the squares that are taken, if their statuses are
  -- those of the game and their ids have at most 100 characters.
  pub components_show_board :
      (t : Ttt) (b c : Board)
      → is_expired t.result ≡ false
      → ((i k : Ix) → IsSound (at b i k))
      → ((i k : Ix) → IsSound (at c i k))
      → fetch_ttt_components t b ≡ fetch_ttt_components t c
      → (i k : Ix) → Alike (at b i k) (at c i k)
  components_show_board t b c live hb hc e i k =
      pair_button-Alike t.result (at b i k) (at c i k) live (hb i k) (hc i k)
        (row_buttons t.result (get b i) (get c i) (rows_equal t b c e i) k)
