-- ===== src/Render/Buttons.antt =====
-- The buttons of a board, read field by field through the laws of the library.
use tintemp_plus_plus.Base.{◌≤◌, ◌≡◌, if◌then◌else◌, [], ◌∷◌, length, arith}
use tintemp_plus_plus.Text.{codes}
use tintemp_plus_plus.Dpp.{Dpp, cot_button}
use tintemp_plus_plus.Board.{Pair, Array3}
use tintemp_plus_plus.Ttt.{GameResult, is_expired}
use tintemp_plus_plus.Render.{fetch_btn_icon, is_over, pair_button, board_row}

length-label-le :
    (r : GameResult) (p : Pair)
    → length (if is_expired r then codes "EXPIRED" else (fetch_btn_icon p).0) ≤ 80
unfolding fetch_btn_icon
length-label-le r p = ground arith

module _ ⦃d : Dpp⦄ where
  -- Every field that `pair_button` sets.
  pub pair_button_fields :
      (r : GameResult) (p : Pair)
      → length p.id ≤ 100
      → pair_button r p ≡ record (d.components.component) {
        type = cot_button;
        label = if is_expired r then codes "EXPIRED" else (fetch_btn_icon p).0;
        style = (fetch_btn_icon p).1;
        custom_id = p.id;
        disabled = is_over r;
      }
  unfolding pair_button
  pair_button_fields r p h = rw (
    pair_button,
    d.components.set_label_lem d.components.component _ (length-label-le r p),
    d.components.set_type_lem,
    d.components.set_style_lem,
    d.components.set_id_lem _ _ h,
    d.components.set_disabled_lem,
  )

  pub board_row-components :
      (r : GameResult) (a : Array3 Pair)
      → (board_row r a).components
        ≡ pair_button r a.e0 ∷ pair_button r a.e1 ∷ pair_button r a.e2 ∷ []
  unfolding board_row
  board_row-components r a =
      simp (d.components.add_component_lem, d.components.component-components)
