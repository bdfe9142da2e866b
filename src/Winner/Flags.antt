-- ===== src/Winner/Flags.antt =====
-- Which squares `fetch_winner` marks as won.
use mathlib.Core.Path.{fun_ext}
use mathlib.Core.Bool.{or-false}
use tintemp_plus_plus.Base.{
  ◌≡◌, refl, sym, ◌∙◌, ◌≢◌, Bool, true, false, ◌&&◌, ◌||◌, if◌then◌else◌, List, [], ◌∷◌, arith, any,
}
use tintemp_plus_plus.Board.{Ix, i0, i1, i2, Array3, get, modify, Board, at, update}
use tintemp_plus_plus.Ttt.{Ttt}
use tintemp_plus_plus.Winner.{set_won, mark_won, fetch_winner}
use tintemp_plus_plus.Winner.Lines.{
  Line, lines, is_complete, mark_line, check_line, check_all, is_complete-check_line,
  fetch_winner-check_all,
}

abbrev pub ix_eq : Ix → Ix → Bool
ix_eq i0 i0 = true
ix_eq i1 i1 = true
ix_eq i2 i2 = true
ix_eq _ _ = false

ix_eq→eq : (i j : Ix) → ix_eq i j ≡ true → i ≡ j
ix_eq→eq i j h = ground arith

ix_eq→ne : (i j : Ix) → ix_eq i j ≡ false → i ≢ j
ix_eq→ne i j h = ground arith

abbrev pub is_square : Ix × Ix → Ix → Ix → Bool
is_square p i k = ix_eq p.0 i && ix_eq p.1 k

abbrev pub on_line : Line → Ix → Ix → Bool
on_line l i k = is_square l.a i k || (is_square l.b i k || is_square l.c i k)

-- A square on some complete line.
unfoldable pub is_winning : Board → Ix → Ix → Bool
is_winning b i k = any (λ l. is_complete b l && on_line l i k) lines

module _ {ℓ} {A : Type ℓ} where
  pub get-modify_if :
      (a : Array3 A) (i j : Ix) (f : A → A)
      → get (modify a i f) j ≡ (if ix_eq i j then f (get a j) else get a j)
  get-modify_if a i0 i0 f = refl
  get-modify_if a i0 i1 f = refl
  get-modify_if a i0 i2 f = refl
  get-modify_if a i1 i0 f = refl
  get-modify_if a i1 i1 f = refl
  get-modify_if a i1 i2 f = refl
  get-modify_if a i2 i0 f = refl
  get-modify_if a i2 i1 f = refl
  get-modify_if a i2 i2 f = refl

won-update :
    (b : Board) (p : Ix × Ix) (i k : Ix)
    → (at (update b p.0 p.1 set_won) i k).won ≡ ((at b i k).won || is_square p i k)
won-update b (p, q) i k =
    rw (get-modify_if b p i (λ r. modify r q set_won))
      (ground (arith, get-modify_if (get b i) q k set_won))

or_regroup : (a b c d : Bool) → (((a || b) || c) || d) ≡ (a || (b || (c || d)))
or_regroup true b c d = refl
or_regroup false true c d = refl
or_regroup false false c d = refl

won-mark_line :
    (l : Line) (t : Ttt) (i k : Ix)
    → (at (mark_line l t).board i k).won ≡ ((at t.board i k).won || on_line l i k)
unfolding mark_line mark_won
won-mark_line l t i k =
    rw
      (
        won-update (update (update t.board l.a.0 l.a.1 set_won) l.b.0 l.b.1 set_won) l.c i k,
        won-update (update t.board l.a.0 l.a.1 set_won) l.b i k,
        won-update t.board l.a i k,
      )
      (or_regroup (at t.board i k).won _ _ _)

won-check_all :
    (ls : List Line) (t : Ttt) (i k : Ix)
    → (at (check_all ls t).board i k).won
      ≡ ((at t.board i k).won || any (λ l. is_complete t.board l && on_line l i k) ls)
unfolding check_all check_line
won-check_all [] t i k = sym (or-false _)
won-check_all (l ∷ ls) t i k =
    won-check_all ls (check_line l t) i k
    ∙ rw (fun_ext (λ m. is_complete-check_line l m t)) (ground (arith, won-mark_line l t i k))

-- After `fetch_winner` a square has the winning flag exactly when it had it before or lies on a
-- complete line.
pub won-fetch_winner :
    (t : Ttt) (i k : Ix)
    → (at (fetch_winner t).board i k).won ≡ ((at t.board i k).won || is_winning t.board i k)
unfolding is_winning
won-fetch_winner t i k = rw (fetch_winner-check_all t) (won-check_all lines t i k)
