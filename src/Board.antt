-- ===== src/Board.antt =====
-- The 3X3 board of tictactoe.hpp: `ttt::pair`, the array of rows of pairs, and its initial value.
pub mod Access
pub mod Ids
use tintemp_plus_plus.Base.{ℕ, Bool, true, false, List, [], ◌∷◌, ◌++◌}
use tintemp_plus_plus.Text.{Text, codes}
use tintemp_plus_plus.Dpp.{Dpp}
use tintemp_plus_plus.UniqueId.{new_id}

-- An index of `std::array<T, 3>`.
pub data Ix : Type 0 where
  i0 i1 i2 : Ix

pub record Array3 {ℓ} (A : Type ℓ) : Type ℓ where
  pub e0 : A
  pub e1 : A
  pub e2 : A

module _ {ℓ} {A : Type ℓ} where
  abbrev pub get : Array3 A → Ix → A
  get a i0 = a.e0
  get a i1 = a.e1
  get a i2 = a.e2

  abbrev pub modify : Array3 A → Ix → (A → A) → Array3 A
  modify a i0 f = record a { e0 = f a.e0 }
  modify a i1 f = record a { e1 = f a.e1 }
  modify a i2 f = record a { e2 = f a.e2 }

-- `pair::status_t`; the field itself is an `int`.
abbrev pub idle : ℕ
idle = 0

abbrev pub x_mark : ℕ
x_mark = 1

abbrev pub o_mark : ℕ
o_mark = 2

-- `ttt::pair`.
pub record Pair : Type 0 where
  pub id : Text
  pub status : ℕ
  pub won : Bool

-- `pair::get_id`.
abbrev pub get_id : Pair → Text
get_id p = p.id

-- `pair() = default`.
abbrev pub default_pair : Pair
default_pair = record { id = []; status = idle; won = false }

abbrev pub set_status : ℕ → Pair → Pair
set_status stats p = record p { status = stats }

abbrev pub Board : Type 0
Board = Array3 (Array3 Pair)

-- `board[i][k]`.
abbrev pub at : Board → Ix → Ix → Pair
at b i k = get (get b i) k

-- A write to `board[i][k]`.
abbrev pub update : Board → Ix → Ix → (Pair → Pair) → Board
update b i k f = modify b i (λ r. modify r k f)

abbrev pub status_at : Board → Ix → Ix → ℕ
status_at b i k = (at b i k).status

abbrev pub default_row : Array3 Pair
default_row = record { e0 = default_pair; e1 = default_pair; e2 = default_pair }

abbrev pub default_board : Board
default_board = record { e0 = default_row; e1 = default_row; e2 = default_row }

module _ ⦃d : Dpp⦄ where
  -- `fmt::format("p_{}_{}", pos, id)`.
  unfoldable pub pair_id : Text → ℕ → Text
  pair_id pos uid = codes "p_" ++ pos ++ codes "_" ++ d.format_int uid

  -- `pair(std::string pos)` with `pair::init`.
  unfoldable pub new_pair : Text → ℕ → Pair × ℕ
  unfolding new_id
  new_pair pos next_id =
      let (uid, next) = new_id next_id in (record default_pair { id = pair_id pos uid }, next)

  new_row : Text → Text → Text → ℕ → Array3 Pair × ℕ
  unfolding new_pair
  new_row p q r n =
      let (a, n1) = new_pair p n in
      let (b, n2) = new_pair q n1 in
      let (c, n3) = new_pair r n2 in (record { e0 = a; e1 = b; e2 = c }, n3)

  -- The board that `init_game` assigns, its pairs made from left to right.
  unfoldable pub init_board : ℕ → Board × ℕ
  unfolding new_row
  init_board n =
      let (a, n1) = new_row (codes "000") (codes "001") (codes "002") n in
      let (b, n2) = new_row (codes "100") (codes "101") (codes "102") n1 in
      let (c, n3) = new_row (codes "200") (codes "201") (codes "202") n2 in
      (record { e0 = a; e1 = b; e2 = c }, n3)
