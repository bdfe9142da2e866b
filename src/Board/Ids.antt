-- ===== src/Board/Ids.antt =====
-- The button ids of new boards: no two squares share one, on one board or on two.
use tintemp_plus_plus.Base.{ℕ, suc, ◌+◌, ◌*◌, ◌≡◌, refl, ap, ◌∙◌, sym, ◌∷◌, ◌++◌, arith}
use tintemp_plus_plus.Text.{Text, codes, to_string}
use tintemp_plus_plus.Text.Decimal.{to_string-injective}
use tintemp_plus_plus.Dpp.{Dpp}
use tintemp_plus_plus.Board.{Ix, i0, i1, i2, at, pair_id, init_board, Board}

abbrev pub index : Ix → ℕ
index i0 = 0
index i1 = 1
index i2 = 2

pub index-injective : (i j : Ix) → index i ≡ index j → i ≡ j
index-injective i0 i0 h = refl
index-injective i0 i1 h = absurd (omega arith)
index-injective i0 i2 h = absurd (omega arith)
index-injective i1 i0 h = absurd (omega arith)
index-injective i1 i1 h = refl
index-injective i1 i2 h = absurd (omega arith)
index-injective i2 i0 h = absurd (omega arith)
index-injective i2 i1 h = absurd (omega arith)
index-injective i2 i2 h = refl

-- The id of a square of the board that is made when the counter stands at `n`.
abbrev pub square_id : ℕ → Ix → Ix → Text
square_id n i k =
    codes "p_"
    ++ (b'0' + index i) ∷ b'0' ∷ (b'0' + index k) ∷ codes "_"
    ++ to_string (suc (n + index i * 3 + index k))

square_id-injective :
    (m n : ℕ) (i k j l : Ix) → square_id m i k ≡ square_id n j l → (m ≡ n) × (i ≡ j) × (k ≡ l)
square_id-injective m n i k j l e =
    (omega (arith, number, ap index row, ap index column), row, column)
  where
    row : i ≡ j
    row = index-injective i j (let h : b'0' + index i ≡ b'0' + index j = cc in omega arith)

    column : k ≡ l
    column = index-injective k l (let h : b'0' + index k ≡ b'0' + index l = cc in omega arith)

    number : suc (m + index i * 3 + index k) ≡ suc (n + index j * 3 + index l)
    number = to_string-injective _ _ (cc)

-- No two squares of the board have the same id.
abbrev pub DistinctIds : Board → Type 0
DistinctIds b = (i k j l : Ix) → (at b i k).id ≡ (at b j l).id → (i ≡ j) × (k ≡ l)

module _ ⦃d : Dpp⦄ where
  pub id-init_board : (n : ℕ) (i k : Ix) → (at (init_board n).0 i k).id ≡ square_id n i k
  unfolding init_board pair_id
  id-init_board n i0 i0 = grind (arith, d.format_int_lem)
  id-init_board n i0 i1 = grind (arith, d.format_int_lem)
  id-init_board n i0 i2 = grind (arith, d.format_int_lem)
  id-init_board n i1 i0 = grind (arith, d.format_int_lem)
  id-init_board n i1 i1 = grind (arith, d.format_int_lem)
  id-init_board n i1 i2 = grind (arith, d.format_int_lem)
  id-init_board n i2 i0 = grind (arith, d.format_int_lem)
  id-init_board n i2 i1 = grind (arith, d.format_int_lem)
  id-init_board n i2 i2 = grind (arith, d.format_int_lem)

  -- Two squares of new boards have the same id only if the boards were made at the same number of
  -- the counter and the squares have the same place.
  pub init_board-injective :
      (m n : ℕ) (i k j l : Ix)
      → (at (init_board m).0 i k).id ≡ (at (init_board n).0 j l).id
      → (m ≡ n) × (i ≡ j) × (k ≡ l)
  init_board-injective m n i k j l e =
      square_id-injective m n i k j l (sym (id-init_board m i k) ∙ e ∙ id-init_board n j l)

  pub init_board-DistinctIds : (n : ℕ) → DistinctIds (init_board n).0
  init_board-DistinctIds n i k j l e =
      let (_, row, column) = init_board-injective n n i k j l e in (row, column)
