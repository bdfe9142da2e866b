-- ===== src/Interaction/Squares.antt =====
-- The two loops over the squares, for a board whose squares have ids of their own.
use tintemp_plus_plus.Base.{
  ℕ, ◌≡◌, ◌≢◌, refl, sym, ap, ◌∙◌, true, false, ◌==◌, List, [], ◌∷◌, any, arith, if◌then◌else◌,
  Bool-cases, inl, inr,
}
use tintemp_plus_plus.Text.{Text, text_eq}
use tintemp_plus_plus.Text.Append.{text_eq_iff, text_eq→eq}
use tintemp_plus_plus.Dpp.{Dpp}
use tintemp_plus_plus.Board.{Pair, Ix, i0, i1, i2, Board, at, update, set_status, status_at, idle}
use tintemp_plus_plus.Board.Ids.{DistinctIds}
use tintemp_plus_plus.Board.Access.{at-update_self, at-update_keep}
use tintemp_plus_plus.Winner.Flags.{is_square}
use tintemp_plus_plus.Interaction.{
  Press, already_taken, edited_square, press_square, press_row, press_board,
}

abbrev Squares : Type 0
Squares = List (Ix × Ix)

-- A press with no effect yet.
abbrev unpressed : Board → Press
unpressed b = record { board = b; is_interrupted = false; calls = [] }

is_square→false : (i k j l : Ix) → is_square (i, k) j l ≡ false → (i ≡ j) × (k ≡ l) → ⊥
is_square→false i k j l h e = ground arith

module _ ⦃d : Dpp⦄ (custom_id : Text) (mark : ℕ) where
  press_all : Squares → Press → Press
  press_all [] p = p
  press_all ((i, k) ∷ ss) p = press_all ss (press_square custom_id mark i k p)

  -- A square with another id is passed over.
  miss :
      (i k : Ix) (p : Press)
      → text_eq custom_id (at p.board i k).id ≡ false
      → press_square custom_id mark i k p ≡ p
  unfolding press_square
  miss i k p h = rw h

  module _ (b : Board) (distinct : DistinctIds b) (i k : Ix)
      (here : custom_id ≡ (at b i k).id) where
    other_id : (j l : Ix) → is_square (i, k) j l ≡ false → text_eq custom_id (at b j l).id ≡ false
    other_id j l h = elim (Bool-cases (text_eq custom_id (at b j l).id)) [
      | inl same ↦
          absurd
            (is_square→false i k j l h (distinct i k j l (sym here ∙ text_eq→eq custom_id _ same)))
      | inr differs ↦ differs
    ]

    miss_all :
        (ss : Squares) (p : Press)
        → ((j l : Ix) → (at p.board j l).id ≡ (at b j l).id)
        → any (λ s. is_square (i, k) s.0 s.1) ss ≡ false
        → press_all ss p ≡ p
    unfolding press_all
    miss_all [] p ids h = refl
    miss_all ((j, l) ∷ ss) p ids h =
        ap (press_all ss) (miss j l p (rw (ids j l) (other_id j l (ground arith))))
        ∙ miss_all ss p ids (ground arith)

    -- What the press does at its square.
    hit : Press
    hit = press_square custom_id mark i k (unpressed b)

    -- A free square gets the mark, a click on a taken one is answered.
    abbrev effect : Press
    effect =
        if status_at b i k == idle
        then record {
          board = update b i k (set_status mark);
          is_interrupted = false;
          calls = edited_square mark ∷ [];
        }
        else record { board = b; is_interrupted = true; calls = already_taken ∷ [] }

    hit-effect : hit ≡ effect
    unfolding hit press_square
    hit-effect =
        let marked : (at (update b i k (set_status mark)) i k).status ≡ mark =
          ap (λ (x : Pair). x.status) (at-update_self b i k (set_status mark)) in
        rw ((text_eq_iff custom_id (at b i k).id).1 here)
          (elim (Bool-cases (status_at b i k == idle)) [
            | inl free ↦ rw (free, marked)
            | inr taken ↦ rw taken
          ])

    id-hit : (j l : Ix) → (at hit.board j l).id ≡ (at b j l).id
    id-hit j l = rw hit-effect (elim (Bool-cases (status_at b i k == idle)) [
      | inl free ↦ rw free (at-update_keep (λ x. x.id) (set_status mark) b i k j l (λ x. refl))
      | inr taken ↦ rw taken
    ])

    -- The squares before and after it are passed over.
    around :
        (before after : Squares)
        → any (λ s. is_square (i, k) s.0 s.1) before ≡ false
        → any (λ s. is_square (i, k) s.0 s.1) after ≡ false
        → press_all after (press_square custom_id mark i k (press_all before (unpressed b)))
          ≡ effect
    unfolding hit
    around before after p q =
        ap (λ x. press_all after (press_square custom_id mark i k x))
          (miss_all before (unpressed b) (λ j l. refl) p)
        ∙ miss_all after hit id-hit q
        ∙ hit-effect

  -- A press passes over a board with no such id.
  no_square :
      (ss : Squares) (p : Press)
      → ((j l : Ix) → text_eq custom_id (at p.board j l).id ≡ false)
      → press_all ss p ≡ p
  unfolding press_all
  no_square [] p h = refl
  no_square ((j, l) ∷ ss) p h = ap (press_all ss) (miss j l p (h j l)) ∙ no_square ss p h

abbrev s00 : Ix × Ix
s00 = (i0, i0)

abbrev s01 : Ix × Ix
s01 = (i0, i1)

abbrev s02 : Ix × Ix
s02 = (i0, i2)

abbrev s10 : Ix × Ix
s10 = (i1, i0)

abbrev s11 : Ix × Ix
s11 = (i1, i1)

abbrev s12 : Ix × Ix
s12 = (i1, i2)

abbrev s20 : Ix × Ix
s20 = (i2, i0)

abbrev s21 : Ix × Ix
s21 = (i2, i1)

abbrev s22 : Ix × Ix
s22 = (i2, i2)

module _ ⦃d : Dpp⦄ where
  -- On a board whose squares have ids of their own, a click with the id of a square changes that square
  -- only: a free one gets the mark, and a taken one is answered and interrupts the turn.
  pub press_board_square :
      (mark : ℕ) (b : Board) (i k : Ix)
      → DistinctIds b
      → press_board (at b i k).id mark b ≡ (
          if status_at b i k == idle
          then record {
            board = update b i k (set_status mark);
            is_interrupted = false;
            calls = edited_square mark ∷ [];
          }
          else record { board = b; is_interrupted = true; calls = already_taken ∷ [] })
  unfolding press_board press_row press_all
  press_board_square mark b i0 i0 u =
      around _ mark b u i0 i0 refl ([]) (s01 ∷ s02 ∷ s10 ∷ s11 ∷ s12 ∷ s20 ∷ s21 ∷ s22 ∷ []) refl
        refl
  press_board_square mark b i0 i1 u =
      around _ mark b u i0 i1 refl (s00 ∷ []) (s02 ∷ s10 ∷ s11 ∷ s12 ∷ s20 ∷ s21 ∷ s22 ∷ []) refl
        refl
  press_board_square mark b i0 i2 u =
      around _ mark b u i0 i2 refl (s00 ∷ s01 ∷ []) (s10 ∷ s11 ∷ s12 ∷ s20 ∷ s21 ∷ s22 ∷ []) refl
        refl
  press_board_square mark b i1 i0 u =
      around _ mark b u i1 i0 refl (s00 ∷ s01 ∷ s02 ∷ []) (s11 ∷ s12 ∷ s20 ∷ s21 ∷ s22 ∷ []) refl
        refl
  press_board_square mark b i1 i1 u =
      around _ mark b u i1 i1 refl (s00 ∷ s01 ∷ s02 ∷ s10 ∷ []) (s12 ∷ s20 ∷ s21 ∷ s22 ∷ []) refl
        refl
  press_board_square mark b i1 i2 u =
      around _ mark b u i1 i2 refl (s00 ∷ s01 ∷ s02 ∷ s10 ∷ s11 ∷ []) (s20 ∷ s21 ∷ s22 ∷ []) refl
        refl
  press_board_square mark b i2 i0 u =
      around _ mark b u i2 i0 refl (s00 ∷ s01 ∷ s02 ∷ s10 ∷ s11 ∷ s12 ∷ []) (s21 ∷ s22 ∷ []) refl
        refl
  press_board_square mark b i2 i1 u =
      around _ mark b u i2 i1 refl (s00 ∷ s01 ∷ s02 ∷ s10 ∷ s11 ∷ s12 ∷ s20 ∷ []) (s22 ∷ []) refl
        refl
  press_board_square mark b i2 i2 u =
      around _ mark b u i2 i2 refl (s00 ∷ s01 ∷ s02 ∷ s10 ∷ s11 ∷ s12 ∷ s20 ∷ s21 ∷ []) ([]) refl
        refl

  -- A click with the id of no square changes nothing.
  pub press_board_elsewhere :
      (custom_id : Text) (mark : ℕ) (b : Board)
      → ((j l : Ix) → custom_id ≢ (at b j l).id)
      → press_board custom_id mark b ≡ record { board = b; is_interrupted = false; calls = [] }
  unfolding press_board press_row press_all
  press_board_elsewhere custom_id mark b h =
      no_square custom_id mark (s00 ∷ s01 ∷ s02 ∷ s10 ∷ s11 ∷ s12 ∷ s20 ∷ s21 ∷ s22 ∷ [])
        (unpressed b) differs
    where
      differs : (j l : Ix) → text_eq custom_id (at b j l).id ≡ false
      differs j l = elim (Bool-cases (text_eq custom_id (at b j l).id)) [
        | inl same ↦ absurd (h j l (text_eq→eq custom_id _ same))
        | inr other ↦ other
      ]
