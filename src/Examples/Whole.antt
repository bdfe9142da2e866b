-- ===== src/Examples/Whole.antt =====
-- A whole game, between players who take the first free square.
use Prim.{⊥}
use tintemp_plus_plus.Base.{
  false, Bool-cases, ==_iff, ℕ, ◌≡◌, ◌⊎◌, refl, ◌==◌, if◌then◌else◌, some, [], arith, inl, inr,
}
use tintemp_plus_plus.Dpp.Plain.{plain}
use tintemp_plus_plus.Board.{Ix, i0, i1, i2, Board, status_at, idle}
use tintemp_plus_plus.Registry.{Entry}
use tintemp_plus_plus.Registry.Uids.{yes_of, no_of}
use tintemp_plus_plus.Confirm.Starts.{two_clicks}
use tintemp_plus_plus.Interaction.Ends.{PicksFree, Over, rounds, rounds_end}
use tintemp_plus_plus.Life.Whole.{accepted_game_ends}
use tintemp_plus_plus.Examples.{alice, bob, answer, posted_entry, first_entry}
use tintemp_plus_plus.Examples.Bots.{posted_entry-IsFresh, unanswered, plays_first}
use tintemp_plus_plus.Examples.Games.{after_four, four_moves, four_Plays}

abbrev first_free_of : Board → Ix → Ix × Ix → Ix × Ix
first_free_of b i other =
    if status_at b i i0 == idle
    then (i, i0)
    else if status_at b i i1 == idle
    then (i, i1)
    else if status_at b i i2 == idle
    then (i, i2)
    else other

FreeAt : Board → Ix × Ix → Type 0
FreeAt b m = status_at b m.0 m.1 ≡ idle

-- A row gives a free square where it has one, or the other square where that is free.
row_free :
    (b : Board) (i : Ix) (other : Ix × Ix)
    → ((k : Ix) × (status_at b i k ≡ idle)) ⊎ FreeAt b other
    → FreeAt b (first_free_of b i other)
unfolding FreeAt
row_free b i other some_free = elim (Bool-cases (status_at b i i0 == idle)) [
  | inl e ↦ rw e ((==_iff (status_at b i i0) idle).0 e)
  | inr a0 ↦ rw a0 (elim (Bool-cases (status_at b i i1 == idle)) [
    | inl e ↦ rw e ((==_iff (status_at b i i1) idle).0 e)
    | inr a1 ↦ rw a1 (elim (Bool-cases (status_at b i i2 == idle)) [
      | inl e ↦ rw e ((==_iff (status_at b i i2) idle).0 e)
      | inr a2 ↦ rw a2 (elim some_free [ inl (k, e) ↦ absurd (taken k e a0 a1 a2) | inr e ↦ e ])
    ])
  ])
]
  where
    taken :
        (k : Ix)
        → status_at b i k ≡ idle
        → (status_at b i i0 == idle) ≡ false
        → (status_at b i i1 == idle) ≡ false
        → (status_at b i i2 == idle) ≡ false
        → ⊥
    taken i0 e a0 a1 a2 = ground arith
    taken i1 e a0 a1 a2 = ground arith
    taken i2 e a0 a1 a2 = ground arith

first_free : Board → Ix × Ix
first_free b = first_free_of b i0 (first_free_of b i1 (first_free_of b i2 (i0, i0)))

first_free-PicksFree : PicksFree first_free
unfolding first_free FreeAt
first_free-PicksFree b i0 k free = row_free b i0 _ (inl (k, free))
first_free-PicksFree b i1 k free = row_free b i0 _ (inr (row_free b i1 _ (inl (k, free))))
first_free-PicksFree b i2 k free =
    row_free b i0 _ (inr (row_free b i1 _ (inr (row_free b i2 _ (inl (k, free))))))

rounds_end_example :
    Over (rounds (answer alice []) first_free 5 (record first_entry { first = after_four })).first
rounds_end_example =
    rounds_end (answer alice []) first_free first_free-PicksFree 5
      (record first_entry { first = after_four }) four_moves four_Plays (omega arith)

accepted_game_ends_example :
    (f : Entry) × (m : ℕ) × (two_clicks
        (answer alice (no_of posted_entry))
        (answer bob (yes_of posted_entry))
        posted_entry
        3
      ≡ some (f, m))
    × Over (rounds (answer alice []) first_free 9 f).first
accepted_game_ends_example =
    accepted_game_ends (answer alice (no_of posted_entry)) (answer bob (yes_of posted_entry))
      (answer alice []) first_free posted_entry 3 1 unanswered posted_entry-IsFresh (inl refl)
      plays_first.0 plays_first.1 (inr refl) refl first_free-PicksFree
