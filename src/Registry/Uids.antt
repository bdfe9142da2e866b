-- ===== src/Registry/Uids.antt =====
-- The numbers of the games in the list: each game has three of its own, in the order of the list.
use native.Mathlib.Nat.{le_refl}
use tintemp_plus_plus.Base.{
  ℕ, ◌≤◌, ◌<◌, ◌≡◌, ◌≢◌, refl, ◌==◌, some, List, [], ◌∷◌, ◌++◌, arith, Bool-cases, Option-cases,
  ◌⊎◌, inl, inr,
}
use tintemp_plus_plus.Text.{Text}
use tintemp_plus_plus.Dpp.{Dpp}
use tintemp_plus_plus.ConfirmButton.{Compiler, yes_id, no_id}
use tintemp_plus_plus.Registry.{Entry, Bot, new_entry, push_onto_list, erase}

abbrev pub uid_of : Entry → ℕ
uid_of e = e.first.uid

abbrev pub yes_of : Entry → Text
yes_of e = e.second.btn_id.0

abbrev pub no_of : Entry → Text
no_of e = e.second.btn_id.1

-- The three numbers of a game lie above `lo` and up to `hi`, and its buttons show two of them.
pub record Between (lo : ℕ) (e : Entry) (hi : ℕ) : Type 0 where
  pub uid_low : lo < uid_of e
  pub uid_high : uid_of e ≤ hi
  pub yes_low : lo < e.second.id.0
  pub yes_high : e.second.id.0 ≤ hi
  pub no_low : lo < e.second.id.1
  pub no_high : e.second.id.1 ≤ hi
  pub yes_button : yes_of e ≡ yes_id e.second.id.0
  pub no_button : no_of e ≡ no_id e.second.id.1

-- Wider bounds.
pub Between-wider :
    (lo lo' : ℕ) (e : Entry) (hi hi' : ℕ)
    → lo' ≤ lo
    → hi ≤ hi'
    → Between lo e hi
    → Between lo' e hi'
Between-wider lo lo' e hi hi' low high b = record {
  uid_low = omega (arith, b.uid_low);
  uid_high = omega (arith, b.uid_high);
  yes_low = omega (arith, b.yes_low);
  yes_high = omega (arith, b.yes_high);
  no_low = omega (arith, b.no_low);
  no_high = omega (arith, b.no_high);
  yes_button = b.yes_button;
  no_button = b.no_button;
}

-- The games have their numbers one after another, above `lo` and up to `hi`.
abbrev pub Numbered : ℕ → List Entry → ℕ → Type 0
Numbered lo [] hi = lo ≤ hi
Numbered lo (e ∷ es) hi = (mid : ℕ) × Between lo e mid × Numbered mid es hi

pub Numbered-le : (lo : ℕ) (es : List Entry) (hi : ℕ) → Numbered lo es hi → lo ≤ hi
Numbered-le lo [] hi h = h
Numbered-le lo (e ∷ es) hi (mid, b, h) =
    omega (arith, Numbered-le mid es hi h, b.uid_low, b.uid_high)

pub Numbered-mono :
    (lo : ℕ) (es : List Entry) (hi hi' : ℕ) → hi ≤ hi' → Numbered lo es hi → Numbered lo es hi'
Numbered-mono lo [] hi hi' le h = omega arith
Numbered-mono lo (e ∷ es) hi hi' le (mid, b, h) = (mid, b, Numbered-mono mid es hi hi' le h)

Numbered-append :
    (lo : ℕ) (es : List Entry) (mid : ℕ) (e : Entry) (hi : ℕ)
    → Numbered lo es mid
    → Between mid e hi
    → Numbered lo (es ++ e ∷ []) hi
Numbered-append lo [] mid e hi h b = (hi, Between-wider mid lo e hi hi h (le_refl hi) b, le_refl hi)
Numbered-append lo (x ∷ es) mid e hi (m, bx, h) b = (m, bx, Numbered-append m es mid e hi h b)

-- A game with its numbers and buttons as they were.
pub record SameNumbers (a b : Entry) : Type 0 where
  pub same_uid : uid_of b ≡ uid_of a
  pub same_id : b.second.id ≡ a.second.id
  pub same_btn_id : b.second.btn_id ≡ a.second.btn_id

abbrev pub SameList : List Entry → List Entry → Type 0
SameList [] [] = Unit {0}
SameList [] (f ∷ fs) = ⊥
SameList (e ∷ es) [] = ⊥
SameList (e ∷ es) (f ∷ fs) = SameNumbers e f × SameList es fs

pub SameNumbers-refl : (e : Entry) → SameNumbers e e
SameNumbers-refl e = record { same_uid = refl; same_id = refl; same_btn_id = refl }

pub SameList-refl : (es : List Entry) → SameList es es
SameList-refl [] = tt
SameList-refl (e ∷ es) = (SameNumbers-refl e, SameList-refl es)

Between-same : (lo : ℕ) (e f : Entry) (hi : ℕ) → SameNumbers e f → Between lo e hi → Between lo f hi
Between-same lo e f hi s b = record {
  uid_low = rw s.same_uid b.uid_low;
  uid_high = rw s.same_uid b.uid_high;
  yes_low = rw s.same_id b.yes_low;
  yes_high = rw s.same_id b.yes_high;
  no_low = rw s.same_id b.no_low;
  no_high = rw s.same_id b.no_high;
  yes_button = rw (s.same_btn_id, s.same_id) b.yes_button;
  no_button = rw (s.same_btn_id, s.same_id) b.no_button;
}

pub Numbered-same :
    (lo : ℕ) (es fs : List Entry) (hi : ℕ) → SameList es fs → Numbered lo es hi → Numbered lo fs hi
Numbered-same lo [] [] hi s h = h
Numbered-same lo [] (f ∷ fs) hi s h = absurd s
Numbered-same lo (e ∷ es) [] hi s h = absurd s
Numbered-same lo (e ∷ es) (f ∷ fs) hi s (mid, b, h) =
    (mid, Between-same lo e f mid s.0 b, Numbered-same mid es fs hi s.1 h)

Numbered-lower :
    (lo lo' : ℕ) (es : List Entry) (hi : ℕ) → lo' ≤ lo → Numbered lo es hi → Numbered lo' es hi
Numbered-lower lo lo' [] hi le h = omega arith
Numbered-lower lo lo' (e ∷ es) hi le (mid, b, h) =
    (mid, Between-wider lo lo' e mid mid le (le_refl mid) b, h)

pub erase_cases :
    (uid : ℕ) (x : Entry) (es fs : List Entry)
    → erase uid (x ∷ es) ≡ some fs
    → ((uid_of x ≡ uid) × (fs ≡ es))
      ⊎ ((rest : List Entry) × (uid_of x ≢ uid) × (erase uid es ≡ some rest) × (fs ≡ x ∷ rest))
unfolding erase
erase_cases uid x es fs e = elim (Bool-cases (uid_of x == uid)) [
  | inl found ↦ inl (ground arith, ground arith)
  | inr other ↦ elim (Option-cases (erase uid es)) [
    | inl gone ↦ absurd (ground arith)
    | inr (rest, left) ↦ inr (rest, ground arith, left, ground arith)
  ]
]

-- Erasing a game keeps the numbers of the others.
pub Numbered-erase :
    (uid lo : ℕ) (es fs : List Entry) (hi : ℕ)
    → erase uid es ≡ some fs
    → Numbered lo es hi
    → Numbered lo fs hi
unfolding erase
Numbered-erase uid lo [] fs hi e h = cc
Numbered-erase uid lo (x ∷ es) fs hi e (mid, b, h) = elim (erase_cases uid x es fs e) [
  | inl (_, same) ↦ rw same (Numbered-lower mid lo es hi (omega (arith, b.uid_low, b.uid_high)) h)
  | inr (rest, _, left, same) ↦ rw same (mid, b, Numbered-erase uid mid es rest hi left h)
]

module _ ⦃d : Dpp⦄ where
  pub new_entry-Between :
      (c : Compiler) (p1 p2 n : ℕ) → Between n (new_entry c p1 p2 n).0 (new_entry c p1 p2 n).1
  unfolding new_entry
  new_entry-Between c p1 p2 n = elim (Bool-cases c.left_first) [
    | inl e ↦ rw e (record {
      uid_low = omega arith;
      uid_high = omega arith;
      yes_low = omega arith;
      yes_high = omega arith;
      no_low = omega arith;
      no_high = omega arith;
      yes_button = refl;
      no_button = refl;
    })
    | inr e ↦ rw e (record {
      uid_low = omega arith;
      uid_high = omega arith;
      yes_low = omega arith;
      yes_high = omega arith;
      no_low = omega arith;
      no_high = omega arith;
      yes_button = refl;
      no_button = refl;
    })
  ]

  -- A new game gets numbers above all that were handed out.
  pub push_onto_list-Numbered :
      (c : Compiler) (p1 p2 lo : ℕ) (s : Bot)
      → Numbered lo s.ttt_list_g s.next_id
      → Numbered lo (push_onto_list c p1 p2 s).1.ttt_list_g (push_onto_list c p1 p2 s).1.next_id
  unfolding push_onto_list
  push_onto_list-Numbered c p1 p2 lo s h =
      Numbered-append lo s.ttt_list_g s.next_id _ _ h (new_entry-Between c p1 p2 s.next_id)
