-- ===== src/Registry/Origin.antt =====
-- `set_origin`: the first message of a game is stored once.
use tintemp_plus_plus.Base.{
  ℕ, ◌≡◌, ◌≢◌, refl, ap, true, false, ◌==◌, if◌then◌else◌, some, List, [], ◌∷◌, map, arith,
  Bool-cases, inl, inr,
}
use mathlib.Core.Option
use tintemp_plus_plus.Dpp.{Message}
use tintemp_plus_plus.Ttt
use tintemp_plus_plus.Registry.{Entry, Bot, set_entry_origin, set_origin, find}
use tintemp_plus_plus.Registry.Uids.{uid_of}

uid-set_entry_origin :
    (m : Message) (id : ℕ) (e : Entry) → uid_of (set_entry_origin m id e) ≡ uid_of e
unfolding set_entry_origin Ttt.set_origin
uid-set_entry_origin m id e = ground arith

entry_kept :
    (m : Message) (id : ℕ) (e : Entry) → e.first.have_origin ≡ true → set_entry_origin m id e ≡ e
unfolding set_entry_origin
entry_kept m id e stored = ground (arith, stored)

entry_other :
    (m : Message) (id : ℕ) (e : Entry) → (id == uid_of e) ≡ false → set_entry_origin m id e ≡ e
unfolding set_entry_origin
entry_other m id e other = rw other refl

-- The game with the id has a first message afterwards.
entry_has :
    (m : Message) (id : ℕ) (e : Entry)
    → (id == uid_of e) ≡ true
    → (set_entry_origin m id e).first.have_origin ≡ true
unfolding set_entry_origin Ttt.set_origin
entry_has m id e mine = elim (Bool-cases e.first.have_origin) [
  | inl stored ↦ rw (mine, stored) refl
  | inr new ↦ rw (mine, new) refl
]

entry_twice :
    (m m' : Message) (id : ℕ) (e : Entry)
    → set_entry_origin m' id (set_entry_origin m id e) ≡ set_entry_origin m id e
entry_twice m m' id e = elim (Bool-cases (id == uid_of e)) [
  | inl mine ↦ entry_kept m' id _ (entry_has m id e mine)
  | inr other ↦ rw (entry_other m id e other) (entry_other m' id e other)
]

list_twice :
    (m m' : Message) (id : ℕ) (es : List Entry)
    → map (set_entry_origin m' id) (map (set_entry_origin m id) es) ≡ map (set_entry_origin m id) es
list_twice m m' id [] = refl
list_twice m m' id (e ∷ es) = rw (entry_twice m m' id e, list_twice m m' id es) refl

find_other :
    (m : Message) (id other : ℕ) (es : List Entry)
    → other ≢ id
    → find other (map (set_entry_origin m id) es) ≡ find other es
unfolding find
find_other m id other [] differ = refl
find_other m id other (e ∷ es) differ = elim (Bool-cases (id == uid_of e)) [
  | inl mine ↦
      let there : (uid_of e == other) ≡ false = ground arith in
      rw (uid-set_entry_origin m id e, there) (find_other m id other es differ)
  | inr elsewhere ↦ rw (entry_other m id e elsewhere, find_other m id other es differ) refl
]

-- The game with its first message, the one that it had or else the new one.
abbrev pub with_origin : Message → Entry → Entry
with_origin m e = record e {
  first = record (e.first) {
    origin = if e.first.have_origin then e.first.origin else m;
    have_origin = true;
  };
}

entry_stored :
    (m : Message) (id : ℕ) (e : Entry)
    → (id == uid_of e) ≡ true
    → set_entry_origin m id e ≡ with_origin m e
unfolding set_entry_origin Ttt.set_origin
entry_stored m id e mine = elim (Bool-cases e.first.have_origin) [
  | inl stored ↦ rw (mine, stored) refl
  | inr new ↦ rw (mine, new) refl
]

find_stored :
    (m : Message) (id : ℕ) (es : List Entry)
    → find id (map (set_entry_origin m id) es) ≡ Option.map (with_origin m) (find id es)
unfolding find
find_stored m id [] = refl
find_stored m id (x ∷ es) = elim (Bool-cases (uid_of x == id)) [
  | inl here ↦
      let mine : (id == uid_of x) ≡ true = ground (arith, here) in
      let here' : (uid_of (set_entry_origin m id x) == id) ≡ true =
        ground (arith, uid-set_entry_origin m id x, here) in
      rw (here', here) (ap some (entry_stored m id x mine))
  | inr there ↦ rw (uid-set_entry_origin m id x, there) (find_stored m id es)
]

-- After `set_origin` the game with the id, if one is listed, is found with a first message, which
-- is the one that it had or else the new one, and otherwise as before; a game with another id is
-- found as before; and a second call with the same id changes nothing.
pub set_origin_once :
    (m m' : Message) (id other : ℕ) (s : Bot)
    → other ≢ id
    → (find id (set_origin m id s).ttt_list_g ≡ Option.map (with_origin m) (find id s.ttt_list_g))
      × (find other (set_origin m id s).ttt_list_g ≡ find other s.ttt_list_g)
      × (set_origin m' id (set_origin m id s) ≡ set_origin m id s)
unfolding set_origin
set_origin_once m m' id other s differ = (
  find_stored m id s.ttt_list_g,
  find_other m id other s.ttt_list_g differ,
  ap (λ (l : List Entry). record s { ttt_list_g = l }) (list_twice m m' id s.ttt_list_g),
)
