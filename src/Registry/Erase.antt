-- ===== src/Registry/Erase.antt =====
-- A game that is put at the end of the list, then found there and erased.
use tintemp_plus_plus.Base.{ℕ, ◌≡◌, ◌<◌, refl, false, ◌==◌, some, List, [], ◌∷◌, ◌++◌, arith}
use tintemp_plus_plus.Dpp.{Dpp}
use tintemp_plus_plus.ConfirmButton.{Compiler}
use tintemp_plus_plus.Registry.{
  Entry, Bot, erase, find, new_entry, push_onto_list, erase_one_from_list,
}
use tintemp_plus_plus.Registry.Uids.{uid_of, Numbered, Numbered-le, new_entry-Between}

-- A game with a number above those of the list is not taken for one of them.
other_uid :
    (lo : ℕ) (x : Entry) (es : List Entry) (hi : ℕ) (e : Entry)
    → Numbered lo (x ∷ es) hi
    → hi < uid_of e
    → (uid_of x == uid_of e) ≡ false
other_uid lo x es hi e (mid, b, h) new = ground (arith, b.uid_high, Numbered-le mid es hi h)

erase-append :
    (lo : ℕ) (es : List Entry) (hi : ℕ) (e : Entry)
    → Numbered lo es hi
    → hi < uid_of e
    → erase (uid_of e) (es ++ e ∷ []) ≡ some es
unfolding erase
erase-append lo [] hi e h new = ground arith
erase-append lo (x ∷ es) hi e h new =
    rw (other_uid lo x es hi e h new, erase-append h.0 es hi e h.2 new) refl

find-append :
    (lo : ℕ) (es : List Entry) (hi : ℕ) (e : Entry)
    → Numbered lo es hi
    → hi < uid_of e
    → find (uid_of e) (es ++ e ∷ []) ≡ some e
unfolding find
find-append lo [] hi e h new = ground arith
find-append lo (x ∷ es) hi e h new =
    rw (other_uid lo x es hi e h new) (find-append h.0 es hi e h.2 new)

module _ ⦃d : Dpp⦄ where
  -- In a list whose games have numbers of their own, the game that `push_onto_list` returns is the
  -- one found in the list by its uid, and `erase_one_from_list` at it gives the list from before.
  pub push_onto_list_undone :
      (c : Compiler) (p1 p2 lo : ℕ) (s : Bot)
      → Numbered lo s.ttt_list_g s.next_id
      → (find (uid_of (push_onto_list c p1 p2 s).0) (push_onto_list c p1 p2 s).1.ttt_list_g
          ≡ some (push_onto_list c p1 p2 s).0)
        × (erase_one_from_list (uid_of (push_onto_list c p1 p2 s).0) (push_onto_list c p1 p2 s).1
            ≡ some (record (push_onto_list c p1 p2 s).1 { ttt_list_g = s.ttt_list_g }))
  unfolding push_onto_list erase_one_from_list
  push_onto_list_undone c p1 p2 lo s h =
      let b = new_entry-Between c p1 p2 s.next_id in
      let e = (new_entry c p1 p2 s.next_id).0 in
      (
        find-append lo s.ttt_list_g s.next_id e h b.uid_low,
        rw (erase-append lo s.ttt_list_g s.next_id e h b.uid_low, erase_one_from_list),
      )
