-- ===== src/Callbacks/Removed.antt =====
-- `erase_one_from_list(itr)` in the callback of the result message.
use tintemp_plus_plus.Base.{
  ℕ, ◌≡◌, ◌≢◌, ◌≤◌, refl, true, false, ◌==◌, none, some, List, [], ◌∷◌, arith, Bool-cases, inl, inr,
}
use tintemp_plus_plus.Dpp.{Dpp, Message}
use tintemp_plus_plus.Registry.{Entry, Bot, erase, erase_one_from_list, find}
use tintemp_plus_plus.Registry.Uids.{uid_of, Numbered}
use tintemp_plus_plus.Bot.{Call, log, bot_line, result_deployed}
use tintemp_plus_plus.Text.{codes}
use tintemp_plus_plus.Logger.{info}
use tintemp_plus_plus.Callbacks.{value, complete, act, logs, no_calls}

-- A number that is not above `lo` is not that of a game above it.
find_low :
    (uid lo : ℕ) (es : List Entry) (hi : ℕ) → Numbered lo es hi → uid ≤ lo → find uid es ≡ none
unfolding find
find_low uid lo [] hi h low = refl
find_low uid lo (e ∷ es) hi (mid, b, h) low =
    let differ : (uid_of e == uid) ≡ false = ground (arith, b.uid_low) in
    rw differ (find_low uid mid es hi h (omega (arith, b.uid_low, b.uid_high)))

not_other :
    (x : Entry) (uid other : ℕ)
    → (uid_of x == uid) ≡ true
    → other ≢ uid
    → (uid_of x == other) ≡ false
not_other x uid other here differ = ground arith

-- What `erase` leaves of a game that is in the list.
record Erased (uid : ℕ) (es fs : List Entry) : Type 0 where
  gone : find uid fs ≡ none
  kept : (other : ℕ) → other ≢ uid → find other fs ≡ find other es

erase-find :
    (uid lo : ℕ) (es : List Entry) (hi : ℕ) (e : Entry)
    → Numbered lo es hi
    → find uid es ≡ some e
    → (fs : List Entry) × (erase uid es ≡ some fs) × Erased uid es fs
unfolding find erase
erase-find uid lo [] hi e h found = cc
erase-find uid lo (x ∷ es) hi e (mid, b, h) found = elim (Bool-cases (uid_of x == uid)) [
  | inl here ↦ (
    es,
    rw here,
    record {
      gone = find_low uid mid es hi h (ground (arith, b.uid_high));
      kept = λ other differ. rw (not_other x uid other here differ);
    },
  )
  | inr there ↦
      let (fs, erased, facts) = erase-find uid mid es hi e h (rw there at found) in
      (
        x ∷ fs,
        rw (there, erased),
        record { gone = rw there facts.gone; kept = λ other differ. rw (facts.kept other differ) },
      )
]

pub erase-none : (uid : ℕ) (es : List Entry) → find uid es ≡ none → erase uid es ≡ none
unfolding find erase
erase-none uid [] h = refl
erase-none uid (x ∷ es) h = elim (Bool-cases (uid_of x == uid)) [
  | inl here ↦ cc (h, here)
  | inr there ↦ rw (there, erase-none uid es (rw there at h))
]

-- The line of the callback on success.
abbrev pub deployed_line : Call
deployed_line = log (bot_line info (codes "successfully deploy ttt result message"))

module _ ⦃d : Dpp⦄ where
  -- In a list whose games have numbers of their own and that holds the game with the number `uid`,
  -- the callback of the result message logs the success and removes that game, any other is found
  -- as before, and the same callback a second time erases through an iterator that points to no
  -- game, which is undefined.
  pub result_deployed_once :
      (uid other lo : ℕ) (m m' : Message) (s : Bot) (e : Entry)
      → Numbered lo s.ttt_list_g s.next_id
      → find uid s.ttt_list_g ≡ some e
      → other ≢ uid
      → (t : Bot) × (complete (result_deployed uid) (value m) s ≡ some (t, deployed_line ∷ []))
        × (find uid t.ttt_list_g ≡ none)
        × (find other t.ttt_list_g ≡ find other s.ttt_list_g)
        × (complete (result_deployed uid) (value m') t ≡ none)
  unfolding complete act logs erase_one_from_list no_calls
  result_deployed_once uid other lo m m' s e h found differ =
      let (fs, erased, facts) = erase-find uid lo s.ttt_list_g s.next_id e h found in
      (
        record s { ttt_list_g = fs },
        rw (erased, erase_one_from_list),
        facts.gone,
        facts.kept other differ,
        rw (erase-none uid fs facts.gone, erase_one_from_list),
      )
