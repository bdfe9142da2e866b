-- ===== src/World/Invariant.antt =====
-- In every state that the bot can reach, the games have numbers and buttons of their own.
use tintemp_plus_plus.Base.{
  ℕ, ◌≡◌, ◌≤◌, ◌+◌, none, some, List, arith, Bool-cases, Option-cases, inl, inr, ◌⊎◌,
}
use tintemp_plus_plus.Text.{Text}
use tintemp_plus_plus.Dpp.{Dpp, ButtonClick}
use tintemp_plus_plus.ConfirmButton.{Compiler}
use tintemp_plus_plus.Registry.{
  Entry, Bot, new_entry, push_onto_list, erase, erase_one_from_list, set_origin,
}
use tintemp_plus_plus.Registry.Uids.{
  Numbered, Numbered-mono, Numbered-same, Numbered-erase, push_onto_list-Numbered,
}
use tintemp_plus_plus.Registry.Apart.{Numbered-AllApart, AllApart}
use tintemp_plus_plus.Bot.{
  Call, Callback, Loop, log_only, no_callback, origin_deployed, confirm_replied, original_response,
  turn_replied, result_deployed,
}
use tintemp_plus_plus.Bot.Keeps.{LoopKeeps, set_origin-SameList}
use tintemp_plus_plus.Confirm.{on_confirm_click}
use tintemp_plus_plus.Confirm
use tintemp_plus_plus.Confirm.Keeps as ConfirmKeeps
use tintemp_plus_plus.Interaction.{on_ttt_interaction}
use tintemp_plus_plus.Interaction
use tintemp_plus_plus.Interaction.Keeps as InteractionKeeps
use tintemp_plus_plus.Interaction.Raises as InteractionRaises
use tintemp_plus_plus.Confirm.Raises as ConfirmRaises
use tintemp_plus_plus.Bot.Raises.{LoopRaises}
use tintemp_plus_plus.Bot.Lines.{state-with_lines}
use tintemp_plus_plus.Commands.Relates.{on_message_create-Relates, on_button_click-Relates}
use tintemp_plus_plus.Callbacks.{Completion, is_error, value, complete, act, logs}
use tintemp_plus_plus.Callbacks.Keeps.{SameGames, store-SameGames, turn_done-SameGames}
use tintemp_plus_plus.World.{
  Step, message_arrives, button_clicked, call_ends, Reachable, starts, steps,
}

-- Each game of the list has its own numbers, at most the counter.
abbrev pub Inv : Bot → Type 0
Inv s = Numbered 0 s.ttt_list_g s.next_id

-- What a handler that takes `k` ids at most does: it keeps the invariant.
abbrev pub Goes : ℕ → Bot → Bot → Type 0
Goes k s t = Inv s → Inv t × (t.next_id ≤ s.next_id + k)

Goes-refl : (k : ℕ) (s : Bot) → Goes k s s
Goes-refl k s i = (i, omega arith)

Goes-trans : (j k : ℕ) (s t u : Bot) → Goes j s t → Goes k t u → Goes (j + k) s u
Goes-trans j k s t u f g i = let (it, a) = f i in let (iu, b) = g it in (iu, omega (arith, a, b))

loop-Inv :
    (s : Bot) (es : List Entry) (n : ℕ) (cs : List Call) (l : Loop)
    → LoopKeeps s.ttt_list_g s.next_id l
    → l ≡ some (es, n, cs)
    → Inv s
    → Numbered 0 es n
loop-Inv s es n cs none k e i = cc
loop-Inv s es n cs (some (fs, m, ds)) (same, le) e i =
    let list : es ≡ fs = ground arith in
    let counter : n ≡ m = ground arith in
    rw (list, counter) (Numbered-mono 0 fs s.next_id m le (Numbered-same 0 _ fs s.next_id same i))

loop-Raises :
    (k n m : ℕ) (es : List Entry) (cs : List Call) (l : Loop)
    → LoopRaises k n l
    → l ≡ some (es, m, cs)
    → m ≤ n + k
loop-Raises k n m es cs none h e = cc
loop-Raises k n m es cs (some (fs, l, ds)) h e = let counter : m ≡ l = ground arith in rw counter h

module _ ⦃d : Dpp⦄ where
  confirms-Goes :
      (click : ButtonClick) (s : Bot) (es : List Entry) (n : ℕ) (cs : List Call)
      → Confirm.visit_all click s.ttt_list_g s.next_id ≡ some (es, n, cs)
      → Goes 9 s (record { next_id = n; ttt_list_g = es })
  confirms-Goes click s es n cs done i = (
    loop-Inv s es n cs _ (ConfirmKeeps.visit_all-Keeps click s.ttt_list_g s.next_id) done i,
    loop-Raises 9 s.next_id n es cs _
        (ConfirmRaises.visit_all-Raises click s.ttt_list_g s.next_id
          (Numbered-AllApart 0 s.ttt_list_g s.next_id i))
        done,
  )

  plays-Goes :
      (click : ButtonClick) (s : Bot) (es : List Entry) (n : ℕ) (cs : List Call)
      → Interaction.visit_all click s.ttt_list_g s.next_id ≡ some (es, n, cs)
      → Goes 0 s (record { next_id = n; ttt_list_g = es })
  plays-Goes click s es n cs done i = (
    loop-Inv s es n cs _ (InteractionKeeps.visit_all-Keeps click s.ttt_list_g s.next_id) done i,
    loop-Raises 0 s.next_id n es cs _
        (InteractionRaises.visit_all-Raises click s.ttt_list_g s.next_id) done,
  )

  next-push :
      (c : Compiler) (p1 p2 : ℕ) (s : Bot) → (push_onto_list c p1 p2 s).1.next_id ≤ s.next_id + 3
  unfolding push_onto_list new_entry
  next-push c p1 p2 s = elim (Bool-cases c.left_first) [
    | inl first ↦ rw first (omega arith)
    | inr last ↦ rw last (omega arith)
  ]

  pushes-Goes : (c : Compiler) (p1 p2 : ℕ) (s : Bot) → Goes 3 s (push_onto_list c p1 p2 s).1
  pushes-Goes c p1 p2 s i = (push_onto_list-Numbered c p1 p2 0 s i, next-push c p1 p2 s)

  SameGames-Inv : (s s' : Bot) → SameGames s s' → Inv s → Inv s'
  SameGames-Inv s s' (same, counter) i =
      rw counter (Numbered-same 0 _ s'.ttt_list_g s.next_id same i)

  act-KeepsInv :
      (cb : Callback) (how : Completion) (s s' : Bot) (cs : List Call)
      → Inv s
      → act cb how s ≡ some (s', cs)
      → Inv s'
  unfolding act set_origin erase_one_from_list
  act-KeepsInv (log_only w) how s s' cs i e = let same : s' ≡ s = ground arith in rw same i
  act-KeepsInv no_callback how s s' cs i e = let same : s' ≡ s = ground arith in rw same i
  act-KeepsInv (origin_deployed id) (is_error err) s s' cs i e =
      let same : s' ≡ s = ground arith in rw same i
  act-KeepsInv (origin_deployed id) (value m) s s' cs i e =
      let same : s' ≡ set_origin m id s = ground arith in
      rw same (Numbered-same 0 _ _ s.next_id (set_origin-SameList m id s.ttt_list_g) i)
  act-KeepsInv (confirm_replied uid) how s s' cs i e = let same : s' ≡ s = ground arith in rw same i
  act-KeepsInv (original_response uid) (is_error err) s s' cs i e =
      let same : s' ≡ s = ground arith in rw same i
  act-KeepsInv (original_response uid) (value m) s s' cs i e =
      SameGames-Inv s s' (store-SameGames m uid s s' cs e) i
  act-KeepsInv (turn_replied uid usr channel) (is_error err) s s' cs i e =
      let same : s' ≡ s = ground arith in rw same i
  act-KeepsInv (turn_replied uid usr channel) (value m) s s' cs i e =
      SameGames-Inv s s' (turn_done-SameGames uid usr channel s s' cs e) i
  act-KeepsInv (result_deployed uid) (is_error err) s s' cs i e =
      let same : s' ≡ s = ground arith in rw same i
  act-KeepsInv (result_deployed uid) (value m) s s' cs i e =
      erased (Option-cases (erase uid s.ttt_list_g))
    where
      erased :
          (erase uid s.ttt_list_g ≡ none) ⊎ ((fs : List Entry) × (erase uid s.ttt_list_g ≡ some fs))
          → Inv s'
      erased (inl fault) = absurd (ground arith)
      erased (inr (fs, done)) =
          let same : s' ≡ record s { ttt_list_g = fs } = ground arith in
          rw same (Numbered-erase uid 0 _ fs s.next_id done i)

  -- The callbacks leave the counter as it is.
  next-act :
      (cb : Callback) (how : Completion) (s s' : Bot) (cs : List Call)
      → act cb how s ≡ some (s', cs)
      → s'.next_id ≡ s.next_id
  unfolding act set_origin erase_one_from_list
  next-act (log_only w) how s s' cs e = ground arith
  next-act no_callback how s s' cs e = ground arith
  next-act (origin_deployed id) (is_error err) s s' cs e = ground arith
  next-act (origin_deployed id) (value m) s s' cs e = ground arith
  next-act (confirm_replied uid) how s s' cs e = ground arith
  next-act (original_response uid) (is_error err) s s' cs e = ground arith
  next-act (original_response uid) (value m) s s' cs e = (store-SameGames m uid s s' cs e).1
  next-act (turn_replied uid usr channel) (is_error err) s s' cs e = ground arith
  next-act (turn_replied uid usr channel) (value m) s s' cs e =
      (turn_done-SameGames uid usr channel s s' cs e).1
  next-act (result_deployed uid) (is_error err) s s' cs e = ground arith
  next-act (result_deployed uid) (value m) s s' cs e =
      elim (Option-cases (erase uid s.ttt_list_g)) [
        | inl fault ↦ absurd (ground arith)
        | inr (fs, done) ↦ ground arith
      ]

  complete-Goes :
      (cb : Callback) (how : Completion) (s s' : Bot) (cs : List Call)
      → complete cb how s ≡ some (s', cs)
      → Goes 0 s s'
  unfolding complete
  complete-Goes cb how s s' cs e i =
      let (ds, done) = state-with_lines (logs cb how s) (act cb how s) s' cs e in
      (act-KeepsInv cb how s s' ds i done, omega (arith, next-act cb how s s' ds done))

  module _ (c : Compiler) (prefix : Text) where
    pub Step-Goes : {s t : Bot} {ws vs : List Callback} → Step c prefix s ws t vs → Goes 9 s t
    Step-Goes {s} {t} (message_arrives msg e) i =
        let (it, le) =
          on_message_create-Relates Goes Goes-refl Goes-trans c (λ p q u _. pushes-Goes c p q u)
            prefix msg s t _ e i in
        (it, omega (arith, le))
    Step-Goes {s} {t} (button_clicked click e) i =
        on_button_click-Relates Goes Goes-refl Goes-trans 9 0 click (confirms-Goes click)
          (plays-Goes click) s t _ e i
    Step-Goes {s} {t} (call_ends before after cb how e) i =
        let (it, le) = complete-Goes cb how s t _ e i in (it, omega (arith, le))

    pub Reachable-Inv : {s : Bot} {ws : List Callback} → Reachable c prefix s ws → Inv s
    Reachable-Inv starts = omega arith
    Reachable-Inv (steps r st) = (Step-Goes st (Reachable-Inv r)).0

-- Whatever messages, clicks and ends of calls arrive, in whatever order, no two games of the list
-- have the same uid or a confirmation button with the same id.
pub Reachable-AllApart :
    ⦃d : Dpp⦄ (c : Compiler) (prefix : Text) {s : Bot} {ws : List Callback}
    → Reachable c prefix s ws
    → AllApart s.ttt_list_g
Reachable-AllApart c prefix {s} r =
    Numbered-AllApart 0 s.ttt_list_g s.next_id (Reachable-Inv c prefix r)
