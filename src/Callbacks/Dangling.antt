-- ===== src/Callbacks/Dangling.antt =====
-- The callbacks that hold an iterator of `ttt_list_g`, when its game is in the list and when not.
use tintemp_plus_plus.Base.{
  ℕ, ◌≡◌, ◌↔◌, refl, sym, subst, ◌==◌, Option, Option-cases, none, some, List, [], ◌∷◌, All, arith,
  Bool-cases, inl, inr,
}
use tintemp_plus_plus.Dpp.{Dpp, Message}
use tintemp_plus_plus.Registry.{Entry, Bot, erase, erase_one_from_list, find, modify_at}
use tintemp_plus_plus.Life.Rounds.{uid-find, find-All}
use tintemp_plus_plus.Bot.{
  Callback, log_only, no_callback, origin_deployed, confirm_replied, original_response,
  turn_replied, result_deployed,
}
use tintemp_plus_plus.Bot.Lines.{with_lines-none}
use tintemp_plus_plus.Callbacks.{
  Completion, is_error, value, complete, act, logs, no_calls, with_list, store_response, turn_done,
  result_embed,
}
use tintemp_plus_plus.Commands.Defined.{HasEmbed}
use tintemp_plus_plus.Callbacks.Announced.{announce_lem}
use tintemp_plus_plus.Callbacks.Removed.{erase-none}

-- The game whose iterator the lambda captures and dereferences, or erases through.
abbrev pub iterator_of : Callback → Option ℕ
iterator_of (log_only w) = none
iterator_of no_callback = none
iterator_of (origin_deployed id) = none
iterator_of (confirm_replied uid) = none
iterator_of (original_response uid) = some uid
iterator_of (turn_replied uid usr channel) = some uid
iterator_of (result_deployed uid) = some uid

-- The call has succeeded, and the game of the iterator has left the list.
pub record Dangles (cb : Callback) (c : Completion) (s : Bot) : Type 0 where
  pub uid : ℕ
  pub m : Message
  pub held : iterator_of cb ≡ some uid
  pub succeeds : c ≡ value m
  pub gone : find uid s.ttt_list_g ≡ none

modify_at-none :
    (uid : ℕ) (f : Entry → Option Entry) (es : List Entry)
    → find uid es ≡ none
    → modify_at uid f es ≡ none
unfolding find modify_at
modify_at-none uid f [] h = refl
modify_at-none uid f (x ∷ es) h = elim (Bool-cases (x.first.uid == uid)) [
  | inl here ↦ cc (h, here)
  | inr there ↦ rw (there, modify_at-none uid f es (rw there at h))
]

modify_at-defined :
    (uid : ℕ) (f : Entry → Entry) (es : List Entry)
    → modify_at uid (λ e. some (f e)) es ≡ none
    → find uid es ≡ none
unfolding find modify_at
modify_at-defined uid f [] h = refl
modify_at-defined uid f (x ∷ es) h = elim (Bool-cases (x.first.uid == uid)) [
  | inl here ↦ cc (h, here)
  | inr there ↦ elim (Option-cases (modify_at uid (λ e. some (f e)) es)) [
    | inl fault ↦ rw there (modify_at-defined uid f es fault)
    | inr (fs, done) ↦ absurd (ground (arith, h, there, done))
  ]
]

erase-defined : (uid : ℕ) (es : List Entry) → erase uid es ≡ none → find uid es ≡ none
unfolding find erase
erase-defined uid [] h = refl
erase-defined uid (x ∷ es) h = elim (Bool-cases (x.first.uid == uid)) [
  | inl here ↦ cc (h, here)
  | inr there ↦ elim (Option-cases (erase uid es)) [
    | inl fault ↦ rw there (erase-defined uid es fault)
    | inr (fs, done) ↦ absurd (ground (arith, h, there, done))
  ]
]

module _ ⦃d : Dpp⦄ where
  turn_done-none :
      (uid usr channel : ℕ) (s : Bot)
      → find uid s.ttt_list_g ≡ none
      → turn_done uid usr channel s ≡ none
  unfolding turn_done
  turn_done-none uid usr channel s h = rw (h, turn_done)

  turn_done-defined :
      (uid usr channel : ℕ) (s : Bot)
      → All HasEmbed s.ttt_list_g
      → turn_done uid usr channel s ≡ none
      → find uid s.ttt_list_g ≡ none
  unfolding turn_done
  turn_done-defined uid usr channel s embeds h = elim (Option-cases (find uid s.ttt_list_g)) [
    | inl gone ↦ gone
    | inr (e, found) ↦ absurd (elim (Option-cases (result_embed e.first.result usr)) [
      | inl on ↦ ground arith
      | inr (embed, over) ↦
          let here =
            subst (λ (u : ℕ). find u s.ttt_list_g ≡ some e)
              (sym (uid-find uid s.ttt_list_g e found)) found in
          let (fs, done, facts) =
            announce_lem s e channel embed here
              (find-All HasEmbed uid s.ttt_list_g e found embeds) in
          ground arith
    ])
  ]

  Dangles-act : (cb : Callback) (c : Completion) (s : Bot) → Dangles cb c s → act cb c s ≡ none
  unfolding act erase_one_from_list no_calls with_list
  Dangles-act (log_only w) c s h = absurd (ground (arith, h.held))
  Dangles-act no_callback c s h = absurd (ground (arith, h.held))
  Dangles-act (origin_deployed id) c s h = absurd (ground (arith, h.held))
  Dangles-act (confirm_replied uid) c s h = absurd (ground (arith, h.held))
  Dangles-act (original_response uid) (is_error err) s h = absurd (ground (arith, h.succeeds))
  Dangles-act (turn_replied uid usr channel) (is_error err) s h =
      absurd (ground (arith, h.succeeds))
  Dangles-act (result_deployed uid) (is_error err) s h = absurd (ground (arith, h.succeeds))
  Dangles-act (original_response uid) (value m) s h =
      let gone : find uid s.ttt_list_g ≡ none = ground (arith, h.held, h.gone) in
      rw (modify_at-none uid (λ e. some (store_response m e)) s.ttt_list_g gone, act)
  Dangles-act (turn_replied uid usr channel) (value m) s h =
      turn_done-none uid usr channel s (ground (arith, h.held, h.gone))
  Dangles-act (result_deployed uid) (value m) s h =
      let gone : find uid s.ttt_list_g ≡ none = ground (arith, h.held, h.gone) in
      rw (erase-none uid s.ttt_list_g gone, act, erase_one_from_list)

  act-Dangles :
      (cb : Callback) (c : Completion) (s : Bot)
      → All HasEmbed s.ttt_list_g
      → act cb c s ≡ none
      → Dangles cb c s
  unfolding act erase_one_from_list no_calls with_list
  act-Dangles (log_only w) c s embeds h = absurd (ground arith)
  act-Dangles no_callback c s embeds h = absurd (ground arith)
  act-Dangles (origin_deployed id) (is_error err) s embeds h = absurd (ground arith)
  act-Dangles (origin_deployed id) (value m) s embeds h = absurd (ground arith)
  act-Dangles (confirm_replied uid) c s embeds h = absurd (ground arith)
  act-Dangles (original_response uid) (is_error err) s embeds h = absurd (ground arith)
  act-Dangles (turn_replied uid usr channel) (is_error err) s embeds h = absurd (ground arith)
  act-Dangles (result_deployed uid) (is_error err) s embeds h = absurd (ground arith)
  act-Dangles (original_response uid) (value m) s embeds h = record {
    uid = uid;
    m = m;
    held = refl;
    succeeds = refl;
    gone =
        modify_at-defined uid (store_response m) s.ttt_list_g
          (elim (Option-cases (modify_at uid (λ e. some (store_response m e)) s.ttt_list_g)) [
            | inl fault ↦ fault
            | inr (fs, done) ↦ absurd (ground arith)
          ]);
  }
  act-Dangles (turn_replied uid usr channel) (value m) s embeds h = record {
    uid = uid;
    m = m;
    held = refl;
    succeeds = refl;
    gone = turn_done-defined uid usr channel s embeds h;
  }
  act-Dangles (result_deployed uid) (value m) s embeds h = record {
    uid = uid;
    m = m;
    held = refl;
    succeeds = refl;
    gone = erase-defined uid s.ttt_list_g (elim (Option-cases (erase uid s.ttt_list_g)) [
      | inl fault ↦ fault
      | inr (fs, done) ↦ absurd (ground arith)
    ]);
  }

  -- If the first message of every game in the list has an embed, the callback of an ended call is
  -- undefined behaviour exactly when the call has succeeded and the callback holds the iterator of
  -- a game that is not in the list.
  pub complete_undefined_iff :
      (cb : Callback) (c : Completion) (s : Bot)
      → All HasEmbed s.ttt_list_g
      → (complete cb c s ≡ none) ↔ Dangles cb c s
  unfolding complete
  complete_undefined_iff cb c s embeds =
      let lines = with_lines-none (logs cb c s) (act cb c s) in
      (λ e. act-Dangles cb c s embeds (lines.0 e), λ h. lines.1 (Dangles-act cb c s h))
