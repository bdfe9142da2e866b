-- ===== src/Callbacks/Announced.antt =====
-- The callback of the reply to a turn: the result is announced when there is one.
use tintemp_plus_plus.Base.{
  ℕ, ◌≡◌, ◌≢◌, ◌⊎◌, refl, ◌==◌, ==_iff, Option, none, some, List, [], ◌∷◌, arith, Bool-cases, inl,
  inr,
}
use tintemp_plus_plus.Dpp.{Dpp, Message, Embed}
use tintemp_plus_plus.Ttt.{GameResult, in_progress, expired, won, draw}
use tintemp_plus_plus.Ttt.Embeds.{embedded, field-embedded, set_origin_embed_lem}
use tintemp_plus_plus.Registry.{Entry, Bot, find, modify_at}
use tintemp_plus_plus.Bot.{
  Call, log, logger_line, turn_replied, result_deployed, message_create, message_edit, log_only,
  end_shown,
}
use tintemp_plus_plus.Text.{codes}
use tintemp_plus_plus.Logger.{ll_comment}
use tintemp_plus_plus.Callbacks.{
  value, complete, act, logs, turn_done, announce, result_embed, ended_embed, result_message,
  with_list,
}

-- The list after a change of the game `uid` to `e'`.
pub record Modified (uid : ℕ) (es fs : List Entry) (e' : Entry) : Type 0 where
  changed : find uid fs ≡ some e'
  kept : (other : ℕ) → other ≢ uid → find other fs ≡ find other es

modify_at-find :
    (uid : ℕ) (f : Entry → Option Entry) (es : List Entry) (e e' : Entry)
    → find uid es ≡ some e
    → f e ≡ some e'
    → e'.first.uid ≡ uid
    → (fs : List Entry) × (modify_at uid f es ≡ some fs) × Modified uid es fs e'
unfolding find modify_at
modify_at-find uid f [] e e' found maps same = cc
modify_at-find uid f (x ∷ es) e e' found maps same = elim (Bool-cases (x.first.uid == uid)) [
  | inl here ↦
      let it : x ≡ e = ground (arith, rw here at found) in
      let mapped : f x ≡ some e' = rw it maps in
      (
        e' ∷ es,
        rw (here, mapped),
        record {
          changed = rw ((==_iff e'.first.uid uid).1 same);
          kept = λ other differ. ground (arith, (==_iff x.first.uid uid).0 here);
        },
      )
  | inr there ↦
      let (fs, done, facts) = modify_at-find uid f es e e' (rw there at found) maps same in
      (
        x ∷ fs,
        rw (there, done),
        record {
          changed = rw there facts.changed;
          kept = λ other differ. rw (facts.kept other differ);
        },
      )
]

-- The line of the callback on success.
abbrev pub replied_line : Call
replied_line = log (logger_line ll_comment (codes "successfull event.reply()!"))

module _ ⦃d : Dpp⦄ where
  pub announce_lem :
      (s : Bot) (e : Entry) (channel : ℕ) (embed : Embed)
      → find e.first.uid s.ttt_list_g ≡ some e
      → (some_embed : e.first.origin.embeds ≢ [])
      → (fs : List Entry) × (announce s e channel embed
          ≡ some (
            record s { ttt_list_g = fs },
            message_create (result_message e.first channel embed) (result_deployed e.first.uid)
                ∷ message_edit
                    (embedded e.first (ended_embed e.first) some_embed).origin
                    (log_only end_shown)
                ∷ [],
          ))
        × Modified e.first.uid s.ttt_list_g fs
            (record e { first = embedded e.first (ended_embed e.first) some_embed })
  unfolding announce with_list
  announce_lem s e channel embed found some_embed =
      let t = embedded e.first (ended_embed e.first) some_embed in
      let (fs, done, facts) =
        modify_at-find e.first.uid (λ (x : Entry). some (record x { first = t })) s.ttt_list_g e
          (record e { first = t }) found refl
          (field-embedded (λ u. u.uid) e.first (ended_embed e.first) some_embed (λ u o. refl)) in
      (
        fs,
        rw (set_origin_embed_lem e.first (ended_embed e.first) some_embed, done, announce),
        facts,
      )

  -- A result that is shown, or none.
  shown_or_not :
      (r : GameResult) (usr : ℕ)
      → (((r ≡ in_progress) ⊎ (r ≡ expired)) × (result_embed r usr ≡ none))
        ⊎ (((r ≡ won) ⊎ (r ≡ draw)) × (embed : Embed) × (result_embed r usr ≡ some embed))
  unfolding result_embed
  shown_or_not in_progress usr = inl (inl refl, refl)
  shown_or_not expired usr = inl (inr refl, refl)
  shown_or_not won usr = inr (inl refl, _, refl)
  shown_or_not draw usr = inr (inr refl, _, refl)

  -- When the reply to a turn has succeeded, and the game is in the list with an embed in its first
  -- message: the success is logged, and either the game is in progress or expired and nothing
  -- changes and nothing is sent, or it is won or a draw, the embed for the result is posted as a
  -- reply to the game, the first message is edited, the game keeps its result, and any other game
  -- is found as before.
  pub turn_replied_announces :
      (usr channel other : ℕ) (m : Message) (s : Bot) (e : Entry)
      → find e.first.uid s.ttt_list_g ≡ some e
      → e.first.origin.embeds ≢ []
      → other ≢ e.first.uid
      → let ended = complete (turn_replied e.first.uid usr channel) (value m) s in
        (((e.first.result ≡ in_progress) ⊎ (e.first.result ≡ expired))
          × (ended ≡ some (s, replied_line ∷ [])))
        ⊎ (((e.first.result ≡ won) ⊎ (e.first.result ≡ draw))
            × (t : Bot) × (e' : Entry) × (embed : Embed) × (ended
                ≡ some (
                  t,
                  replied_line
                      ∷ message_create
                          (result_message e.first channel embed)
                          (result_deployed e.first.uid)
                      ∷ message_edit e'.first.origin (log_only end_shown)
                      ∷ [],
                ))
            × (result_embed e.first.result usr ≡ some embed)
            × (find e.first.uid t.ttt_list_g ≡ some e')
            × (e'.first.result ≡ e.first.result)
            × (find other t.ttt_list_g ≡ find other s.ttt_list_g))
  unfolding complete act logs turn_done
  turn_replied_announces usr channel other m s e found some_embed differ =
      elim (shown_or_not e.first.result usr) [
        | inl (on, no_embed) ↦ inl (on, rw (found, no_embed, act, turn_done))
        | inr (over, embed, shows) ↦
            let (fs, done, facts) = announce_lem s e channel embed found some_embed in
            inr (
              over,
              record s { ttt_list_g = fs },
              _,
              embed,
              rw (found, shows, done, act, turn_done),
              shows,
              facts.changed,
              field-embedded (λ u. u.result) e.first (ended_embed e.first) some_embed (λ u o. refl),
              facts.kept other differ,
            )
      ]
