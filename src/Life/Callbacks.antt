-- ===== src/Life/Callbacks.antt =====
-- The callbacks change each game of the list only as its life allows.
use tintemp_plus_plus.Base.{ℕ, ◌≡◌, sym, subst, some, List, All, arith, Option-cases, inl, inr}
use tintemp_plus_plus.Dpp.{Dpp, Message, Embed}
use tintemp_plus_plus.Ttt.{set_origin_embed}
use tintemp_plus_plus.Registry.{
  Entry, Bot, erase, erase_one_from_list, set_origin, set_entry_origin, modify_at, find,
}
use tintemp_plus_plus.Bot.{
  Call, Callback, log_only, no_callback, origin_deployed, confirm_replied, original_response,
  turn_replied, result_deployed,
}
use tintemp_plus_plus.Bot.Lines.{state-with_lines}
use tintemp_plus_plus.Callbacks.{
  Completion, is_error, value, complete, act, logs, store_response, with_list, no_calls,
  result_embed, ended_embed, announce, turn_done,
}
use tintemp_plus_plus.Life.{Life, edited, posted, stored}
use tintemp_plus_plus.Life.Rounds.{
  uid-find, find-All, modify_at-found, modify_at-All, erase-All, map-All,
}

module _ ⦃d : Dpp⦄ where
  abbrev pub Lives : Bot → Type 0
  Lives s = All Life s.ttt_list_g

  stored-Lives :
      (m : Message) (uid : ℕ) (s s' : Bot) (cs : List Call)
      → Lives s
      → no_calls (with_list s (modify_at uid (λ e. some (store_response m e)) s.ttt_list_g))
        ≡ some (s', cs)
      → Lives s'
  unfolding with_list no_calls
  stored-Lives m uid s s' cs i h =
      elim (Option-cases (modify_at uid (λ e. some (store_response m e)) s.ttt_list_g)) [
        | inl fault ↦ absurd (ground arith)
        | inr (es, done) ↦
            let same : s' ≡ record s { ttt_list_g = es } = ground arith in
            rw same (
              modify_at-All Life uid _ _ es
                (λ e e' l k. let eq : e' ≡ store_response m e = ground arith in rw eq (stored m l))
                done i)
      ]

  announce-Lives :
      (s s' : Bot) (e : Entry) (channel : ℕ) (embed : Embed) (cs : List Call)
      → find e.first.uid s.ttt_list_g ≡ some e
      → Lives s
      → announce s e channel embed ≡ some (s', cs)
      → Lives s'
  unfolding announce with_list
  announce-Lives s s' e channel embed cs found i h =
      elim (Option-cases (set_origin_embed e.first (ended_embed e.first))) [
        | inl fault ↦ absurd (ground arith)
        | inr (t, done) ↦
            elim (Option-cases
              (modify_at e.first.uid (λ x. some (record x { first = t })) s.ttt_list_g)) [
                | inl fault ↦ absurd (ground arith)
                | inr (es, changed) ↦
                    let same : s' ≡ record s { ttt_list_g = es } = ground arith in
                    rw same (
                      modify_at-found Life e.first.uid _ _ es e found
                        (λ e' k.
                          let eq : e' ≡ record e { first = t } = ground arith in
                          rw eq (
                            edited (ended_embed e.first) t
                              (find-All Life e.first.uid s.ttt_list_g e found i) done))
                        changed i)
              ]
      ]

  turn_done-Lives :
      (uid usr channel : ℕ) (s s' : Bot) (cs : List Call)
      → Lives s
      → turn_done uid usr channel s ≡ some (s', cs)
      → Lives s'
  unfolding turn_done
  turn_done-Lives uid usr channel s s' cs i h = elim (Option-cases (find uid s.ttt_list_g)) [
    | inl fault ↦ absurd (ground arith)
    | inr (e, found) ↦ elim (Option-cases (result_embed e.first.result usr)) [
      | inl on ↦ let same : s' ≡ s = ground arith in rw same i
      | inr (embed, over) ↦
          announce-Lives s s' e channel embed cs
            (subst (λ (u : ℕ). find u s.ttt_list_g ≡ some e)
              (sym (uid-find uid s.ttt_list_g e found)) found)
            i (ground arith)
    ]
  ]

  act-KeepsLives :
      (cb : Callback) (how : Completion) (s s' : Bot) (cs : List Call)
      → Lives s
      → act cb how s ≡ some (s', cs)
      → Lives s'
  unfolding act set_origin erase_one_from_list no_calls
  act-KeepsLives (log_only w) how s s' cs i e = let same : s' ≡ s = ground arith in rw same i
  act-KeepsLives no_callback how s s' cs i e = let same : s' ≡ s = ground arith in rw same i
  act-KeepsLives (origin_deployed id) (is_error err) s s' cs i e =
      let same : s' ≡ s = ground arith in rw same i
  act-KeepsLives (origin_deployed id) (value m) s s' cs i e =
      let same : s' ≡ set_origin m id s = ground arith in
      rw same (map-All Life (set_entry_origin m id) s.ttt_list_g (λ x l. posted m id l) i)
  act-KeepsLives (confirm_replied uid) how s s' cs i e =
      let same : s' ≡ s = ground arith in rw same i
  act-KeepsLives (original_response uid) (is_error err) s s' cs i e =
      let same : s' ≡ s = ground arith in rw same i
  act-KeepsLives (original_response uid) (value m) s s' cs i e = stored-Lives m uid s s' cs i e
  act-KeepsLives (turn_replied uid usr channel) (is_error err) s s' cs i e =
      let same : s' ≡ s = ground arith in rw same i
  act-KeepsLives (turn_replied uid usr channel) (value m) s s' cs i e =
      turn_done-Lives uid usr channel s s' cs i e
  act-KeepsLives (result_deployed uid) (is_error err) s s' cs i e =
      let same : s' ≡ s = ground arith in rw same i
  act-KeepsLives (result_deployed uid) (value m) s s' cs i e =
      elim (Option-cases (erase uid s.ttt_list_g)) [
        | inl fault ↦ absurd (ground arith)
        | inr (fs, done) ↦
            let same : s' ≡ record s { ttt_list_g = fs } = ground arith in
            rw same (erase-All Life uid s.ttt_list_g fs done i)
      ]

  pub complete-KeepsLives :
      (cb : Callback) (how : Completion) (s s' : Bot) (cs : List Call)
      → complete cb how s ≡ some (s', cs)
      → Lives s
      → Lives s'
  unfolding complete
  complete-KeepsLives cb how s s' cs e i =
      let (ds, done) = state-with_lines (logs cb how s) (act cb how s) s' cs e in
      act-KeepsLives cb how s s' ds i done
