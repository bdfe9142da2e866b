-- ===== src/Callbacks/Keeps.antt =====
-- The callbacks keep the numbers of the games, but for the one that erases a game.
use tintemp_plus_plus.Base.{ℕ, ◌≡◌, refl, sym, ◌∙◌, some, List, arith, Option-cases, inl, inr}
use tintemp_plus_plus.Dpp.{Dpp, Embed, Message}
use tintemp_plus_plus.Ttt.{set_origin_embed, set_game_origin}
use tintemp_plus_plus.ConfirmButton.{set_replied_msg}
use tintemp_plus_plus.Registry.{Entry, Bot, modify_at, find}
use tintemp_plus_plus.Registry.Uids.{SameNumbers, SameList, SameList-refl}
use tintemp_plus_plus.Confirm.Keeps.{uid-set_origin_embed}
use tintemp_plus_plus.Bot.{Call}
use tintemp_plus_plus.Bot.Keeps.{modify_at-SameList}
use tintemp_plus_plus.Callbacks.{
  store_response, with_list, no_calls, result_embed, ended_embed, announce, turn_done,
}

-- The bot with the same games.
abbrev pub SameGames : Bot → Bot → Type 0
SameGames s t = SameList s.ttt_list_g t.ttt_list_g × (t.next_id ≡ s.next_id)

store_response-SameNumbers : (m : Message) (e : Entry) → SameNumbers e (store_response m e)
unfolding store_response set_game_origin set_replied_msg
store_response-SameNumbers m e = record { same_uid = refl; same_id = refl; same_btn_id = refl }

pub store-SameGames :
    (m : Message) (uid : ℕ) (s s' : Bot) (cs : List Call)
    → no_calls (with_list s (modify_at uid (λ e. some (store_response m e)) s.ttt_list_g))
      ≡ some (s', cs)
    → SameGames s s'
unfolding with_list no_calls
store-SameGames m uid s s' cs h =
    elim (Option-cases (modify_at uid (λ e. some (store_response m e)) s.ttt_list_g)) [
      | inl fault ↦ absurd (ground arith)
      | inr (es, done) ↦
          let same : s' ≡ record s { ttt_list_g = es } = ground arith in
          rw same (
            modify_at-SameList uid _ _ es
                (λ e e' _ k.
                  let eq : e' ≡ store_response m e = ground arith in
                  rw eq (store_response-SameNumbers m e))
                done,
            refl,
          )
    ]

module _ ⦃d : Dpp⦄ where
  announce-SameGames :
      (s s' : Bot) (e : Entry) (channel : ℕ) (embed : Embed) (cs : List Call)
      → announce s e channel embed ≡ some (s', cs)
      → SameGames s s'
  unfolding announce
  announce-SameGames s s' e channel embed cs h =
      elim (Option-cases (set_origin_embed e.first (ended_embed e.first))) [
        | inl fault ↦ absurd (ground arith)
        | inr (t, marked) ↦
            elim (Option-cases
              (modify_at e.first.uid (λ x. some (record x { first = t })) s.ttt_list_g)) [
                | inl fault ↦ absurd (ground arith)
                | inr (es, done) ↦
                    let same : s' ≡ record s { ttt_list_g = es } = ground arith in
                    rw same (
                      modify_at-SameList e.first.uid _ _ es
                          (λ x x' at k.
                            let eq : x' ≡ record x { first = t } = ground arith in
                            rw eq (record {
                              same_uid = uid-set_origin_embed e.first t _ marked ∙ sym at;
                              same_id = refl;
                              same_btn_id = refl;
                            }))
                          done,
                      refl,
                    )
              ]
      ]

  pub turn_done-SameGames :
      (uid usr channel : ℕ) (s s' : Bot) (cs : List Call)
      → turn_done uid usr channel s ≡ some (s', cs)
      → SameGames s s'
  unfolding turn_done
  turn_done-SameGames uid usr channel s s' cs h = elim (Option-cases (find uid s.ttt_list_g)) [
    | inl fault ↦ absurd (ground arith)
    | inr (e, found) ↦ elim (Option-cases (result_embed e.first.result usr)) [
      | inl on ↦ let same : s' ≡ s = ground arith in rw same (SameList-refl _, refl)
      | inr (embed, over) ↦ announce-SameGames s s' e channel embed cs (ground arith)
    ]
  ]
