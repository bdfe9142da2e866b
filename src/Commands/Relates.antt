-- ===== src/Commands/Relates.antt =====
-- What every handler of an event does to the state of the bot, for a relation that composes: `R k s t`
-- is to hold of the state before and after a handler, with a number that adds up, such as a bound.
use tintemp_plus_plus.Base.{
  ℕ, ◌+◌, ◌≡◌, ◌≢◌, true, false, some, List, [], ◌∷◌, arith, ◌==◌, ◌++◌, Bool-cases, Option-cases,
  inl, inr,
}
use tintemp_plus_plus.Text.{Text, codes}
use tintemp_plus_plus.Logger.{info}
use tintemp_plus_plus.Dpp.{GuildMember, Dpp, ButtonClick, MessageCreate, User}
use tintemp_plus_plus.ConfirmButton.{Compiler}
use tintemp_plus_plus.Registry.{Entry, Bot, push_onto_list}
use tintemp_plus_plus.Bot.{Call, LogLine, bot_line, Loop, run_loop}
use tintemp_plus_plus.Bot.Lines.{state-with_lines}
use tintemp_plus_plus.Confirm.{on_confirm_click}
use tintemp_plus_plus.Confirm
use tintemp_plus_plus.Interaction.{on_ttt_interaction}
use tintemp_plus_plus.Interaction
use tintemp_plus_plus.Commands.{
  Handler, logged, command_pattern, then_handle, new_command, ping, tictactoe, tictactoe_with,
  on_message_create, on_button_click,
}
use tintemp_plus_plus.Regex.{regex_search}

module _ (R : ℕ → Bot → Bot → Type 0) where
  abbrev pub Relates : ℕ → Handler → Type 0
  Relates k f = (s s' : Bot) (cs : List Call) → f s ≡ some (s', cs) → R k s s'

  -- The state after a loop.
  pub run_loop-Relates :
      (k : ℕ) (text : Text) (loop : List Entry → ℕ → Loop)
      → ((s : Bot) (es : List Entry) (n : ℕ) (cs : List Call)
          → loop s.ttt_list_g s.next_id ≡ some (es, n, cs)
          → R k s (record { next_id = n; ttt_list_g = es }))
      → Relates k (run_loop text loop)
  unfolding run_loop
  run_loop-Relates k text loop rounds s s' cs e =
      elim (Option-cases (loop s.ttt_list_g s.next_id)) [
        | inl fault ↦ absurd (ground arith)
        | inr ((es, n, ds), done) ↦
            let same : s' ≡ record { next_id = n; ttt_list_g = es } = ground arith in
            rw same (rounds s es n ds done)
      ]

  logged-Relates : (k : ℕ) (l : LogLine) (f : Handler) → Relates k f → Relates k (logged l f)
  unfolding logged
  logged-Relates k l f h s s' cs e =
      let (ds, done) = state-with_lines (l ∷ []) (f s) s' cs e in h s s' ds done

  module _ (stays : (k : ℕ) (s : Bot) → R k s s)
      (chains : (j k : ℕ) (s t u : Bot) → R j s t → R k t u → R (j + k) s u) where
    then_handle-Relates :
        (j k : ℕ) (f g : Handler) → Relates j f → Relates k g → Relates (j + k) (then_handle f g)
    unfolding then_handle
    then_handle-Relates j k f g hf hg s s' cs e = elim (Option-cases (f s)) [
      | inl fault ↦ absurd (ground arith)
      | inr ((t, ds), first) ↦ elim (Option-cases (g t)) [
        | inl fault ↦ absurd (ground arith)
        | inr ((u, es), second) ↦
            let same : s' ≡ u = ground arith in
            rw same (chains j k s t u (hf s t ds first) (hg t u es second))
      ]
    ]

    new_command-Relates :
        (k : ℕ) (prefix name : Text) (msg : MessageCreate) (f : Handler)
        → Relates k f
        → Relates k (new_command prefix name msg f)
    unfolding new_command
    new_command-Relates k prefix name msg f h s s' cs e =
        elim (Option-cases (regex_search msg.msg.content (command_pattern prefix name))) [
          | inl unknown ↦ absurd (ground arith)
          | inr (true, found) ↦
              logged-Relates k (bot_line info (codes "command occured: " ++ name)) f h s s' cs
                (ground arith)
          | inr (false, other) ↦ let same : s' ≡ s = ground arith in rw same (stays k s)
        ]

    module _ ⦃d : Dpp⦄ where
      ping-Relates : (msg : MessageCreate) → Relates 0 (ping msg)
      unfolding ping
      ping-Relates msg s s' cs e = let same : s' ≡ s = ground arith in rw same (stays 0 s)

      module _ (c : Compiler)
          (pushes : (p1 p2 : ℕ) (s : Bot) → p1 ≢ p2 → R 3 s (push_onto_list c p1 p2 s).1) where
        tictactoe_with-Relates :
            (msg : MessageCreate) (us : List (User × GuildMember))
            → Relates 3 (tictactoe_with c msg us)
        unfolding tictactoe_with
        tictactoe_with-Relates msg [] s s' cs e =
            let same : s' ≡ s = ground arith in rw same (stays 3 s)
        tictactoe_with-Relates msg (u ∷ us) s s' cs e = elim (Bool-cases (d.users.is_bot u.0)) [
          | inl refused ↦ let same : s' ≡ s = ground arith in rw same (stays 3 s)
          | inr user ↦ elim (Bool-cases (u.0.id == msg.msg.author.id)) [
            | inl refused ↦ let same : s' ≡ s = ground arith in rw same (stays 3 s)
            | inr other ↦
                let same : s' ≡ (push_onto_list c msg.msg.author.id u.0.id s).1 = ground arith in
                let differ : msg.msg.author.id ≢ u.0.id = ground arith in
                rw same (pushes msg.msg.author.id u.0.id s differ)
          ]
        ]

        pub on_message_create-Relates :
            (prefix : Text) (msg : MessageCreate) → Relates 3 (on_message_create c prefix msg)
        unfolding on_message_create tictactoe
        on_message_create-Relates prefix msg =
            then_handle-Relates 0 3 _ _ (new_command-Relates 0 prefix _ msg _ (ping-Relates msg))
              (new_command-Relates 3 prefix _ msg _ (tictactoe_with-Relates msg msg.msg.mentions))

      -- A click, by what the two loops over the list do.
      pub on_button_click-Relates :
          (j k : ℕ) (click : ButtonClick)
          → ((s : Bot) (es : List Entry) (n : ℕ) (cs : List Call)
              → Confirm.visit_all click s.ttt_list_g s.next_id ≡ some (es, n, cs)
              → R j s (record { next_id = n; ttt_list_g = es }))
          → ((s : Bot) (es : List Entry) (n : ℕ) (cs : List Call)
              → Interaction.visit_all click s.ttt_list_g s.next_id ≡ some (es, n, cs)
              → R k s (record { next_id = n; ttt_list_g = es }))
          → Relates (j + k) (on_button_click click)
      unfolding on_button_click on_confirm_click on_ttt_interaction
      on_button_click-Relates j k click confirms plays = logged-Relates (j + k) _ _ (
          then_handle-Relates j k _ _ (run_loop-Relates j _ (Confirm.visit_all click) confirms)
            (run_loop-Relates k _ (Interaction.visit_all click) plays))
