-- ===== src/Bot/Defined.antt =====
-- Loops over the list that do not run into undefined behaviour.
use tintemp_plus_plus.Base.{ℕ, ◌≢◌, refl, none, List, arith}
use tintemp_plus_plus.Registry.{Entry}
use tintemp_plus_plus.Bot.{Visit, goes_on, returns, undefined, Loop, resume}

pub resume-defined :
    (v : Visit) (es : List Entry) (rest : ℕ → Loop)
    → v ≢ undefined
    → ((m : ℕ) → rest m ≢ none)
    → resume v es rest ≢ none
unfolding resume
resume-defined (goes_on e n cs) es rest ok' h = λ fault. ground (arith, h n)
resume-defined (returns e n cs) es rest ok' h = λ fault. cc
resume-defined undefined es rest ok' h = absurd (ok' refl)
