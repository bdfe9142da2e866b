-- ===== src/Bot/Raises.antt =====
-- By how much the rounds of a loop raise the counter of `UniqueID`.
use tintemp_plus_plus.Base.{ℕ, ◌≤◌, ◌+◌, none, some, List, arith}
use tintemp_plus_plus.Registry.{Entry}
use tintemp_plus_plus.Bot.{Call, Visit, goes_on, returns, undefined, Loop, resume, add_calls}

-- A round that starts with the counter at `n` leaves it at `n + k` or below.
abbrev pub VisitRaises : ℕ → ℕ → Visit → Type 0
VisitRaises k n (goes_on e m cs) = m ≤ n + k
VisitRaises k n (returns e m cs) = m ≤ n + k
VisitRaises k n undefined = Unit {0}

abbrev pub LoopRaises : ℕ → ℕ → Loop → Type 0
LoopRaises k n none = Unit {0}
LoopRaises k n (some (es, m, cs)) = m ≤ n + k

pub add_calls-Raises :
    (cs : List Call) (k n : ℕ) (v : Visit) → VisitRaises k n v → VisitRaises k n (add_calls cs v)
unfolding add_calls
add_calls-Raises cs k n (goes_on e m ds) h = h
add_calls-Raises cs k n (returns e m ds) h = h
add_calls-Raises cs k n undefined h = h

-- What a round does after it starts later.
pub later-Raises : (k n m : ℕ) (v : Visit) → m ≤ n + k → VisitRaises 0 m v → VisitRaises k n v
later-Raises k n m (goes_on e l cs) le h = omega arith
later-Raises k n m (returns e l cs) le h = omega arith
later-Raises k n m undefined le h = h

pub resume-Raises :
    (j k n : ℕ) (v : Visit) (es : List Entry) (rest : ℕ → Loop)
    → VisitRaises j n v
    → ((m : ℕ) → LoopRaises k m (rest m))
    → LoopRaises (j + k) n (resume v es rest)
unfolding resume
resume-Raises j k n (goes_on e m cs) es rest le h = later e m cs (rest m) le (h m)
  where
    later :
        (e : Entry) (m : ℕ) (cs : List Call) (l : Loop)
        → m ≤ n + j
        → LoopRaises k m l
        → LoopRaises (j + k) n (resume (goes_on e m cs) es (λ _. l))
    later e m cs none le h = tt
    later e m cs (some (fs, l, ds)) le h = omega arith
resume-Raises j k n (returns e m cs) es rest le h = omega arith
resume-Raises j k n undefined es rest le h = tt
