-- ===== src/Bot/Keeps.antt =====
-- Loops over the list whose rounds keep the numbers of the games.
use tintemp_plus_plus.Base.{
  ℕ, ◌≤◌, ◌≡◌, Option, none, some, List, [], ◌∷◌, map, arith, ◌==◌, Bool-cases, Option-cases, inl,
  inr,
}
use tintemp_plus_plus.Dpp.{Message}
use tintemp_plus_plus.Ttt
use tintemp_plus_plus.Registry.{Entry, modify_at, set_entry_origin}
use tintemp_plus_plus.Registry.Uids.{SameNumbers, SameList, SameNumbers-refl, SameList-refl, uid_of}
use tintemp_plus_plus.Bot.{Call, Visit, goes_on, returns, undefined, Loop, resume, add_calls}

abbrev pub VisitKeeps : Entry → ℕ → Visit → Type 0
VisitKeeps e n (goes_on e' n' cs) = SameNumbers e e' × (n ≤ n')
VisitKeeps e n (returns e' n' cs) = SameNumbers e e' × (n ≤ n')
VisitKeeps e n undefined = Unit {0}

abbrev pub LoopKeeps : List Entry → ℕ → Loop → Type 0
LoopKeeps es n none = Unit {0}
LoopKeeps es n (some (es', n', cs)) = SameList es es' × (n ≤ n')

pub add_calls-Keeps :
    (cs : List Call) (e : Entry) (n : ℕ) (v : Visit)
    → VisitKeeps e n v
    → VisitKeeps e n (add_calls cs v)
unfolding add_calls
add_calls-Keeps cs e n (goes_on e' n' ds) h = h
add_calls-Keeps cs e n (returns e' n' ds) h = h
add_calls-Keeps cs e n undefined h = h

prepend-Keeps :
    (e e' : Entry) (es : List Entry) (n m : ℕ) (cs : List Call) (l : Loop)
    → SameNumbers e e'
    → n ≤ m
    → LoopKeeps es m l
    → LoopKeeps (e ∷ es) n (resume (goes_on e' m cs) es (λ _. l))
unfolding resume
prepend-Keeps e e' es n m cs none s le h = tt
prepend-Keeps e e' es n m cs (some (es', n', ds)) s le h = ((s, h.0), omega (arith, h.1))

pub resume-Keeps :
    (e : Entry) (n : ℕ) (v : Visit) (es : List Entry) (rest : ℕ → Loop)
    → VisitKeeps e n v
    → ((m : ℕ) → LoopKeeps es m (rest m))
    → LoopKeeps (e ∷ es) n (resume v es rest)
unfolding resume
resume-Keeps e n (goes_on e' n' cs) es rest (s, le) h =
    prepend-Keeps e e' es n n' cs (rest n') s le (h n')
resume-Keeps e n (returns e' n' cs) es rest (s, le) h = ((s, SameList-refl es), le)
resume-Keeps e n undefined es rest k h = tt

-- A change through an iterator.
pub modify_at-SameList :
    (uid : ℕ) (f : Entry → Option Entry) (es fs : List Entry)
    → ((e e' : Entry) → uid_of e ≡ uid → f e ≡ some e' → SameNumbers e e')
    → modify_at uid f es ≡ some fs
    → SameList es fs
unfolding modify_at
modify_at-SameList uid f [] fs keep h = cc
modify_at-SameList uid f (e ∷ es) fs keep h = elim (Bool-cases (uid_of e == uid)) [
  | inl found ↦ elim (Option-cases (f e)) [
    | inl fault ↦ absurd (ground arith)
    | inr (e', ok') ↦
        let same : fs ≡ e' ∷ es = ground arith in
        rw same (keep e e' (ground arith) ok', SameList-refl es)
  ]
  | inr other ↦ elim (Option-cases (modify_at uid f es)) [
    | inl fault ↦ absurd (ground arith)
    | inr (rest, ok') ↦
        let same : fs ≡ e ∷ rest = ground arith in
        rw same (SameNumbers-refl e, modify_at-SameList uid f es rest keep ok')
  ]
]

set_entry_origin-SameNumbers :
    (m : Message) (id : ℕ) (e : Entry) → SameNumbers e (set_entry_origin m id e)
unfolding set_entry_origin Ttt.set_origin
set_entry_origin-SameNumbers m id e = ground arith

pub set_origin-SameList :
    (m : Message) (id : ℕ) (es : List Entry) → SameList es (map (set_entry_origin m id) es)
set_origin-SameList m id [] = tt
set_origin-SameList m id (e ∷ es) =
    (set_entry_origin-SameNumbers m id e, set_origin-SameList m id es)
