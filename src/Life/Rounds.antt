-- ===== src/Life/Rounds.antt =====
-- Loops over the list and changes through an iterator, for a property of each game that they keep.
use tintemp_plus_plus.Base.{
  ℕ, ◌≡◌, subst, Option, none, some, List, [], ◌∷◌, ◌++◌, All, map, arith, ◌==◌, Bool-cases,
  Option-cases, inl, inr,
}
use tintemp_plus_plus.Registry.{Entry, modify_at, erase, find}
use tintemp_plus_plus.Bot.{Call, Visit, goes_on, returns, undefined, Loop, resume, add_calls}

module _ (P : Entry → Type 0) where
  abbrev pub VisitHas : Visit → Type 0
  VisitHas (goes_on e n cs) = P e
  VisitHas (returns e n cs) = P e
  VisitHas undefined = Unit {0}

  abbrev pub LoopHas : Loop → Type 0
  LoopHas none = Unit {0}
  LoopHas (some (es, n, cs)) = All P es

  pub add_calls-VisitHas : (cs : List Call) (v : Visit) → VisitHas v → VisitHas (add_calls cs v)
  unfolding add_calls
  add_calls-VisitHas cs (goes_on e n ds) h = h
  add_calls-VisitHas cs (returns e n ds) h = h
  add_calls-VisitHas cs undefined h = h

  prepend-LoopHas :
      (e : Entry) (m : ℕ) (cs : List Call) (es : List Entry) (l : Loop)
      → P e
      → LoopHas l
      → LoopHas (resume (goes_on e m cs) es (λ _. l))
  unfolding resume
  prepend-LoopHas e m cs es none p h = tt
  prepend-LoopHas e m cs es (some (fs, n, ds)) p h = (p, h)

  pub resume-LoopHas :
      (v : Visit) (es : List Entry) (rest : ℕ → Loop)
      → VisitHas v
      → All P es
      → ((m : ℕ) → LoopHas (rest m))
      → LoopHas (resume v es rest)
  unfolding resume
  resume-LoopHas (goes_on e n cs) es rest p ps h = prepend-LoopHas e n cs es (rest n) p (h n)
  resume-LoopHas (returns e n cs) es rest p ps h = (p, ps)
  resume-LoopHas undefined es rest p ps h = tt

  pub modify_at-All :
      (uid : ℕ) (f : Entry → Option Entry) (es fs : List Entry)
      → ((e e' : Entry) → P e → f e ≡ some e' → P e')
      → modify_at uid f es ≡ some fs
      → All P es
      → All P fs
  unfolding modify_at
  modify_at-All uid f [] fs keep h ps = cc
  modify_at-All uid f (e ∷ es) fs keep h (p, ps) = elim (Bool-cases (e.first.uid == uid)) [
    | inl found ↦ elim (Option-cases (f e)) [
      | inl fault ↦ absurd (ground arith)
      | inr (e', done) ↦ let same : fs ≡ e' ∷ es = ground arith in rw same (keep e e' p done, ps)
    ]
    | inr other ↦ elim (Option-cases (modify_at uid f es)) [
      | inl fault ↦ absurd (ground arith)
      | inr (rest, done) ↦
          let same : fs ≡ e ∷ rest = ground arith in
          rw same (p, modify_at-All uid f es rest keep done ps)
    ]
  ]

  pub erase-All : (uid : ℕ) (es fs : List Entry) → erase uid es ≡ some fs → All P es → All P fs
  unfolding erase
  erase-All uid [] fs h ps = cc
  erase-All uid (e ∷ es) fs h (p, ps) = elim (Bool-cases (e.first.uid == uid)) [
    | inl found ↦ let same : fs ≡ es = ground arith in rw same ps
    | inr other ↦ elim (Option-cases (erase uid es)) [
      | inl fault ↦ absurd (ground arith)
      | inr (rest, done) ↦
          let same : fs ≡ e ∷ rest = ground arith in rw same (p, erase-All uid es rest done ps)
    ]
  ]

  pub map-All :
      (f : Entry → Entry) (es : List Entry)
      → ((e : Entry) → P e → P (f e))
      → All P es
      → All P (map f es)
  map-All f [] keep ps = tt
  map-All f (e ∷ es) keep (p, ps) = (keep e p, map-All f es keep ps)

  pub append-All : (es : List Entry) (e : Entry) → All P es → P e → All P (es ++ e ∷ [])
  append-All [] e ps p = (p, tt)
  append-All (x ∷ es) e (q, ps) p = (q, append-All es e ps p)

  pub find-All : (uid : ℕ) (es : List Entry) (e : Entry) → find uid es ≡ some e → All P es → P e
  unfolding find
  find-All uid [] e h ps = cc
  find-All uid (x ∷ es) e h (p, ps) = elim (Bool-cases (x.first.uid == uid)) [
    | inl found ↦ let same : e ≡ x = ground arith in rw same p
    | inr other ↦ find-All uid es e (rw other at h) ps
  ]

  -- The iterator points to the game that `find` finds.
  pub modify_at-found :
      (uid : ℕ) (f : Entry → Option Entry) (es fs : List Entry) (e : Entry)
      → find uid es ≡ some e
      → ((e' : Entry) → f e ≡ some e' → P e')
      → modify_at uid f es ≡ some fs
      → All P es
      → All P fs
  unfolding find modify_at
  modify_at-found uid f [] fs e found keep h ps = cc
  modify_at-found uid f (x ∷ es) fs e found keep h (p, ps) =
      elim (Bool-cases (x.first.uid == uid)) [
        | inl here ↦ elim (Option-cases (f x)) [
          | inl fault ↦ absurd (ground arith)
          | inr (e', done) ↦
              let same : fs ≡ e' ∷ es = ground arith in
              let it : x ≡ e = ground arith in
              rw same (keep e' (subst (λ (y : Entry). f y ≡ some e') it done), ps)
        ]
        | inr there ↦ elim (Option-cases (modify_at uid f es)) [
          | inl fault ↦ absurd (ground arith)
          | inr (rest, done) ↦
              let same : fs ≡ x ∷ rest = ground arith in
              rw same (p, modify_at-found uid f es rest e (rw there at found) keep done ps)
        ]
      ]

pub uid-find : (uid : ℕ) (es : List Entry) (e : Entry) → find uid es ≡ some e → e.first.uid ≡ uid
unfolding find
uid-find uid [] e found = cc
uid-find uid (x ∷ es) e found = elim (Bool-cases (x.first.uid == uid)) [
  | inl here ↦ ground (arith, rw here at found)
  | inr there ↦ uid-find uid es e (rw there at found)
]
