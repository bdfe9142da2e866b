-- ===== src/Board/Access.antt =====
-- Reads of a board after a write.
use tintemp_plus_plus.Base.{◌≡◌, refl, ◌≢◌, ◌⊎◌, inl, inr}
use tintemp_plus_plus.Board.{Ix, i0, i1, i2, Array3, get, modify, Pair, Board, at, update}

pub Ix-discrete : Discrete Ix
Ix-discrete = hlevel

module _ {ℓ} {A : Type ℓ} where
  get-modify_self : (a : Array3 A) (i : Ix) (f : A → A) → get (modify a i f) i ≡ f (get a i)
  get-modify_self a i0 f = refl
  get-modify_self a i1 f = refl
  get-modify_self a i2 f = refl

  -- What the change keeps is the same at every index.
  get-modify_keep {κ} :
      {B : Type κ} (g : A → B) (f : A → A) (a : Array3 A) (i j : Ix)
      → ((x : A) → g (f x) ≡ g x)
      → g (get (modify a i f) j) ≡ g (get a j)
  get-modify_keep g f a i0 i0 h = h a.e0
  get-modify_keep g f a i0 i1 h = refl
  get-modify_keep g f a i0 i2 h = refl
  get-modify_keep g f a i1 i0 h = refl
  get-modify_keep g f a i1 i1 h = h a.e1
  get-modify_keep g f a i1 i2 h = refl
  get-modify_keep g f a i2 i0 h = refl
  get-modify_keep g f a i2 i1 h = refl
  get-modify_keep g f a i2 i2 h = h a.e2

  get-modify_ne : (a : Array3 A) (i j : Ix) (f : A → A) → i ≢ j → get (modify a i f) j ≡ get a j
  get-modify_ne a i0 i0 f h = absurd (h refl)
  get-modify_ne a i0 i1 f h = refl
  get-modify_ne a i0 i2 f h = refl
  get-modify_ne a i1 i0 f h = refl
  get-modify_ne a i1 i1 f h = absurd (h refl)
  get-modify_ne a i1 i2 f h = refl
  get-modify_ne a i2 i0 f h = refl
  get-modify_ne a i2 i1 f h = refl
  get-modify_ne a i2 i2 f h = absurd (h refl)

pub at-update_self :
    (b : Board) (i k : Ix) (f : Pair → Pair) → at (update b i k f) i k ≡ f (at b i k)
at-update_self b i k f =
    rw (get-modify_self b i (λ r. modify r k f)) (get-modify_self (get b i) k f)

pub at-update_keep {κ} :
    {B : Type κ} (g : Pair → B) (f : Pair → Pair) (b : Board) (i k j l : Ix)
    → ((x : Pair) → g (f x) ≡ g x)
    → g (at (update b i k f) j l) ≡ g (at b j l)
at-update_keep g f b i k j l h =
    get-modify_keep (λ (r : Array3 Pair). g (get r l)) (λ r. modify r k f) b i j
      (λ r. get-modify_keep g f r k l h)

pub at-update_ne :
    (b : Board) (i k j l : Ix) (f : Pair → Pair)
    → (i ≢ j) ⊎ (k ≢ l)
    → at (update b i k f) j l ≡ at b j l
at-update_ne b i k j l f (inl h) = rw (get-modify_ne b i j (λ r. modify r k f) h)
at-update_ne b i k j l f (inr h) =
    get-modify_keep (λ (r : Array3 Pair). get r l) (λ r. modify r k f) b i j
      (λ r. get-modify_ne r k l f h)
