-- ===== src/Common/Run.antt =====
-- Code that loops and may panic. `panic` is Go's panic, and `stuck` is no Go value: it says that
-- the fuel of a loop ran out, which the theorems of each loop rule out.
use Prim.Native.Nat.{ℕ, zero, suc, ◌+◌, ◌-◌, ◌<◌}
use mathlib.Core.Bool.{◌&&◌}
use mathlib.Core.List.{List, [], ◌∷◌, ◌++◌, append_assoc}
use gomedia.Common.Tests.{leb, if◌then◌else◌}
use gomedia.Common.Lists.{length, take, drop, length-append, drop-length_append, take-length}
use mathlib.Core.Path.{◌≡◌, refl, ◌∙◌, subst₂}
use mathlib.Core.Logic.{◌⊎◌, inl, inr}
use native.Mathlib.Omega.{arith}
use mathlib.Core.Option.{Option, none, some}

pub data Run {ℓ} (A : Type ℓ) : Type ℓ where
  ret : A → Run A
  panic : Run A
  stuck : Run A

infixl 5 ◌>>=◌
abbrev pub ◌>>=◌ {ℓ κ} : {A : Type ℓ} {B : Type κ} → Run A → (A → Run B) → Run B
ret a >>= f = f a
panic >>= f = panic
stuck >>= f = stuck

-- An index or a slice expression that panics out of range.
abbrev pub index {ℓ} : {A : Type ℓ} → Option A → Run A
index none = panic
index (some a) = ret a

-- `b[lo:hi]`. The length stands for the capacity, up to which Go lets a slice grow.
abbrev pub slice {ℓ} : {A : Type ℓ} → List A → ℕ → ℕ → Run (List A)
slice b lo hi = if leb lo hi && leb hi (length b) then ret (take (hi - lo) (drop lo b)) else panic

-- `b[:hi]` and `b[lo:]`
abbrev pub slice_to {ℓ} : {A : Type ℓ} → List A → ℕ → Run (List A)
slice_to b hi = if leb hi (length b) then ret (take hi b) else panic

abbrev pub slice_from {ℓ} : {A : Type ℓ} → List A → ℕ → Run (List A)
slice_from b lo = if leb lo (length b) then ret (drop lo b) else panic

-- A `for {}` loop on fuel: a round goes on in a new state or breaks with the result.
pub data Round {ℓ κ} (S : Type ℓ) (R : Type κ) : Type (ℓ ⊔ κ) where
  next : S → Round S R
  done : R → Round S R

module _ {ℓ κ} {S : Type ℓ} {R : Type κ} (round : S → Run (Round S R)) where
  pub loop : ℕ → S → Run R
  loop zero s = stuck
  loop (suc fuel) s = elim (round s) [
    | ret t ↦ elim t [ next s' ↦ loop fuel s' | done r ↦ ret r ]
    | panic ↦ panic
    | stuck ↦ stuck
  ]

  pub loop-zero : (s : S) → loop zero s ≡ stuck
  unfolding loop
  loop-zero s = refl

  pub loop-next :
      (fuel : ℕ) (s : S) {s' : S} → round s ≡ ret (next s') → loop (suc fuel) s ≡ loop fuel s'
  unfolding loop
  loop-next fuel s e = rw (e, loop)

  pub loop-done : (fuel : ℕ) (s : S) {r : R} → round s ≡ ret (done r) → loop (suc fuel) s ≡ ret r
  unfolding loop
  loop-done fuel s e = rw (e, loop)

  -- A round under the invariant that breaks with a good result, or goes on with a smaller measure.
  abbrev pub Progress {μ} : (S → Type μ) → (R → Type μ) → (S → ℕ) → S → Type (ℓ ⊔ κ ⊔ μ)
  Progress P Q measure s =
      ((r : R) × (round s ≡ ret (done r)) × Q r)
      ⊎ ((s' : S) × (round s ≡ ret (next s')) × P s' × (measure s' < measure s))

  -- Total correctness of a loop.
  pub loop_total {μ} :
      (P : S → Type μ) (Q : R → Type μ) (measure : S → ℕ)
      → ((s : S) → P s → Progress P Q measure s)
      → (fuel : ℕ) (s : S) → measure s < fuel
      → P s
      → (r : R) × (loop fuel s ≡ ret r) × Q r
  loop_total P Q measure progress zero s m h = absurd (omega arith)
  loop_total P Q measure progress (suc fuel) s m h = elim (progress s h) [
    | inl (r, e, q) ↦ (r, loop-done fuel s e, q)
    | inr (s', e, h', smaller) ↦
        let (r, e', q) = loop_total P Q measure progress fuel s' (omega arith) h' in
        (r, loop-next fuel s e ∙ e', q)
  ]

-- The slice behind a part of a list.
pub slice_suffix :
    {A : Type 0} (xs ys : List A) → slice (xs ++ ys) (length xs) (length (xs ++ ys)) ≡ ret ys
slice_suffix xs ys =
    rw (drop-length_append xs ys)
      (ground (arith, length-append xs ys, take-length ys (length (xs ++ ys) - length xs)))

-- The slice behind a part of a list and two more elements.
pub slice_behind_two :
    {A : Type 0} (xs : List A) (y z : A) (ys : List A)
    → slice (xs ++ (y ∷ z ∷ ys)) (length xs + 2) (length (xs ++ (y ∷ z ∷ ys))) ≡ ret ys
slice_behind_two {A} xs y z ys =
    subst₂ (λ (t : List A) (k : ℕ). slice t k (length t) ≡ ret ys) (append_assoc xs (y ∷ z ∷ []) ys)
      two_more (slice_suffix (xs ++ (y ∷ z ∷ [])) ys)
  where
    two_more : length (xs ++ (y ∷ z ∷ [])) ≡ length xs + 2
    two_more = omega (arith, length-append xs (y ∷ z ∷ []))
