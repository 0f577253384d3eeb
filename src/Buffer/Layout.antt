-- ===== src/Buffer/Layout.antt =====
-- Where the slots of a ring lie in its slab, in the order of their indices: the slots
-- from `h` up to `t`, with the next byte to write at `w`, in a slab of `c` bytes.
use gomedia.Common.{ℕ, suc, ◌≤◌, ◌<◌, ◌≡◌, ◌⊎◌, inl, inr, ap, arith, Bool-cases, ltb}
use gomedia.Buffer.{Slot}

-- A region of at least one byte between two offsets.
abbrev pub Inside : ℕ → ℕ → Slot → Type 0
Inside a b s = (a ≤ s.start) × (s.start < s.end) × (s.end ≤ b)

-- The wasted tail of the slab may be empty, a slot that is in use is not.
abbrev pub Old : ℕ → ℕ → Slot → Type 0
Old a b s = (a ≤ s.start) × (s.start ≤ s.end) × (s.end ≤ b) × (0 < s.refs → s.start < s.end)

abbrev pub Each : (Slot → Type 0) → (ℕ → Slot) → ℕ → ℕ → Type 0
Each P s h t = (i : ℕ) → h ≤ i → i < t → P (s i)

abbrev pub Ordered : (ℕ → Slot) → ℕ → ℕ → Type 0
Ordered s h t = (i j : ℕ) → h ≤ i → i < j → j < t → (s i).end ≤ (s j).start

-- Either all slots lie in order below `w`, or those before some index `k` lie in order from
-- `w` on, and those from `k` on in order below `w`.
pub data Layout (s : ℕ → Slot) (h t w c : ℕ) : Type 0 where
  straight : h ≤ t → w ≤ c → Each (Inside 0 w) s h t → Ordered s h t → Layout s h t w c
  wrapped :
      (k : ℕ)
      → h < k
      → k ≤ t
      → w ≤ c
      → Each (Old w c) s h k
      → Ordered s h k
      → Each (Inside 0 w) s k t
      → Ordered s k t
      → Layout s h t w c

-- What happens to a slot in use or released: its region stays, and it is not used anew.
abbrev pub Keeps : (ℕ → Slot) → (ℕ → Slot) → ℕ → ℕ → Type 0
Keeps s s' h t =
    (i : ℕ)
    → h ≤ i
    → i < t
    → ((s' i).start ≡ (s i).start) × ((s' i).end ≡ (s i).end) × (0 < (s' i).refs → 0 < (s i).refs)

module _ {s s' : ℕ → Slot} where
  pub Keeps-Ordered : {h t : ℕ} → Keeps s s' h t → Ordered s h t → Ordered s' h t
  Keeps-Ordered k o i j p q r =
      omega (arith, (k i p (omega arith)).1, (k j (omega arith) r).0, o i j p q r)

  pub Keeps-Inside :
      {h t a b : ℕ} → Keeps s s' h t → Each (Inside a b) s h t → Each (Inside a b) s' h t
  Keeps-Inside k e i p q =
      let (start, end, _) = k i p q in
      let (x, y, z) = e i p q in (omega arith, omega arith, omega arith)

  pub Keeps-Old : {h t a b : ℕ} → Keeps s s' h t → Each (Old a b) s h t → Each (Old a b) s' h t
  Keeps-Old k e i p q =
      let (start, end, used) = k i p q in
      let (x, y, z, live) = e i p q in
      (omega arith, omega arith, omega arith, λ u. omega (arith, live (used u)))

  pub before : {h t m : ℕ} → m ≤ t → Keeps s s' h t → Keeps s s' h m
  before le k i p q = k i p (omega arith)

  pub behind : {h t m : ℕ} → h ≤ m → Keeps s s' h t → Keeps s s' m t
  behind le k i p q = k i (omega arith) q

  pub Keeps-Layout : {h t w c : ℕ} → Keeps s s' h t → Layout s h t w c → Layout s' h t w c
  Keeps-Layout k (straight a b e o) = straight a b (Keeps-Inside k e) (Keeps-Ordered k o)
  Keeps-Layout k (wrapped m a b d e o e' o') =
      let k' = behind (omega arith) k in
      let k'' = before b k in
      wrapped m a b d (Keeps-Old k'' e) (Keeps-Ordered k'' o) (Keeps-Inside k' e')
        (Keeps-Ordered k' o')

pub last_or_before : (i t : ℕ) → i < suc t → (i < t) ⊎ (i ≡ t)
last_or_before i t h = elim (Bool-cases (ltb i t)) [
  | inl lt ↦ inl (ground arith)
  | inr ge ↦ inr (ground arith)
]

module _ (s : ℕ → Slot) (h t : ℕ) where
  -- One slot more, at the end.
  pub Each-snoc : (P : Slot → Type 0) → Each P s h t → P (s t) → Each P s h (suc t)
  Each-snoc P e p i a b = elim (last_or_before i t b) [ inl lt ↦ e i a lt | inr eq ↦ rw eq p ]

  pub Ordered-snoc :
      Ordered s h t → ((i : ℕ) → h ≤ i → i < t → (s i).end ≤ (s t).start) → Ordered s h (suc t)
  Ordered-snoc o p i j a b c = elim (last_or_before j t c) [
    | inl lt ↦ o i j a b lt
    | inr eq ↦ rw eq (p i a (omega arith))
  ]

  -- Widening the range of offsets.
  pub Inside-wider : (b b' : ℕ) → b ≤ b' → Each (Inside 0 b) s h t → Each (Inside 0 b') s h t
  Inside-wider b b' le e i p q = let (x, y, z) = e i p q in (x, y, omega arith)

  -- The slots behind the oldest begin behind it.
  pub Old-from :
      (a b c : ℕ)
      → h < t
      → Each (Old a c) s h t
      → Ordered s h t
      → b ≤ (s h).start
      → Each (Old b c) s h t
  Old-from a b c lt e o le i p q =
      let (x, y, z, live) = e i p q in
      (
        elim (last_or_before h i (omega arith)) [
          | inl after ↦
              let first = e h (omega arith) lt in
              omega (arith, first.1, o h i (omega arith) after q)
          | inr eq ↦ omega (arith, ap (λ j. (s j).start) eq)
        ],
        y,
        z,
        live,
      )
