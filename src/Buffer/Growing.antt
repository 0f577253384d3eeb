-- ===== src/Buffer/Growing.antt =====
-- GrowingRingAlloc of utils/buffer/ring_alloc.go: a ring that is replaced by a larger one when it
-- cannot serve a request. A handle's ring is not kept: the index is one of the current ring.
use gomedia.Common.{
  ℕ, ◌+◌, ◌-◌, ◌*◌, ◌/◌, ◌≤◌, ◌<◌, min, max, ◌≡◌, ◌⊎◌, inl, inr, refl, ◌∙◌, arith, Bool-cases,
  false, ◌||◌, Option, none, some, leb, ltb, ◌==◌, if◌then◌else◌,
}
use gomedia.Buffer.{
  RingAlloc, ring_slot_count, new_ring_alloc, slots_exhausted, alloc, place, refused, read_cursor,
  region_free, take_slot, waste_tail,
}

abbrev pub default_max_ring_size : ℕ
default_max_ring_size = 32 * 1024 * 1024

-- GrowingRingAlloc; `max_cap` is 0 for the default.
pub record GrowingRingAlloc : Type 0 where
  pub current : RingAlloc
  pub max_cap : ℕ

unfoldable pub max_ring_cap : GrowingRingAlloc → ℕ
max_ring_cap g = if ltb 0 g.max_cap then g.max_cap else default_max_ring_size

-- The growth factor in tenths.
unfoldable pub growth_factor : ℕ → ℕ
growth_factor cap =
    if ltb (1024 * 1024 * 8) cap
    then 11
    else if ltb (1024 * 1024 * 4) cap
    then 13
    else if ltb (1024 * 1024) cap
    then 14
    else 16

unfoldable pub calc_growth : ℕ → ℕ → GrowingRingAlloc → ℕ
calc_growth cap n g = min (max (cap * growth_factor cap / 10) (n * 2)) (max_ring_cap g)

unfoldable pub grow : ℕ → GrowingRingAlloc → GrowingRingAlloc
grow n g = record g { current = new_ring_alloc (calc_growth g.current.bcap n g) }

-- What Alloc does with the answer of the current ring. The outer `none` is the panic "slot table
-- exhausted".
unfoldable pub keep_answer :
    Option ℕ × RingAlloc → GrowingRingAlloc → Option (Option ℕ × GrowingRingAlloc)
keep_answer (answer, r) g = some (answer, record g { current = r })

unfoldable pub after_alloc :
    ℕ → Option ℕ × RingAlloc → GrowingRingAlloc → Option (Option ℕ × GrowingRingAlloc)
after_alloc n (some idx, r) g = keep_answer (some idx, r) g
after_alloc n (none, r) g =
    if slots_exhausted r
    then none
    else if leb (max_ring_cap g) r.bcap
    then keep_answer (none, r) g
    else let larger = grow n (record g { current = r }) in
      keep_answer (alloc n larger.current) larger

unfoldable pub growing_alloc : ℕ → GrowingRingAlloc → Option (Option ℕ × GrowingRingAlloc)
growing_alloc n g = after_alloc n (alloc n g.current) g

place-bcap : (n : ℕ) (r : RingAlloc) → (place n r).1.bcap ≡ r.bcap
unfolding place take_slot
place-bcap n r = elim (Bool-cases (refused r n || leb ring_slot_count (r.tail - r.head))) [
  | inl no_room ↦ rw no_room refl
  | inr room ↦ rw room refl
]

alloc-bcap : (n : ℕ) (r : RingAlloc) → (alloc n r).1.bcap ≡ r.bcap
unfolding alloc
alloc-bcap n r = elim (Bool-cases (n == 0 || ltb r.bcap n)) [
  | inl bad ↦ rw bad refl
  | inr good ↦ elim (Bool-cases (ltb r.bcap (r.write + n))) [
    | inr fits ↦ rw (good, fits) (place-bcap n r)
    | inl wraps ↦ elim (Bool-cases (leb (ring_slot_count - 1) (r.tail - r.head))) [
      | inl full ↦ rw (good, wraps, full) refl
      | inr room ↦
          rw (good, wraps, room) (place-bcap n (waste_tail r) ∙ (unfold waste_tail in refl))
    ]
  ]
]

-- A new ring serves every request that fits it.
alloc-new :
    (n size : ℕ)
    → 0 < n
    → n ≤ size
    → alloc n (new_ring_alloc size) ≡ (some 0, take_slot n (new_ring_alloc size))
unfolding alloc place new_ring_alloc refused read_cursor region_free
alloc-new n size some_bytes fits = ground arith

growth_factor-grows : (cap : ℕ) → 2 ≤ cap → cap < cap * growth_factor cap / 10
unfolding growth_factor
growth_factor-grows cap some_bytes = ground arith

module _ (n : ℕ) (g : GrowingRingAlloc) where
  calc_growth-grows :
      (cap : ℕ) (g' : GrowingRingAlloc)
      → 0 < n
      → cap < max_ring_cap g'
      → (cap < calc_growth cap n g') × (calc_growth cap n g' ≤ max_ring_cap g')
  unfolding calc_growth
  calc_growth-grows cap g' some_bytes below = (
    elim (Bool-cases (ltb cap 2)) [
      | inl tiny ↦ ground (arith, tiny)
      | inr some_room ↦ omega (arith, growth_factor-grows cap (ground (arith, some_room)))
    ],
    omega arith,
  )

  -- The region is one that the current ring gives, or the only one of a new ring that replaces it, of
  -- a capacity above `low`, up to the largest.
  abbrev pub Keeps : ℕ → Option ℕ × RingAlloc → ℕ → GrowingRingAlloc → Type 0
  Keeps low first idx g' =
      ((first.0 ≡ some idx) × (g'.current ≡ first.1))
      ⊎ ((first.0 ≡ none)
          × (g'.current ≡ take_slot n (new_ring_alloc g'.current.bcap))
          × (low < g'.current.bcap)
          × (g'.current.bcap ≤ max_ring_cap g))

  after_alloc-Served :
      (low : ℕ) (first : Option ℕ × RingAlloc)
      → first.1.bcap ≡ low
      → 0 < n
      → n ≤ max_ring_cap g
      → first.1.bcap < max_ring_cap g
      → slots_exhausted first.1 ≡ false
      → (idx : ℕ) × (g' : GrowingRingAlloc) × (after_alloc n first g ≡ some (some idx, g'))
        × Keeps low first idx g'
  unfolding after_alloc keep_answer
  after_alloc-Served low (some idx, r) same_cap some_bytes fits below free =
      (idx, record g { current = r }, refl, inl (refl, refl))
  after_alloc-Served low (none, r) same_cap some_bytes fits below free =
      let lower : leb (max_ring_cap g) r.bcap ≡ false = ground arith in
      let g' = record g { current = r } in
      let size = calc_growth r.bcap n g' in
      let same : max_ring_cap g' ≡ max_ring_cap g = (unfold max_ring_cap in refl) in
      let (larger, capped) = calc_growth-grows r.bcap g' some_bytes (omega arith) in
      (
        0,
        record g { current = take_slot n (new_ring_alloc size) },
        rw (free, lower)
            (unfold grow in
              rw (alloc-new n size some_bytes (unfold calc_growth max_ring_cap in ground arith))
                refl),
        (unfold take_slot new_ring_alloc in
            inr (refl, refl, omega (arith, larger, same_cap), omega arith)),
      )

  abbrev pub Served : Option (Option ℕ × GrowingRingAlloc) → Type 0
  Served answer =
      (idx : ℕ) × (g' : GrowingRingAlloc) × (answer ≡ some (some idx, g'))
      × Keeps g.current.bcap (alloc n g.current) idx g'

  -- While the current ring is below the largest capacity and its slot table is not exhausted, a
  -- request of at least one byte, up to that capacity, gets a region: one of the current ring, or,
  -- where that refuses, the first one of a new ring that replaces it, which has a larger capacity
  -- and at most the largest.
  pub growing_alloc-Served :
      0 < n
      → n ≤ max_ring_cap g
      → g.current.bcap < max_ring_cap g
      → slots_exhausted (alloc n g.current).1 ≡ false
      → Served (growing_alloc n g)
  unfolding growing_alloc
  growing_alloc-Served some_bytes fits below free =
      after_alloc-Served g.current.bcap (alloc n g.current) (alloc-bcap n g.current) some_bytes fits
        (omega (arith, below, alloc-bcap n g.current)) free
