-- ===== src/Buffer/Disjoint.antt =====
-- What a RingAlloc promises: regions in use do not overlap.
use gomedia.Common.{ℕ, ◌+◌, ◌-◌, ◌≤◌, ◌<◌, ◌≡◌, ◌⊎◌, inl, inr, arith, Bool-cases, ltb, some}
use gomedia.Buffer.{Slot, RingAlloc, slot_at, new_ring_alloc, alloc, extend, retain, release}
use gomedia.Buffer.Owners.{
  Owners, give, granted, Tracks, Tracks-Live, alloc-Tracks, extend-Tracks, retain-Tracks,
  release-Tracks,
}
use gomedia.Buffer.Layout.{Layout, straight, wrapped}
use gomedia.Buffer.Valid.{
  IsValid, WrapsOnce, alloc-IsValid, extend-IsValid, retain-IsValid, release-IsValid,
}

-- The rings that calls lead to, with the references that the callers hold: Alloc hands out one, and
-- only who holds one extends, retains or releases a handle. Release must not panic.
pub data Reachable (size : ℕ) : RingAlloc → Owners → Type 0 where
  new : Reachable size (new_ring_alloc size) (λ _. 0)
  allocates :
      {r : RingAlloc} {own : Owners} (n : ℕ)
      → Reachable size r own
      → WrapsOnce n r
      → Reachable size (alloc n r).1 (granted (alloc n r).0 own)
  extends :
      {r : RingAlloc} {own : Owners} (idx n : ℕ)
      → Reachable size r own
      → 0 < own idx
      → Reachable size (extend idx n r).1 own
  retains :
      {r : RingAlloc} {own : Owners} (idx : ℕ)
      → Reachable size r own
      → 0 < own idx
      → Reachable size (retain idx r) (give idx (own idx + 1) own)
  releases :
      {r r' : RingAlloc} {own : Owners} (idx : ℕ)
      → Reachable size r own
      → 0 < own idx
      → release idx r ≡ some r'
      → Reachable size r' (give idx (own idx - 1) own)

Reachable-Tracks :
    (size : ℕ) (r : RingAlloc) (own : Owners) → Reachable size r own → IsValid r × Tracks r own
Reachable-Tracks size _ _ new = (
  (
    (unfold new_ring_alloc in
        straight (omega arith) (omega arith) (λ i p q. absurd (omega arith))
          (λ i j p q r. absurd (omega arith))),
    (unfold new_ring_alloc in omega arith),
  ),
  λ i held. absurd (omega arith),
)
Reachable-Tracks size _ _ (allocates {r} {own} n before once) =
    let (valid, tracks) = Reachable-Tracks size r own before in
    (alloc-IsValid n r once valid, alloc-Tracks n r own valid tracks)
Reachable-Tracks size _ _ (extends {r} {own} idx n before held) =
    let (valid, tracks) = Reachable-Tracks size r own before in
    (
      extend-IsValid r n idx (Tracks-Live r own idx tracks held) valid,
      extend-Tracks idx n r own valid held tracks,
    )
Reachable-Tracks size _ _ (retains {r} {own} idx before held) =
    let (valid, tracks) = Reachable-Tracks size r own before in
    (
      retain-IsValid r idx (Tracks-Live r own idx tracks held) valid,
      retain-Tracks idx r own valid held tracks,
    )
Reachable-Tracks size _ _ (releases {r} {r'} {own} idx before held e) =
    let (valid, tracks) = Reachable-Tracks size r own before in
    (
      release-IsValid r r' idx (Tracks-Live r own idx tracks held) valid e,
      release-Tracks idx r r' own valid held tracks e,
    )

module _ (s : ℕ → Slot) (h t w c : ℕ) where
  slots_within : (i : ℕ) → h ≤ i → i < t → Layout s h t w c → (s i).end ≤ c
  slots_within i p q (straight a b e o) = let (x, y, z) = e i p q in omega arith
  slots_within i p q (wrapped k a b d e o e' o') = elim (Bool-cases (ltb i k)) [
    | inl old ↦ let (x, y, z, live) = e i p (ground arith) in z
    | inr recent ↦ let (x, y, z) = e' i (ground arith) q in omega arith
  ]

  slots_apart :
      (i j : ℕ)
      → h ≤ i
      → i < j
      → j < t
      → Layout s h t w c
      → ((s i).end ≤ (s j).start) ⊎ ((s j).end ≤ (s i).start)
  slots_apart i j p lt q (straight a b e o) = inl (o i j p lt q)
  slots_apart i j p lt q (wrapped k a b d e o e' o') = elim (Bool-cases (ltb j k)) [
    | inl old ↦ inl (o i j p lt (ground arith))
    | inr recent ↦ elim (Bool-cases (ltb i k)) [
      | inl first ↦
          let (x, y, z, live) = e i p (ground arith) in
          let (x', y', z') = e' j (ground arith) q in inr (omega arith)
      | inr behind ↦ inl (o' i j (ground arith) lt q)
    ]
  ]

-- Two regions of a slab of `c` bytes that share no byte.
abbrev pub Apart : ℕ → Slot → Slot → Type 0
Apart c s s' = (s.end ≤ c) × (s'.end ≤ c) × ((s.end ≤ s'.start) ⊎ (s'.end ≤ s.start))

-- From a new ring, calls of Alloc, Extend, Retain and Release, the last three by who holds a
-- reference and without the panic of Release, lead only to rings in which the regions of two
-- different handles that somebody still holds share no byte and lie in the slab, if each request
-- that does not fit behind the write cursor is made while the ring is empty or its oldest slot
-- begins below that cursor. A handle is held while it has more of Alloc and Retain than of Release.
pub Reachable-Apart :
    (size : ℕ) (r : RingAlloc) (own : Owners)
    → Reachable size r own
    → (i j : ℕ) → 0 < own i
    → 0 < own j
    → i < j
    → Apart r.bcap (slot_at r.slots i) (slot_at r.slots j)
Reachable-Apart size r own reached i j held held' lt =
    let ((layout, _), tracks) = Reachable-Tracks size r own reached in
    let (p, q, _) = tracks i held in
    let (p', q', _) = tracks j held' in
    (
      slots_within (slot_at r.slots) r.head r.tail r.write r.bcap i p q layout,
      slots_within (slot_at r.slots) r.head r.tail r.write r.bcap j p' q' layout,
      slots_apart (slot_at r.slots) r.head r.tail r.write r.bcap i j p lt q' layout,
    )
