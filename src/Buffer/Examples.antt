-- ===== src/Buffer/Examples.antt =====
-- Concrete runs of RingAlloc, and the theorems at concrete inputs.
use gomedia.Common.{◌≡◌, refl, arith, Option, none, some}
use gomedia.Buffer.{
  RingAlloc, slot_at, set_slot, new_ring_alloc, alloc, place, refused, read_cursor, region_free,
  take_slot, waste_tail, retain, release, slots_exhausted, advance_head,
}
use gomedia.Buffer.Disjoint.{Reachable, new, allocates, retains, releases, Apart, Reachable-Apart}
use gomedia.Buffer.Owners.{Owners, give, granted}
use gomedia.Buffer.Growing.{
  GrowingRingAlloc, max_ring_cap, growing_alloc, Served, growing_alloc-Served,
}
use gomedia.Buffer.Reclaim.{IsReclaimed, release-IsReclaimed}
use gomedia.Buffer.Overlap.{Overlaps, alloc-Overlaps, alloc-stuck}

abbrev small : RingAlloc
small = new_ring_alloc 100

abbrev one_slot : RingAlloc
one_slot = (alloc 40 small).1

abbrev two_slots : RingAlloc
two_slots = (alloc 30 one_slot).1

-- The first handle is shared and given back once.
abbrev shared : RingAlloc
shared = retain 0 two_slots

abbrev or_same : RingAlloc → Option RingAlloc → RingAlloc
or_same r none = r
or_same r (some r') = r'

abbrev one_back : RingAlloc
one_back = or_same shared (release 0 shared)

abbrev holders : Owners
holders = give 0 1 (give 0 2 (give 1 1 (give 0 1 (λ _. 0))))

reached : Reachable 100 one_back holders
unfolding new_ring_alloc alloc place refused read_cursor region_free take_slot slot_at set_slot
    retain release advance_head give granted
reached =
    releases 0
      (retains 0
        (allocates 30 (allocates 40 new (λ h. absurd (omega arith))) (λ h. absurd (omega arith)))
        (omega arith))
      (omega arith) refl

Reachable-Apart_example : Apart 100 (slot_at one_back.slots 0) (slot_at one_back.slots 1)
unfolding new_ring_alloc alloc place refused read_cursor region_free take_slot slot_at set_slot
    retain release advance_head give
Reachable-Apart_example =
    Reachable-Apart 100 one_back holders reached 0 1 (omega arith) (omega arith) (omega arith)

-- A slab of 100 bytes: 80 bytes, then 20, the 80 given back, then 30 at the front.
abbrev second_lap : RingAlloc
second_lap =
    let full = (alloc 20 (alloc 80 small).1).1 in (alloc 30 (or_same full (release 0 full))).1

alloc-Overlaps_example : Overlaps second_lap 75 3
unfolding new_ring_alloc alloc place refused read_cursor region_free take_slot waste_tail slot_at
    set_slot release advance_head
alloc-Overlaps_example =
    alloc-Overlaps second_lap 75 3 (omega arith, omega arith, omega arith) (omega arith)
      (omega arith) (omega arith) (omega arith) (omega arith) (omega arith) (omega arith)

alloc-stuck_example :
    (alloc 75 (record small { write = 50 }) ≡ (none, waste_tail (record small { write = 50 })))
    × (alloc 75 (waste_tail (record small { write = 50 }))
        ≡ (none, waste_tail (record small { write = 50 })))
unfolding new_ring_alloc
alloc-stuck_example =
    alloc-stuck (record small { write = 50 }) 75 refl (omega arith) (omega arith) (omega arith)

abbrev growing : GrowingRingAlloc
growing = record { current = small; max_cap = 1000 }

growing_alloc-Served_example : Served 300 growing (growing_alloc 300 growing)
unfolding new_ring_alloc max_ring_cap alloc slots_exhausted
growing_alloc-Served_example =
    growing_alloc-Served 300 growing (omega arith) (omega arith) (omega arith) refl

abbrev given_back : RingAlloc
given_back = or_same two_slots (release 0 two_slots)

release-IsReclaimed_example : IsReclaimed given_back
unfolding new_ring_alloc alloc place refused read_cursor region_free take_slot slot_at set_slot
    release advance_head
release-IsReclaimed_example = release-IsReclaimed 0 two_slots given_back refl
