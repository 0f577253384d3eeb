-- ===== src/Buffer/Overlap.antt =====
-- Requests that RingAlloc serves wrongly.
use gomedia.Common.{
  ℕ, suc, ◌+◌, ◌-◌, ◌≤◌, ◌<◌, ◌≡◌, refl, ap, ◌∙◌, arith, leb, ltb, ◌==◌, true, false, ◌||◌, some,
  none,
}
use gomedia.Buffer.{
  Slot, RingAlloc, ring_slot_count, slot_at, set_slot, read_cursor, region_free, refused,
  waste_tail, take_slot, place, alloc,
}
use gomedia.Buffer.Valid.{Live, set_slot-same, set_slot-other}

module _ (r : RingAlloc) (n : ℕ) where
  abbrev wasted : Slot
  wasted = record { start = r.write; end = r.bcap; refs = 0 }

  abbrev after : RingAlloc
  after = take_slot n (waste_tail r)

  -- The region that a request of `n` bytes is given begins at the front of the slab, where that of
  -- `idx`, which stays in use, begins below its end.
  abbrev pub Overlaps : ℕ → Type 0
  Overlaps idx =
      (alloc n r ≡ (some (suc r.tail), after))
      × Live after idx
      × (slot_at after.slots idx ≡ slot_at r.slots idx)
      × ((slot_at after.slots (suc r.tail)).start ≡ 0)
      × ((slot_at after.slots idx).start < (slot_at after.slots (suc r.tail)).end)

  -- In a ring whose slots have wrapped around (the oldest slot begins above the write cursor), a
  -- request that fits the slab but not behind the write cursor, and reaches no further than the oldest
  -- slot, is given the front of the slab, although a slot in use begins there: Alloc forgets, when
  -- it wraps a second time, what lies below the old write cursor.
  pub alloc-Overlaps :
      (idx : ℕ)
      → Live r idx
      → (slot_at r.slots idx).start < n
      → r.head < r.tail
      → r.tail < r.head + 4095
      → r.write < (slot_at r.slots r.head).start
      → n ≤ (slot_at r.slots r.head).start
      → n ≤ r.bcap
      → r.bcap < r.write + n
      → Overlaps idx
  alloc-Overlaps idx (from, below, used) taken some_slot room low fits slab high = (
    (unfold alloc place in rw (bytes, wraps, two_free, accepted) (unfold waste_tail in refl)),
    (unfold take_slot waste_tail in from, unfold take_slot waste_tail in omega arith, rw kept used),
    kept,
    (unfold waste_tail in ap (λ s. s.start) front),
    rw (kept, front) (unfold waste_tail in omega arith),
  )
    where
      oldest : slot_at (set_slot r.slots r.tail wasted) r.head ≡ slot_at r.slots r.head
      oldest = set_slot-other r.slots r.tail wasted r.head (ground arith)

      bytes : n == 0 || ltb r.bcap n ≡ false
      bytes = ground arith

      wraps : ltb r.bcap (r.write + n) ≡ true
      wraps = ground arith

      two_free : leb (ring_slot_count - 1) (r.tail - r.head) ≡ false
      two_free = ground arith

      front :
          slot_at after.slots (suc r.tail)
          ≡ record { start = (waste_tail r).write; end = (waste_tail r).write + n; refs = 1 }
      front =
          unfold take_slot waste_tail in
          set_slot-same (set_slot r.slots r.tail wasted) (suc r.tail)
            (record { start = (waste_tail r).write; end = (waste_tail r).write + n; refs = 1 })

      free : refused (waste_tail r) n ≡ false
      free =
          unfold refused read_cursor region_free waste_tail in
          ground (arith, ap (λ s. s.start) oldest)

      accepted :
          refused (waste_tail r) n
            || leb ring_slot_count ((waste_tail r).tail - (waste_tail r).head)
          ≡ false
      accepted = rw free (unfold waste_tail in ground arith)

      kept : slot_at (take_slot n (waste_tail r)).slots idx ≡ slot_at r.slots idx
      kept =
          unfold take_slot waste_tail in
          (set_slot-other (set_slot r.slots r.tail wasted) (suc r.tail) _ idx (ground arith)
            ∙ set_slot-other r.slots r.tail wasted idx (ground arith))

  -- On a ring with no slot, a request that fits the slab, but neither behind nor before the write
  -- cursor, is refused, and again in the state that this leaves, which is then final.
  pub alloc-stuck :
      r.head ≡ r.tail
      → r.write < n
      → n ≤ r.bcap
      → r.bcap < r.write + n
      → (alloc n r ≡ (none, waste_tail r)) × (alloc n (waste_tail r) ≡ (none, waste_tail r))
  alloc-stuck empty low fits high = (
    (unfold alloc place in rw (bytes, wraps, room, refuses) refl),
    (unfold alloc place in rw (bytes', fits_now, refuses) refl),
  )
    where
      oldest : (slot_at (set_slot r.slots r.tail wasted) r.head).start ≡ r.write
      oldest = rw empty (ap (λ s. s.start) (set_slot-same r.slots r.tail wasted))

      refuses : refused (waste_tail r) n ≡ true
      refuses = unfold refused read_cursor region_free waste_tail in ground (arith, oldest)

      bytes : n == 0 || ltb r.bcap n ≡ false
      bytes = ground arith

      bytes' : n == 0 || ltb (waste_tail r).bcap n ≡ false
      bytes' = unfold waste_tail in ground arith

      fits_now : ltb (waste_tail r).bcap ((waste_tail r).write + n) ≡ false
      fits_now = unfold waste_tail in ground arith

      wraps : ltb r.bcap (r.write + n) ≡ true
      wraps = ground arith

      room : leb (ring_slot_count - 1) (r.tail - r.head) ≡ false
      room = ground arith
