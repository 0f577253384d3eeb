-- ===== src/Buffer.antt =====
-- utils/buffer/ring_alloc.go: RingAlloc, a slab of bytes that is handed out in order, and
-- GrowingRingAlloc, which replaces a full one by a larger one. The bytes are left out: an
-- allocation is its region `[start, end)`, and a handle is its index in the slot table. Each
-- method is one step; a capacity is below 2 GiB, so that the conversions to int32 keep a number.
pub mod Layout
pub mod Moves
pub mod Valid
pub mod Owners
pub mod Disjoint
pub mod Reclaim
pub mod Overlap
pub mod Growing
mod Examples
use gomedia.Common.{
  ℕ, zero, suc, ◌+◌, ◌-◌, ◌*◌, ◌/◌, ◌%◌, ◌^◌, min, max, Bool, true, false, ◌&&◌, ◌||◌, not, Option,
  none, some, ltb, leb, ◌==◌, if◌then◌else◌,
}

abbrev pub ring_slot_count : ℕ
ring_slot_count = 4096

-- ringSlot
pub record Slot : Type 0 where
  pub start : ℕ
  pub end : ℕ
  pub refs : ℕ

-- RingAlloc
pub record RingAlloc : Type 0 where
  pub bcap : ℕ
  pub write : ℕ
  pub head : ℕ
  pub tail : ℕ
  pub slots : ℕ → Slot

-- `r.slots[idx%ringSlotCount]`, read and written
unfoldable pub slot_at : (ℕ → Slot) → ℕ → Slot
slot_at slots idx = slots (idx % ring_slot_count)

unfoldable pub set_slot : (ℕ → Slot) → ℕ → Slot → ℕ → Slot
set_slot slots idx s i = if i == idx % ring_slot_count then s else slots i

unfoldable pub new_ring_alloc : ℕ → RingAlloc
new_ring_alloc size = record {
  bcap = size;
  write = 0;
  head = 0;
  tail = 0;
  slots = λ _. record { start = 0; end = 0; refs = 0 };
}

unfoldable pub slots_exhausted : RingAlloc → Bool
slots_exhausted r = leb ring_slot_count (r.tail - r.head)

unfoldable pub read_cursor : RingAlloc → ℕ
read_cursor r = if r.head == r.tail then r.write else (slot_at r.slots r.head).start

unfoldable pub region_free : RingAlloc → ℕ → ℕ → ℕ → Bool
region_free r lo hi read =
    if leb read r.write then leb hi read || leb r.write lo else leb r.write lo && leb hi read

-- What the region `[r.write, r.write + n)` is refused for, by Alloc and by Extend.
unfoldable pub refused : RingAlloc → ℕ → Bool
refused r n =
    let read = read_cursor r in
    (r.write == read && ltb r.head r.tail) || not (region_free r r.write (r.write + n) read)

-- Alloc, where it wastes the tail of the slab.
unfoldable pub waste_tail : RingAlloc → RingAlloc
waste_tail r = record r {
  write = 0;
  tail = suc r.tail;
  slots = set_slot r.slots r.tail (record { start = r.write; end = r.bcap; refs = 0 });
}

-- The rest of Alloc: the region at `start`, which is `r.write` in both cases.
unfoldable pub take_slot : ℕ → RingAlloc → RingAlloc
take_slot n r = record r {
  write = r.write + n;
  tail = suc r.tail;
  slots = set_slot r.slots r.tail (record { start = r.write; end = r.write + n; refs = 1 });
}

unfoldable pub place : ℕ → RingAlloc → Option ℕ × RingAlloc
place n r =
    if refused r n || leb ring_slot_count (r.tail - r.head)
    then (none, r)
    else (some r.tail, take_slot n r)

-- Alloc, with the index of the slot for the handle.
unfoldable pub alloc : ℕ → RingAlloc → Option ℕ × RingAlloc
alloc n r =
    if n == 0 || ltb r.bcap n
    then (none, r)
    else if ltb r.bcap (r.write + n)
    then (if leb (ring_slot_count - 1) (r.tail - r.head) then (none, r) else place n (waste_tail r))
    else place n r

-- Extend: whether the slot has grown, and the ring.
unfoldable pub grow_slot : ℕ → ℕ → RingAlloc → RingAlloc
grow_slot idx n r = record r {
  write = r.write + n;
  slots = set_slot r.slots idx (record (slot_at r.slots idx) { end = r.write + n });
}

unfoldable pub extend : ℕ → ℕ → RingAlloc → Bool × RingAlloc
extend idx n r =
    if n == 0
      || not (r.write == (slot_at r.slots idx).end)
      || ltb r.bcap (r.write + n)
      || refused r n
    then (false, r)
    else (true, grow_slot idx n r)

unfoldable pub retain : ℕ → RingAlloc → RingAlloc
retain idx r =
    let s = slot_at r.slots idx in
    record r { slots = set_slot r.slots idx (record s { refs = s.refs + 1 }) }

-- The loop of Release over slots that are done; a compare-and-swap that is lost only repeats a
-- round. A round moves `head` towards `tail`, so `tail - head` rounds are enough.
unfoldable pub advance_head : ℕ → RingAlloc → RingAlloc
advance_head zero r = r
advance_head (suc fuel) r =
    let rest = advance_head fuel (record r { head = suc r.head }) in
    if leb r.tail r.head then r else if not ((slot_at r.slots r.head).refs == 0) then r else rest

-- `none` is the panic "refs < 0".
unfoldable pub release : ℕ → RingAlloc → Option RingAlloc
release idx r =
    let s = slot_at r.slots idx in
    if s.refs == 0
    then none
    else some (
        advance_head (r.tail - r.head)
          (record r { slots = set_slot r.slots idx (record s { refs = s.refs - 1 }) }))
