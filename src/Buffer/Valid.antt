-- ===== src/Buffer/Valid.antt =====
-- The operations of RingAlloc keep its slots in order.
use gomedia.Common.{
  ℕ, zero, suc, ◌+◌, ◌-◌, ◌%◌, ◌≤◌, ◌<◌, ◌≡◌, inl, inr, refl, sym, ap, ◌∙◌, arith, Bool-cases, leb,
  ltb, ◌==◌, false, ◌||◌, not, some, ==_iff,
}
use mathlib.Core.Option.{some-injective}
use gomedia.Buffer.{
  Slot, RingAlloc, ring_slot_count, slot_at, set_slot, read_cursor, region_free, refused,
  waste_tail, take_slot, place, alloc, grow_slot, extend, retain, advance_head, release,
}
use gomedia.Buffer.Layout.{Layout, Keeps, Keeps-Layout}
use gomedia.Buffer.Moves.{
  drop-Layout, take-Layout, waste-Layout, pop-Layout, last_slot, used_bytes, oldest_above,
}

-- The slots lie in order, and no two of them share a place of the slot table.
abbrev pub IsValid : RingAlloc → Type 0
IsValid r =
    Layout (slot_at r.slots) r.head r.tail r.write r.bcap × (r.tail ≤ r.head + ring_slot_count)

abbrev pub Live : RingAlloc → ℕ → Type 0
Live r idx = (r.head ≤ idx) × (idx < r.tail) × (0 < (slot_at r.slots idx).refs)

module _ (slots : ℕ → Slot) (idx : ℕ) (s : Slot) where
  pub set_slot-same : slot_at (set_slot slots idx s) idx ≡ s
  unfolding slot_at set_slot
  set_slot-same = ground arith

  pub set_slot-other :
      (i : ℕ)
      → (i % ring_slot_count == idx % ring_slot_count) ≡ false
      → slot_at (set_slot slots idx s) i ≡ slot_at slots i
  unfolding slot_at set_slot
  set_slot-other i other = rw other refl

  -- A slot behind the others is set.
  set_slot-Keeps :
      (h : ℕ)
      → idx < h + ring_slot_count
      → Keeps (slot_at slots) (slot_at (set_slot slots idx s)) h idx
  set_slot-Keeps h room i p q =
      let e = set_slot-other i (ground arith) in
      (ap (λ t. t.start) e, ap (λ t. t.end) e, λ u. rw (sym e) u)

  -- The reference count of a slot is set.
  count-Keeps :
      (h t : ℕ)
      → h ≤ idx
      → idx < t
      → t ≤ h + ring_slot_count
      → s.start ≡ (slot_at slots idx).start
      → s.end ≡ (slot_at slots idx).end
      → 0 < (slot_at slots idx).refs
      → Keeps (slot_at slots) (slot_at (set_slot slots idx s)) h t
  count-Keeps h t from below room start end used i p q = elim (Bool-cases (i == idx)) [
    | inl same ↦ let e : i ≡ idx = ground arith in rw (e, set_slot-same) (start, end, λ _. used)
    | inr other ↦
        let e = set_slot-other i (ground arith) in
        (ap (λ t. t.start) e, ap (λ t. t.end) e, λ u. rw (sym e) u)
  ]

module _ (r : RingAlloc) (n : ℕ) where
  not_refused :
      refused r n ≡ false
      → r.head < r.tail
      → r.write ≤ (slot_at r.slots r.head).start
      → r.write + n ≤ (slot_at r.slots r.head).start
  unfolding refused read_cursor region_free
  not_refused free lt le = ground arith

  take_slot-IsValid :
      0 < n
      → r.write + n ≤ r.bcap
      → refused r n ≡ false
      → r.tail < r.head + ring_slot_count
      → IsValid r
      → IsValid (take_slot n r)
  unfolding take_slot
  take_slot-IsValid some_bytes fits free room (layout, _) =
      let e =
        set_slot-same r.slots r.tail (record { start = r.write; end = r.write + n; refs = 1 }) in
      (
        take-Layout (slot_at r.slots) r.head r.tail r.write r.bcap
            (slot_at
              (set_slot r.slots r.tail (record { start = r.write; end = r.write + n; refs = 1 })))
            (set_slot-Keeps r.slots r.tail _ r.head room) (r.write + n) (omega arith) fits
            (ap (λ s. s.start) e) (ap (λ s. s.end) e) (not_refused free) layout,
        omega arith,
      )

  place-IsValid : 0 < n → r.write + n ≤ r.bcap → IsValid r → IsValid (place n r).1
  unfolding place
  place-IsValid some_bytes fits valid =
      elim (Bool-cases (refused r n || leb ring_slot_count (r.tail - r.head))) [
        | inl refuses ↦ rw refuses valid
        | inr places ↦
            rw places (take_slot-IsValid some_bytes fits (ground arith) (ground arith) valid)
      ]

  -- Extend, of a slot in use.
  grow_slot-IsValid :
      (idx : ℕ)
      → 0 < n
      → r.write + n ≤ r.bcap
      → (slot_at r.slots idx).end ≡ r.write
      → refused r n ≡ false
      → Live r idx
      → IsValid r
      → IsValid (grow_slot idx n r)
  unfolding grow_slot
  grow_slot-IsValid idx some_bytes fits ends free (from, below, used) (layout, room) = (
    rw (sym last) (
        take-Layout s r.head idx (s idx).start r.bcap (slot_at (set_slot r.slots idx grown))
          (set_slot-Keeps r.slots idx grown r.head (omega arith)) (r.write + n)
          (omega (arith, used_bytes s r.head r.tail r.write r.bcap idx from below ends used layout))
          fits (ap (λ g. g.start) same) (ap (λ g. g.end) same)
          (λ lt le.
            not_refused free (omega arith)
              (oldest_above s r.head r.tail r.write r.bcap idx from below ends lt le layout))
          (pop-Layout s r.head r.tail r.write r.bcap idx from below ends used last layout)),
    room,
  )
    where
      s : ℕ → Slot
      s = slot_at r.slots

      grown : Slot
      grown = record (slot_at r.slots idx) { end = r.write + n }

      same : slot_at (set_slot r.slots idx grown) idx ≡ grown
      same = set_slot-same r.slots idx grown

      last : suc idx ≡ r.tail
      last = last_slot s r.head r.tail r.write r.bcap idx from below ends used layout

  pub extend-IsValid : (idx : ℕ) → Live r idx → IsValid r → IsValid (extend idx n r).1
  unfolding extend
  extend-IsValid idx live valid =
      elim (Bool-cases (
        n == 0
        || not (r.write == (slot_at r.slots idx).end)
        || ltb r.bcap (r.write + n)
        || refused r n)) [
          | inl refuses ↦ rw refuses valid
          | inr grows ↦ rw grows (
              grow_slot-IsValid idx (ground arith) (ground arith) (ground arith) (ground arith) live
                valid)
        ]

waste_tail-IsValid :
    (r : RingAlloc)
    → r.tail < r.head + ring_slot_count
    → (r.head < r.tail → read_cursor r < r.write)
    → IsValid r
    → IsValid (waste_tail r)
unfolding waste_tail read_cursor
waste_tail-IsValid r room low (layout, _) =
    let e = set_slot-same r.slots r.tail (record { start = r.write; end = r.bcap; refs = 0 }) in
    (
      waste-Layout (slot_at r.slots) r.head r.tail r.write r.bcap
          (slot_at (set_slot r.slots r.tail (record { start = r.write; end = r.bcap; refs = 0 })))
          (set_slot-Keeps r.slots r.tail _ r.head room) (ap (λ s. s.start) e) (ap (λ s. s.end) e)
          (ap (λ s. s.refs) e) (λ lt. let h = low lt in ground arith) layout,
      omega arith,
    )

-- A request that does not fit behind the write cursor meets a slab in which the oldest slot
-- lies below that cursor.
abbrev pub WrapsOnce : ℕ → RingAlloc → Type 0
WrapsOnce n r = r.bcap < r.write + n → r.head < r.tail → read_cursor r < r.write

pub alloc-IsValid : (n : ℕ) (r : RingAlloc) → WrapsOnce n r → IsValid r → IsValid (alloc n r).1
unfolding alloc
alloc-IsValid n r once valid = elim (Bool-cases (n == 0 || ltb r.bcap n)) [
  | inl refuses ↦ rw refuses valid
  | inr some_bytes ↦ elim (Bool-cases (ltb r.bcap (r.write + n))) [
    | inr fits ↦ rw (some_bytes, fits) (place-IsValid r n (ground arith) (ground arith) valid)
    | inl wraps ↦ elim (Bool-cases (leb (ring_slot_count - 1) (r.tail - r.head))) [
      | inl full ↦ rw (some_bytes, wraps, full) valid
      | inr room ↦
          rw (some_bytes, wraps, room)
            (place-IsValid (waste_tail r) n (ground arith) (unfold waste_tail in ground arith)
              (waste_tail-IsValid r (ground arith) (once (ground arith)) valid))
    ]
  ]
]

advance_head-IsValid : (fuel : ℕ) (r : RingAlloc) → IsValid r → IsValid (advance_head fuel r)
unfolding advance_head
advance_head-IsValid zero r valid = valid
advance_head-IsValid (suc fuel) r valid = elim (Bool-cases (leb r.tail r.head)) [
  | inl end ↦ rw end valid
  | inr more ↦ elim (Bool-cases ((slot_at r.slots r.head).refs == 0)) [
    | inr used ↦ rw (more, used) valid
    | inl unused ↦
        rw (more, unused)
          (advance_head-IsValid fuel (record r { head = suc r.head })
            (
              drop-Layout (slot_at r.slots) r.head r.tail r.write r.bcap (ground arith) valid.0,
              omega (arith, valid.1),
            ))
  ]
]

-- A slot in use gets another count.
count-IsValid :
    (r : RingAlloc) (idx refs : ℕ)
    → Live r idx
    → IsValid r
    → IsValid
        (record r { slots = set_slot r.slots idx (record (slot_at r.slots idx) { refs = refs }) })
count-IsValid r idx refs live (layout, room) = (
  Keeps-Layout (count-Keeps r.slots idx _ r.head r.tail live.0 live.1 room refl refl live.2) layout,
  room,
)

pub retain-IsValid : (r : RingAlloc) (idx : ℕ) → Live r idx → IsValid r → IsValid (retain idx r)
unfolding retain
retain-IsValid r idx live valid = count-IsValid r idx _ live valid

pub release-IsValid :
    (r r' : RingAlloc) (idx : ℕ) → Live r idx → IsValid r → release idx r ≡ some r' → IsValid r'
unfolding release
release-IsValid r r' idx live valid e = elim (Bool-cases ((slot_at r.slots idx).refs == 0)) [
  | inl unused ↦ absurd (omega (arith, live.2, (==_iff _ 0).0 unused))
  | inr used ↦
      let s = slot_at r.slots idx in
      let counted = record r { slots = set_slot r.slots idx (record s { refs = s.refs - 1 }) } in
      let first : release idx r ≡ some (advance_head (r.tail - r.head) counted) = rw used refl in
      let same' = some-injective _ _ (sym first ∙ e) in
      rw (sym same')
        (advance_head-IsValid (r.tail - r.head) counted (count-IsValid r idx _ live valid))
]
