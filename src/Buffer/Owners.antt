-- ===== src/Buffer/Owners.antt =====
-- Who holds the slots of a ring: the references that the callers of its methods have, by the index
-- of the handle, and that the counts of the ring are these.
use gomedia.Common.{
  ℕ, zero, suc, ◌+◌, ◌-◌, ◌≤◌, ◌<◌, ◌≡◌, inl, inr, refl, sym, ap, ◌∙◌, arith, Bool-cases, false,
  ◌||◌, not, Option, none, some, leb, ltb, ◌==◌, ==_iff, if◌then◌else◌,
}
use mathlib.Core.Option.{some-injective}
use gomedia.Buffer.{
  Slot, RingAlloc, ring_slot_count, slot_at, set_slot, refused, waste_tail, take_slot, place, alloc,
  grow_slot, extend, retain, advance_head, release,
}
use gomedia.Buffer.Layout.{Layout, straight, wrapped}
use gomedia.Buffer.Valid.{IsValid, Live, set_slot-same, set_slot-other}

abbrev pub Owners : Type 0
Owners = ℕ → ℕ

-- The references to a handle are so many now.
unfoldable pub give : ℕ → ℕ → Owners → Owners
give idx v own i = if i == idx then v else own i

-- Alloc hands out one reference, if it serves the request.
unfoldable pub granted : Option ℕ → Owners → Owners
granted none own = own
granted (some idx) own = give idx 1 own

-- A handle with a reference is in the ring, and its slot counts the references.
abbrev pub Tracks : RingAlloc → Owners → Type 0
Tracks r own =
    (i : ℕ) → 0 < own i → (r.head ≤ i) × (i < r.tail) × ((slot_at r.slots i).refs ≡ own i)

pub Tracks-Live : (r : RingAlloc) (own : Owners) (i : ℕ) → Tracks r own → 0 < own i → Live r i
Tracks-Live r own i tracks held =
    let (from, below, count) = tracks i held in (from, below, omega arith)

give-same : (idx v : ℕ) (own : Owners) → give idx v own idx ≡ v
unfolding give
give-same idx v own = ground arith

give-other : (idx v i : ℕ) (own : Owners) → i == idx ≡ false → give idx v own i ≡ own i
unfolding give
give-other idx v i own other = rw other refl

in_order : (s : ℕ → Slot) (h t w c : ℕ) → Layout s h t w c → h ≤ t
in_order s h t w c (straight a b e o) = a
in_order s h t w c (wrapped k a b d e o e' o') = omega arith

module _ (r : RingAlloc) (own : Owners) (s : Slot) (w : ℕ) where
  -- A slot more at the end, which may be handed out.
  push-Tracks :
      r.tail < r.head + ring_slot_count
      → Tracks r own
      → Tracks (record r { write = w; tail = suc r.tail; slots = set_slot r.slots r.tail s }) own
  push-Tracks room tracks i held =
      let (from, below, count) = tracks i held in
      let kept = set_slot-other r.slots r.tail s i (ground arith) in
      (from, omega arith, ap (λ t. t.refs) kept ∙ count)

  push-granted :
      r.head ≤ r.tail
      → r.tail < r.head + ring_slot_count
      → s.refs ≡ 1
      → Tracks r own
      → Tracks
          (record r { write = w; tail = suc r.tail; slots = set_slot r.slots r.tail s })
          (give r.tail 1 own)
  push-granted ordered room one tracks i held = elim (Bool-cases (i == r.tail)) [
    | inl same ↦
        let e : i ≡ r.tail = (==_iff i r.tail).0 same in
        rw e (
          ordered,
          omega arith,
          ap (λ t. t.refs) (set_slot-same r.slots r.tail s) ∙ one ∙ sym (give-same r.tail 1 own),
        )
    | inr other ↦
        let before = give-other r.tail 1 i own other in
        let (from, below, count) = push-Tracks room tracks i (omega arith) in
        (from, below, count ∙ sym before)
  ]

  -- A slot that is held changes, and with it the references to it.
  set-Tracks :
      (own' : Owners) (idx : ℕ)
      → r.tail ≤ r.head + ring_slot_count
      → 0 < own idx
      → own' idx ≡ s.refs
      → ((i : ℕ) → i == idx ≡ false → own' i ≡ own i)
      → Tracks r own
      → Tracks (record r { write = w; slots = set_slot r.slots idx s }) own'
  set-Tracks own' idx room held' count' others tracks i held = elim (Bool-cases (i == idx)) [
    | inl same ↦
        let e : i ≡ idx = (==_iff i idx).0 same in
        let (from, below, count) = tracks idx held' in
        rw e (from, below, ap (λ t. t.refs) (set_slot-same r.slots idx s) ∙ sym count')
    | inr other ↦
        let before = others i other in
        let (from, below, count) = tracks i (omega arith) in
        let (from', below', _) = tracks idx held' in
        let kept = set_slot-other r.slots idx s i (ground arith) in
        (from, below, ap (λ t. t.refs) kept ∙ count ∙ sym before)
  ]

place-Tracks :
    (n : ℕ) (r : RingAlloc) (own : Owners)
    → r.head ≤ r.tail
    → Tracks r own
    → Tracks (place n r).1 (granted (place n r).0 own)
unfolding place granted take_slot
place-Tracks n r own ordered tracks =
    elim (Bool-cases (refused r n || leb ring_slot_count (r.tail - r.head))) [
      | inl refuses ↦ rw refuses tracks
      | inr places ↦ rw places (
          push-granted r own (record { start = r.write; end = r.write + n; refs = 1 }) (r.write + n)
            ordered (ground (arith, places)) refl tracks)
    ]

pub alloc-Tracks :
    (n : ℕ) (r : RingAlloc) (own : Owners)
    → IsValid r
    → Tracks r own
    → Tracks (alloc n r).1 (granted (alloc n r).0 own)
unfolding alloc
alloc-Tracks n r own (layout, _) tracks =
    let ordered = in_order (slot_at r.slots) r.head r.tail r.write r.bcap layout in
    elim (Bool-cases (n == 0 || ltb r.bcap n)) [
      | inl refuses ↦ rw refuses (unfold granted in tracks)
      | inr some_bytes ↦ elim (Bool-cases (ltb r.bcap (r.write + n))) [
        | inr fits ↦ rw (some_bytes, fits) (place-Tracks n r own ordered tracks)
        | inl wraps ↦ elim (Bool-cases (leb (ring_slot_count - 1) (r.tail - r.head))) [
          | inl full ↦ rw (some_bytes, wraps, full) (unfold granted in tracks)
          | inr room ↦
              rw (some_bytes, wraps, room)
                (place-Tracks n (waste_tail r) own (unfold waste_tail in omega arith) (
                  unfold waste_tail in
                  push-Tracks r own (record { start = r.write; end = r.bcap; refs = 0 }) 0
                    (ground (arith, room)) tracks))
        ]
      ]
    ]

pub extend-Tracks :
    (idx n : ℕ) (r : RingAlloc) (own : Owners)
    → IsValid r
    → 0 < own idx
    → Tracks r own
    → Tracks (extend idx n r).1 own
unfolding extend grow_slot
extend-Tracks idx n r own (_, room) held tracks =
    elim (Bool-cases (
      n == 0
      || not (r.write == (slot_at r.slots idx).end)
      || ltb r.bcap (r.write + n)
      || refused r n)) [
        | inl refuses ↦ rw refuses tracks
        | inr grows ↦
            let (_, _, count) = tracks idx held in
            rw grows (
              set-Tracks r own (record (slot_at r.slots idx) { end = r.write + n }) (r.write + n)
                own idx room held (sym count) (λ i _. refl) tracks)
      ]

pub retain-Tracks :
    (idx : ℕ) (r : RingAlloc) (own : Owners)
    → IsValid r
    → 0 < own idx
    → Tracks r own
    → Tracks (retain idx r) (give idx (own idx + 1) own)
unfolding retain
retain-Tracks idx r own (_, room) held tracks =
    let (_, _, count) = tracks idx held in
    set-Tracks r own (record (slot_at r.slots idx) { refs = (slot_at r.slots idx).refs + 1 })
      r.write (give idx (own idx + 1) own) idx room held
      (give-same idx (own idx + 1) own ∙ ap (λ k. k + 1) (sym count))
      (λ i other. give-other idx (own idx + 1) i own other) tracks

-- The loop of Release passes no slot that is held.
advance_head-Tracks :
    (fuel : ℕ) (r : RingAlloc) (own : Owners) → Tracks r own → Tracks (advance_head fuel r) own
unfolding advance_head
advance_head-Tracks zero r own tracks = tracks
advance_head-Tracks (suc fuel) r own tracks = elim (Bool-cases (leb r.tail r.head)) [
  | inl end ↦ rw end tracks
  | inr more ↦ elim (Bool-cases ((slot_at r.slots r.head).refs == 0)) [
    | inr used ↦ rw (more, used) tracks
    | inl unused ↦
        rw (more, unused)
          (advance_head-Tracks fuel (record r { head = suc r.head }) own
            (λ i held.
              let (from, below, count) = tracks i held in
              (behind i held from count ((==_iff _ 0).0 unused), below, count)))
  ]
]
  where
    behind :
        (i : ℕ)
        → 0 < own i
        → r.head ≤ i
        → (slot_at r.slots i).refs ≡ own i
        → (slot_at r.slots r.head).refs ≡ 0
        → suc r.head ≤ i
    behind i held from count unused = elim (Bool-cases (i == r.head)) [
      | inl same ↦
          let e = ap (λ k. (slot_at r.slots k).refs) ((==_iff i r.head).0 same) in
          absurd (omega arith)
      | inr other ↦ ground (arith, other)
    ]

pub release-Tracks :
    (idx : ℕ) (r r' : RingAlloc) (own : Owners)
    → IsValid r
    → 0 < own idx
    → Tracks r own
    → release idx r ≡ some r'
    → Tracks r' (give idx (own idx - 1) own)
unfolding release
release-Tracks idx r r' own (_, room) held tracks e =
    elim (Bool-cases ((slot_at r.slots idx).refs == 0)) [
      | inl unused ↦ let e' = (rw unused at e) in absurd cc
      | inr used ↦
          let s = slot_at r.slots idx in
          let (_, _, count) = tracks idx held in
          let counted = record r {
            slots = set_slot r.slots idx (record s { refs = s.refs - 1 });
          } in
          let first : release idx r ≡ some (advance_head (r.tail - r.head) counted) =
            rw used refl in
          rw (sym (some-injective _ _ (sym first ∙ e))) (
            advance_head-Tracks (r.tail - r.head) counted (give idx (own idx - 1) own) (
              set-Tracks r own (record s { refs = s.refs - 1 }) r.write (give idx (own idx - 1) own)
                idx room held (give-same idx (own idx - 1) own ∙ ap (λ k. k - 1) (sym count))
                (λ i other. give-other idx (own idx - 1) i own other) tracks))
    ]
