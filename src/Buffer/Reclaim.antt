-- ===== src/Buffer/Reclaim.antt =====
-- Release gives back every slot that can be given back.
use gomedia.Common.{
  ℕ, zero, suc, ◌-◌, ◌≤◌, ◌<◌, ◌≡◌, ◌⊎◌, inl, inr, refl, sym, ◌∙◌, arith, Bool-cases, some, leb,
  ◌==◌,
}
use mathlib.Core.Option.{some-injective}
use gomedia.Buffer.{RingAlloc, slot_at, set_slot, advance_head, release}

-- The ring is empty, or its oldest slot is in use.
abbrev pub IsReclaimed : RingAlloc → Type 0
IsReclaimed r = (r.tail ≤ r.head) ⊎ (0 < (slot_at r.slots r.head).refs)

advance_head-IsReclaimed :
    (fuel : ℕ) (r : RingAlloc) → r.tail - r.head ≤ fuel → IsReclaimed (advance_head fuel r)
unfolding advance_head
advance_head-IsReclaimed zero r enough = inl (omega arith)
advance_head-IsReclaimed (suc fuel) r enough = elim (Bool-cases (leb r.tail r.head)) [
  | inl end ↦ rw end (inl (ground arith))
  | inr more ↦ elim (Bool-cases ((slot_at r.slots r.head).refs == 0)) [
    | inr used ↦ rw (more, used) (inr (ground arith))
    | inl unused ↦
        rw (more, unused)
          (advance_head-IsReclaimed fuel (record r { head = suc r.head }) (ground arith))
  ]
]

-- After a Release that does not panic, the ring is empty or its oldest slot is in use: the loop
-- has passed every slot that is done at the head.
pub release-IsReclaimed : (idx : ℕ) (r r' : RingAlloc) → release idx r ≡ some r' → IsReclaimed r'
unfolding release
release-IsReclaimed idx r r' e = elim (Bool-cases ((slot_at r.slots idx).refs == 0)) [
  | inl unused ↦ let e' = (rw unused at e) in absurd cc
  | inr used ↦
      let s = slot_at r.slots idx in
      let counted = record r { slots = set_slot r.slots idx (record s { refs = s.refs - 1 }) } in
      let first : release idx r ≡ some (advance_head (r.tail - r.head) counted) = rw used refl in
      rw (sym (some-injective _ _ (sym first ∙ e)))
        (advance_head-IsReclaimed (r.tail - r.head) counted (omega arith))
]
