-- ===== src/Segmenter/Ring/Limits.antt =====
-- What enforceLimits leaves: a ring within its three limits, behind the packet it began with.
use gomedia.Common.{
  ◌+◌, ◌≤◌, ◌≡◌, refl, ap, ◌∙◌, ◌⊎◌, inl, inr, arith, Bool, true, false, Bool-cases, List, [], ◌∷◌,
  ◌++◌, length, take, drop, get_elem?, not-ltb→le,
}
use gomedia.Segmenter.{Packet}
use gomedia.Segmenter.Ring.{
  RingBuffer, video_duration, drop_packet_at, drop_tail, drop_while, over_bytes, over_duration,
  over_packets, enforce_limits, add,
}

-- A ring with the limits of another one that holds no more of anything, and begins alike.
abbrev pub Shrinks : RingBuffer → RingBuffer → Type 0
Shrinks rb rb' =
    (rb'.bytes ≤ rb.bytes)
    × (rb'.duration ≤ rb.duration)
    × (length rb'.packets ≤ length rb.packets)
    × (rb'.max_bytes ≡ rb.max_bytes)
    × (rb'.hard_cap ≡ rb.hard_cap)
    × (rb'.max_packets ≡ rb.max_packets)
    × (rb'.max_dur ≡ rb.max_dur)
    × (get_elem? rb'.packets 0 ≡ get_elem? rb.packets 0)

Shrinks-refl : (rb : RingBuffer) → Shrinks rb rb
Shrinks-refl rb = (omega arith, omega arith, omega arith, refl, refl, refl, refl, refl)

Shrinks-trans : (a b c : RingBuffer) → Shrinks a b → Shrinks b c → Shrinks a c
Shrinks-trans a b c (y, d, l, my, md, mp, w, h) (y', d', l', my', md', mp', w', h') =
    (omega arith, omega arith, omega arith, my' ∙ my, md' ∙ md, mp' ∙ mp, w' ∙ w, h' ∙ h)

drop_packet_at-Shrinks :
    (rb : RingBuffer) (second : Packet) → Shrinks rb (drop_packet_at second 1 rb)
unfolding drop_packet_at
drop_packet_at-Shrinks rb second =
    (omega arith, omega arith, fewer rb.packets, refl, refl, refl, refl, alike rb.packets)
  where
    fewer : (ps : List Packet) → length (take 1 ps ++ drop 2 ps) ≤ length ps
    fewer [] = omega arith
    fewer (p ∷ []) = omega arith
    fewer (p ∷ q ∷ ps) = omega arith

    alike : (ps : List Packet) → get_elem? (take 1 ps ++ drop 2 ps) 0 ≡ get_elem? ps 0
    alike [] = refl
    alike (p ∷ []) = refl
    alike (p ∷ q ∷ ps) = refl

module _ (over : RingBuffer → Bool) where
  drop_tail-Shrinks : (rest : List Packet) (rb : RingBuffer) → Shrinks rb (drop_tail over rest rb)
  unfolding drop_tail
  drop_tail-Shrinks [] rb = Shrinks-refl rb
  drop_tail-Shrinks (second ∷ rest) rb = elim (Bool-cases (over rb)) [
    | inr fits ↦ rw fits (Shrinks-refl rb)
    | inl more ↦
        let dropped = drop_packet_at second 1 rb in
        rw more (
          Shrinks-trans rb dropped (drop_tail over rest dropped) (drop_packet_at-Shrinks rb second)
            (drop_tail-Shrinks rest dropped))
  ]

  drop_while-Shrinks : (rb : RingBuffer) → Shrinks rb (drop_while over rb)
  unfolding drop_while
  drop_while-Shrinks rb = drop_tail-Shrinks (drop 1 rb.packets) rb

  -- The loop ends where the test fails, or with the first packet alone.
  drop_tail-ends :
      (rest : List Packet) (rb : RingBuffer)
      → drop 1 rb.packets ≡ rest
      → (over (drop_tail over rest rb) ≡ false) ⊎ (length (drop_tail over rest rb).packets ≤ 1)
  unfolding drop_tail
  drop_tail-ends [] rb here = inr (alone rb.packets here)
    where
      alone : (ps : List Packet) → drop 1 ps ≡ [] → length ps ≤ 1
      alone [] e = omega arith
      alone (p ∷ []) e = omega arith
      alone (p ∷ q ∷ ps) e = absurd cc
  drop_tail-ends (second ∷ rest) rb here = elim (Bool-cases (over rb)) [
    | inr fits ↦ rw fits (inl fits)
    | inl more ↦ rw more (
        drop_tail-ends rest (drop_packet_at second 1 rb)
          (unfold drop_packet_at in tail_of rb.packets second rest here))
  ]
    where
      tail_of :
          (ps : List Packet) (second : Packet) (rest : List Packet)
          → drop 1 ps ≡ second ∷ rest
          → drop 1 (take 1 ps ++ drop 2 ps) ≡ rest
      tail_of [] second rest e = absurd cc
      tail_of (p ∷ []) second rest e = absurd cc
      tail_of (p ∷ q ∷ ps) second rest e = ap (drop 1) e

  drop_while-ends :
      (rb : RingBuffer)
      → (over (drop_while over rb) ≡ false) ⊎ (length (drop_while over rb).packets ≤ 1)
  unfolding drop_while
  drop_while-ends rb = drop_tail-ends (drop 1 rb.packets) rb refl

-- A ring within its limits, or with one packet, which is never dropped.
abbrev pub IsLimited : RingBuffer → Type 0
IsLimited rb =
    ((rb.bytes ≤ rb.max_bytes) × (rb.duration ≤ rb.hard_cap) × (length rb.packets ≤ rb.max_packets))
    ⊎ (length rb.packets ≤ 1)

within_bytes : (rb : RingBuffer) → over_bytes rb ≡ false → rb.bytes ≤ rb.max_bytes
unfolding over_bytes
within_bytes rb e = not-ltb→le rb.max_bytes rb.bytes e

within_duration : (rb : RingBuffer) → over_duration rb ≡ false → rb.duration ≤ rb.hard_cap
unfolding over_duration
within_duration rb e = not-ltb→le rb.hard_cap rb.duration e

within_packets : (rb : RingBuffer) → over_packets rb ≡ false → length rb.packets ≤ rb.max_packets
unfolding over_packets
within_packets rb e = not-ltb→le rb.max_packets (length rb.packets) e

pub enforce_limits-Shrinks : (rb : RingBuffer) → Shrinks rb (enforce_limits rb)
unfolding enforce_limits
enforce_limits-Shrinks rb =
    let rb1 = drop_while over_bytes rb in
    let rb2 = drop_while over_duration rb1 in
    Shrinks-trans rb rb1 (enforce_limits rb) (drop_while-Shrinks over_bytes rb) (
      Shrinks-trans rb1 rb2 (enforce_limits rb) (drop_while-Shrinks over_duration rb1)
        (drop_while-Shrinks over_packets rb2))

pub enforce_limits-IsLimited : (rb : RingBuffer) → IsLimited (enforce_limits rb)
unfolding enforce_limits
enforce_limits-IsLimited rb =
    let rb1 = drop_while over_bytes rb in
    let rb2 = drop_while over_duration rb1 in
    let s2 = drop_while-Shrinks over_duration rb1 in
    let s3 = drop_while-Shrinks over_packets rb2 in
    elim (drop_while-ends over_bytes rb) [
      | inr alone ↦ inr (omega arith)
      | inl bytes ↦ elim (drop_while-ends over_duration rb1) [
        | inr alone ↦ inr (omega arith)
        | inl duration ↦ elim (drop_while-ends over_packets rb2) [
          | inr alone ↦ inr alone
          | inl count ↦ inl (
            omega (arith, within_bytes rb1 bytes),
            omega (arith, within_duration rb2 duration),
            within_packets (drop_while over_packets rb2) count,
          )
        ]
      ]
    ]

-- add leaves the ring within its limits, and whatever was dropped, the packet that the ring begins
-- with stays in front.
pub add-IsLimited :
    (p : Packet) (rb : RingBuffer)
    → IsLimited (add p rb) × (get_elem? (add p rb).packets 0 ≡ get_elem? (rb.packets ++ (p ∷ [])) 0)
unfolding add
add-IsLimited p rb =
    let (_, _, _, _, _, _, _, first) = enforce_limits-Shrinks (record rb {
      packets = rb.packets ++ (p ∷ []);
      bytes = rb.bytes + p.len;
      duration = rb.duration + video_duration p;
    }) in
    (enforce_limits-IsLimited _, first)

-- Behind the first packet, what enforceLimits leaves is part of what there was.
module _ (lacks : List Packet → Bool)
    (lacks-tail : (p : Packet) (ps : List Packet) → lacks (p ∷ ps) ≡ true → lacks ps ≡ true) where
  drop_tail-lacks :
      (over : RingBuffer → Bool) (rest : List Packet) (rb : RingBuffer)
      → lacks (drop 1 rb.packets) ≡ true
      → lacks (drop 1 (drop_tail over rest rb).packets) ≡ true
  unfolding drop_tail
  drop_tail-lacks over [] rb e = e
  drop_tail-lacks over (second ∷ rest) rb e = elim (Bool-cases (over rb)) [
    | inr fits ↦ rw fits e
    | inl more ↦ rw more (
        drop_tail-lacks over rest (drop_packet_at second 1 rb)
          (unfold drop_packet_at in without rb.packets e))
  ]
    where
      without :
          (ps : List Packet)
          → lacks (drop 1 ps) ≡ true
          → lacks (drop 1 (take 1 ps ++ drop 2 ps)) ≡ true
      without [] e = e
      without (p ∷ []) e = e
      without (p ∷ q ∷ ps) e = lacks-tail q ps e

  pub enforce_limits-lacks :
      (rb : RingBuffer)
      → lacks (drop 1 rb.packets) ≡ true
      → lacks (drop 1 (enforce_limits rb).packets) ≡ true
  unfolding enforce_limits drop_while
  enforce_limits-lacks rb e =
      let rb1 = drop_while over_bytes rb in
      let rb2 = drop_while over_duration rb1 in
      drop_tail-lacks over_packets (drop 1 rb2.packets) rb2 (
        drop_tail-lacks over_duration (drop 1 rb1.packets) rb1
          (drop_tail-lacks over_bytes (drop 1 rb.packets) rb e))
