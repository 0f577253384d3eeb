-- ===== src/Webrtc/Bounds.antt =====
-- How much a buffer holds after an eviction.
use gomedia.Common.{
  ℕ, zero, suc, ◌-◌, ◌≤◌, ◌<◌, ◌≡◌, inl, inr, ◌⊎◌, refl, sym, arith, Bool-cases, Bool, true, false,
  ◌&&◌, ◌||◌, some, List, [], ◌∷◌, length, ltb, leb, ◌==◌,
}
use mathlib.Core.Path.{subst}
use mathlib.Core.Option.{some-injective}
use gomedia.Common.{weigh, weigh-append, ltb→lt, ◌++◌, ◌+◌}
use gomedia.Webrtc.Weigh.{IsCounting}
use gomedia.Webrtc.{
  held, counted, Packet, Gop, Buffer, drop_gop, adjust_first, adjust_size, shift_packets, drop_gops,
  or_else, shift_single, shift_gop, first_count, adjust_hard_cap,
}

-- The duration is at most the hard cap, or it cannot be brought there without going below it: one
-- GoP is left with at most its key frame, or the GoPs behind the first are shorter than the cap.
unfoldable pub is_capped : List Gop → Buffer → Bool
is_capped [] b = leb b.duration b.hard_cap_duration
is_capped (gop ∷ []) b = leb b.duration b.hard_cap_duration || ltb (length gop.packets) 2
is_capped (gop ∷ next ∷ gops) b =
    leb b.duration b.hard_cap_duration || ltb (b.duration - gop.duration) b.hard_cap_duration

abbrev pub IsCapped : Buffer → Type 0
IsCapped b = is_capped b.gops b ≡ true

shift_gop-IsCapped :
    (left : ℕ) (b : Buffer) (gop : Gop) (packets : List Packet)
    → b.gops ≡ gop ∷ []
    → gop.packets ≡ packets
    → length packets ≤ left
    → IsCapped (shift_gop left b)
unfolding shift_gop shift_single shift_packets or_else is_capped
shift_gop-IsCapped zero b gop packets here p few = rw (here, p) (ground arith)
shift_gop-IsCapped (suc left) b gop [] here p few =
    rw here (elim (Bool-cases (ltb b.hard_cap_duration b.duration)) [
      | inl over ↦ rw (over, p) (ground arith)
      | inr fits ↦ rw fits (ground arith)
    ])
shift_gop-IsCapped (suc left) b gop (only ∷ []) here p few =
    rw here (elim (Bool-cases (ltb b.hard_cap_duration b.duration)) [
      | inl over ↦ rw (over, p) (ground arith)
      | inr fits ↦ rw fits (ground arith)
    ])
shift_gop-IsCapped (suc left) b gop (first ∷ dropped ∷ rest) here p few =
    rw here (elim (Bool-cases (ltb b.hard_cap_duration b.duration)) [
      | inl over ↦ rw (over, p) (shift_gop-IsCapped left _ _ (first ∷ rest) refl refl (omega arith))
      | inr fits ↦ rw fits (ground arith)
    ])

-- Where several GoPs are left, the second loop of adjustHardCap does nothing.
shift_gop-many :
    (left : ℕ) (b : Buffer) (gop next : Gop) (gops : List Gop)
    → b.gops ≡ gop ∷ next ∷ gops
    → shift_gop left b ≡ b
unfolding shift_gop shift_single or_else
shift_gop-many zero b gop next gops here = refl
shift_gop-many (suc left) b gop next gops here = rw here refl

drop_gops-IsCapped :
    (gops : List Gop) (b : Buffer)
    → b.gops ≡ gops
    → 0 < length gops
    → IsCapped (shift_gop (first_count (drop_gops gops b).gops) (drop_gops gops b))
unfolding drop_gops
drop_gops-IsCapped [] b here some_gop = absurd (omega arith)
drop_gops-IsCapped (gop ∷ []) b here some_gop =
    subst (λ gs. IsCapped (shift_gop (first_count gs) b)) (sym here)
      (unfold first_count in
        shift_gop-IsCapped (length gop.packets) b gop gop.packets here refl (omega arith))
drop_gops-IsCapped (gop ∷ next ∷ gops) b here some_gop =
    elim (Bool-cases
      (ltb b.hard_cap_duration b.duration && leb b.hard_cap_duration (b.duration - gop.duration))) [
        | inl over ↦ rw over (
            drop_gops-IsCapped (next ∷ gops) (drop_gop gop (next ∷ gops) b)
              (unfold drop_gop in refl) (omega arith))
        | inr fits ↦ rw fits (
            subst (λ c. IsCapped c) (sym (shift_gop-many (first_count b.gops) b gop next gops here))
              (subst (λ gs. is_capped gs b ≡ true) (sym here) (unfold is_capped in ground arith)))
      ]

-- The loops of adjustHardCap end, and on a buffer with a GoP and a hard cap they leave a duration
-- of at most the cap, or one GoP with at most one packet, or GoPs that are shorter than the cap
-- without the first of them.
pub adjust_hard_cap-IsCapped :
    (b : Buffer) → 0 < b.hard_cap_duration → 0 < length b.gops → IsCapped (adjust_hard_cap b)
unfolding adjust_hard_cap
adjust_hard_cap-IsCapped b cap some_gop =
    let set : b.hard_cap_duration == 0 ≡ false = ground arith in
    rw set (drop_gops-IsCapped b.gops b refl some_gop)

-- What is left of a buffer without its first GoP.
abbrev pub later_packets : List Gop → List Packet
later_packets [] = []
later_packets (gop ∷ gops) = held gops

-- AdjustSize has given back exactly the first GoP and the others last as long as the target, or it
-- has changed nothing and they do not.
abbrev pub IsAdjusted : Buffer → Buffer → Type 0
IsAdjusted b b' =
    ((b' ≡ b) × (weigh counted (later_packets b.gops) < b.target_duration))
    ⊎ ((gop : Gop) × (b.gops ≡ gop ∷ b'.gops)
        × (b'.released ≡ b.released ++ gop.packets)
        × (b.target_duration ≤ weigh counted (held b'.gops)))

adjust_first-IsAdjusted :
    (gops : List Gop) (b b' : Buffer)
    → b.gops ≡ gops
    → IsCounting b
    → adjust_first gops b ≡ some b'
    → IsAdjusted b b'
unfolding adjust_first
adjust_first-IsAdjusted [] b b' here counting e = absurd cc
adjust_first-IsAdjusted (gop ∷ gops) b b' here (sums, sum) e =
    let whole : weigh counted (held (gop ∷ gops))
        ≡ weigh counted gop.packets + weigh counted (held gops) =
      (unfold held in weigh-append counted gop.packets (held gops)) in
    let first = (rw here at sums).0 in
    let all = (rw here at sum) in
    elim (Bool-cases (ltb (b.duration - gop.duration) b.target_duration)) [
      | inl short ↦ inl (
        sym (some-injective _ _ (rw short at e)),
        rw here (ground (arith, short, whole, first, all)),
      )
      | inr long ↦
          let same = some-injective _ _ (rw long at e) in
          inr (
            rw (sym same)
              (unfold drop_gop in (gop, here, refl, ground (arith, long, whole, first, all))))
    ]

-- On a buffer whose durations are the sums over its video packets, where AdjustSize returns, it
-- gives back exactly the packets of the first GoP, if the video of the others lasts as long as the
-- target, and changes nothing if it does not.
pub adjust_size-IsAdjusted :
    (b b' : Buffer) → IsCounting b → adjust_size b ≡ some b' → IsAdjusted b b'
unfolding adjust_size
adjust_size-IsAdjusted b b' counting e = elim (Bool-cases (ltb b.duration b.target_duration)) [
  | inl short ↦ inl (
    sym (some-injective _ _ (rw short at e)),
    omega (arith, counting.1, later_less b.gops, ltb→lt b.duration b.target_duration short),
  )
  | inr long ↦ adjust_first-IsAdjusted b.gops b b' refl counting (rw long at e)
]
  where
    later_less : (gops : List Gop) → weigh counted (later_packets gops) ≤ weigh counted (held gops)
    later_less [] = (unfold held weigh in omega arith)
    later_less (gop ∷ gops) =
        (unfold held in omega (arith, weigh-append counted gop.packets (held gops)))
