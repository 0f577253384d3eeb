-- ===== src/Webrtc/Evict.antt =====
-- Packets that leave a buffer: its durations stay sums, and no packet is lost or released twice.
use gomedia.Common.{
  ℕ, zero, suc, ◌+◌, ◌-◌, ◌<◌, ◌≡◌, inl, inr, refl, sym, ◌∙◌, arith, Bool-cases, ◌&&◌, Option, none,
  some, List, [], ◌∷◌, length, All, ltb, leb, ◌==◌, weigh, weigh-append,
}
use mathlib.Core.Path.{subst}
use mathlib.Core.Option.{some-injective}
use gomedia.Webrtc.{
  Packet, Gop, Buffer, counted, held, drop_gop, shift_packets, drop_gops, or_else, shift_single,
  shift_gop, first_count, adjust_hard_cap,
}
use gomedia.Webrtc.Weigh.{IsCounted, IsCounting, Moves}

pub Moves-trans : (b b' b'' : Buffer) → Moves b b' → Moves b' b'' → Moves b b''
Moves-trans b b' b'' (_, m) (c, m') = (c, λ f. m' f ∙ m f)

module _ (b : Buffer) (gop : Gop) (gops : List Gop) (here : b.gops ≡ gop ∷ gops)
    (counting : IsCounting b) where
  sum_here : (f : Packet → ℕ) → weigh f (held b.gops) ≡ weigh f gop.packets + weigh f (held gops)
  sum_here f = rw here (unfold held in weigh-append f gop.packets (held gops))

  IsCounted-here : All IsCounted (gop ∷ gops)
  IsCounted-here = subst (λ gs. All IsCounted gs) here counting.0

  pub drop_gop-Moves : Moves b (drop_gop gop gops b)
  unfolding drop_gop
  drop_gop-Moves = (
    (IsCounted-here.1, omega (arith, IsCounted-here.0, counting.1, sum_here counted)),
    λ f. omega (arith, sum_here f, weigh-append f b.released gop.packets),
  )

  shift_packets-Moves :
      (packets : List Packet) (b' : Buffer)
      → gop.packets ≡ packets
      → shift_packets packets gop gops b ≡ some b'
      → Moves b b'
  unfolding shift_packets
  shift_packets-Moves [] b' p e = absurd cc
  shift_packets-Moves (only ∷ []) b' p e = absurd cc
  shift_packets-Moves (first ∷ dropped ∷ rest) b' p e = rw (sym (some-injective _ _ e)) (
    (
      (unfold weigh in omega (arith, sum counted, IsCounted-here.0), IsCounted-here.1),
      unfold held weigh in
          omega (
            arith,
            sum counted,
            counting.1,
            sum_here counted,
            weigh-append counted (first ∷ rest) (held gops),
          ),
    ),
    (λ f.
        unfold held weigh in
        omega (
          arith,
          sum f,
          sum_here f,
          weigh-append f b.released (dropped ∷ []),
          weigh-append f (first ∷ rest) (held gops),
        )),
  )
    where
      sum : (f : Packet → ℕ) → weigh f gop.packets ≡ f first + (f dropped + weigh f rest)
      sum f = rw p (unfold weigh in refl)

-- The loop over the GoPs leaves the last one in place.
drop_gops-Moves :
    (gops : List Gop) (b : Buffer) → b.gops ≡ gops → IsCounting b → Moves b (drop_gops gops b)
unfolding drop_gops
drop_gops-Moves [] b here counting = (counting, λ f. refl)
drop_gops-Moves (gop ∷ []) b here counting = (counting, λ f. refl)
drop_gops-Moves (gop ∷ next ∷ gops) b here counting =
    elim (Bool-cases
      (ltb b.hard_cap_duration b.duration && leb b.hard_cap_duration (b.duration - gop.duration))) [
        | inr fits ↦ rw fits (counting, λ f. refl)
        | inl over ↦
            let dropped = drop_gop gop (next ∷ gops) b in
            let moved = drop_gop-Moves b gop (next ∷ gops) here counting in
            rw over (
              Moves-trans b dropped (drop_gops (next ∷ gops) dropped) moved
                (drop_gops-Moves (next ∷ gops) dropped (unfold drop_gop in refl) moved.0))
      ]

shift_single-Moves :
    (gops : List Gop) (b b' : Buffer)
    → b.gops ≡ gops
    → IsCounting b
    → shift_single gops b ≡ some b'
    → Moves b b'
unfolding shift_single
shift_single-Moves [] b b' here counting e = absurd cc
shift_single-Moves (gop ∷ next ∷ gops) b b' here counting e = absurd cc
shift_single-Moves (gop ∷ []) b b' here counting e =
    elim (Bool-cases (ltb b.hard_cap_duration b.duration)) [
      | inr fits ↦ let e' = (rw fits at e) in absurd cc
      | inl over ↦ shift_packets-Moves b gop [] here counting gop.packets b' refl (rw over at e)
    ]

shift_gop-Moves : (left : ℕ) (b : Buffer) → IsCounting b → Moves b (shift_gop left b)
unfolding shift_gop or_else
shift_gop-Moves zero b counting = (counting, λ f. refl)
shift_gop-Moves (suc left) b counting =
    go (shift_single b.gops b) refl (λ b' counting'. shift_gop-Moves left b' counting')
  where
    go :
        (answer : Option Buffer)
        → shift_single b.gops b ≡ answer
        → ((b' : Buffer) → IsCounting b' → Moves b' (shift_gop left b'))
        → Moves b (or_else answer (shift_gop left) b)
    go none e more = (counting, λ f. refl)
    go (some b') e more =
        let moved = shift_single-Moves b.gops b b' refl counting e in
        Moves-trans b b' (shift_gop left b') moved (more b' moved.0)

pub adjust_hard_cap-Moves : (b : Buffer) → IsCounting b → Moves b (adjust_hard_cap b)
unfolding adjust_hard_cap
adjust_hard_cap-Moves b counting = elim (Bool-cases (b.hard_cap_duration == 0)) [
  | inl no_cap ↦ rw no_cap (counting, λ f. refl)
  | inr cap ↦
      let moved = drop_gops-Moves b.gops b refl counting in
      let b' = drop_gops b.gops b in
      let left = first_count b'.gops in
      rw cap (Moves-trans b b' (shift_gop left b') moved (shift_gop-Moves left b' moved.0))
]

-- A GoP is left at least.
module _ (gop : Gop) (gops : List Gop) where
  shift_packets-keeps :
      (packets : List Packet) (b b' : Buffer)
      → shift_packets packets gop gops b ≡ some b'
      → 0 < length b'.gops
  unfolding shift_packets
  shift_packets-keeps [] b b' e = absurd cc
  shift_packets-keeps (only ∷ []) b b' e = absurd cc
  shift_packets-keeps (first ∷ dropped ∷ rest) b b' e =
      rw (sym (some-injective _ _ e)) (omega arith)

shift_single-keeps :
    (gops : List Gop) (b b' : Buffer) → shift_single gops b ≡ some b' → 0 < length b'.gops
unfolding shift_single
shift_single-keeps [] b b' e = absurd cc
shift_single-keeps (gop ∷ next ∷ gops) b b' e = absurd cc
shift_single-keeps (gop ∷ []) b b' e = elim (Bool-cases (ltb b.hard_cap_duration b.duration)) [
  | inr fits ↦ let e' = (rw fits at e) in absurd cc
  | inl over ↦ shift_packets-keeps gop [] gop.packets b b' (rw over at e)
]

shift_gop-keeps : (left : ℕ) (b : Buffer) → 0 < length b.gops → 0 < length (shift_gop left b).gops
unfolding shift_gop or_else
shift_gop-keeps zero b some_gop = some_gop
shift_gop-keeps (suc left) b some_gop =
    go (shift_single b.gops b) refl (λ b' some_gop'. shift_gop-keeps left b' some_gop')
  where
    go :
        (answer : Option Buffer)
        → shift_single b.gops b ≡ answer
        → ((b' : Buffer) → 0 < length b'.gops → 0 < length (shift_gop left b').gops)
        → 0 < length (or_else answer (shift_gop left) b).gops
    go none e more = some_gop
    go (some b') e more = more b' (shift_single-keeps b.gops b b' e)

drop_gops-keeps :
    (gops : List Gop) (b : Buffer) → 0 < length b.gops → 0 < length (drop_gops gops b).gops
unfolding drop_gops
drop_gops-keeps [] b some_gop = some_gop
drop_gops-keeps (gop ∷ []) b some_gop = some_gop
drop_gops-keeps (gop ∷ next ∷ gops) b some_gop =
    elim (Bool-cases
      (ltb b.hard_cap_duration b.duration && leb b.hard_cap_duration (b.duration - gop.duration))) [
        | inr fits ↦ rw fits some_gop
        | inl over ↦ rw over (
            drop_gops-keeps (next ∷ gops) (drop_gop gop (next ∷ gops) b)
              (unfold drop_gop in omega arith))
      ]

pub adjust_hard_cap-keeps : (b : Buffer) → 0 < length b.gops → 0 < length (adjust_hard_cap b).gops
unfolding adjust_hard_cap
adjust_hard_cap-keeps b some_gop = elim (Bool-cases (b.hard_cap_duration == 0)) [
  | inl no_cap ↦ rw no_cap some_gop
  | inr cap ↦
      let b' = drop_gops b.gops b in
      rw cap (shift_gop-keeps (first_count b'.gops) b' (drop_gops-keeps b.gops b some_gop))
]
