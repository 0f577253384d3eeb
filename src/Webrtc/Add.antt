-- ===== src/Webrtc/Add.antt =====
-- AddPacket as a whole: it never panics, and what it does to the packets of a buffer.
use gomedia.Common.{
  weigh, weigh-append, ℕ, ◌+◌, ◌-◌, ◌<◌, ◌≡◌, inl, inr, refl, sym, ◌∙◌, arith, Bool-cases, Bool,
  true, false, ◌&&◌, some, List, [], ◌∷◌, ◌++◌, length, All, ltb, ◌==◌, if◌then◌else◌,
}
use gomedia.Webrtc.{
  Packet, Gop, Buffer, counted, held, drop_gop, adjust_first, adjust_size, adjust_hard_cap,
  append_last, begin_gop, store, accepted, add_packet,
}
use gomedia.Webrtc.Weigh.{held-begin, held-append_last, IsCounted, IsCounting, Conserves, Moves}
use gomedia.Webrtc.Evict.{drop_gop-Moves, adjust_hard_cap-Moves, adjust_hard_cap-keeps}

adjust_first_total :
    (gops : List Gop) (b : Buffer)
    → b.gops ≡ gops
    → 0 < length gops
    → IsCounting b
    → (b' : Buffer) × (adjust_first gops b ≡ some b') × Moves b b'
unfolding adjust_first
adjust_first_total [] b here some_gop counting = absurd (omega arith)
adjust_first_total (gop ∷ gops) b here some_gop counting =
    elim (Bool-cases (ltb (b.duration - gop.duration) b.target_duration)) [
      | inl short ↦ (b, rw short refl, (counting, λ f. refl))
      | inr long ↦ (drop_gop gop gops b, rw long refl, drop_gop-Moves b gop gops here counting)
    ]

adjust_size_total :
    (b : Buffer)
    → 0 < length b.gops
    → IsCounting b
    → (b' : Buffer) × (adjust_size b ≡ some b') × Moves b b'
unfolding adjust_size
adjust_size_total b some_gop counting = elim (Bool-cases (ltb b.duration b.target_duration)) [
  | inl short ↦ (b, rw short refl, (counting, λ f. refl))
  | inr long ↦
      let (b', e, moves) = adjust_first_total b.gops b refl some_gop counting in
      (b', rw long e, moves)
]

IsCounted-begin :
    (gops : List Gop)
    → All IsCounted gops
    → All IsCounted (gops ++ (record { packets = []; duration = 0 } ∷ []))
unfolding weigh
IsCounted-begin [] _ = (refl, tt)
IsCounted-begin (gop ∷ gops) (c, cs) = (c, IsCounted-begin gops cs)

begin_gop-IsCounting : (is_key : Bool) (b : Buffer) → IsCounting b → IsCounting (begin_gop is_key b)
unfolding begin_gop
begin_gop-IsCounting true b (cs, total) =
    (IsCounted-begin b.gops cs, total ∙ sym (held-begin counted b.gops))
begin_gop-IsCounting false b counting = counting

begin_gop-Conserves : (is_key : Bool) (b : Buffer) → Conserves b (begin_gop is_key b)
unfolding begin_gop
begin_gop-Conserves true b f = omega (arith, held-begin f b.gops)
begin_gop-Conserves false b f = refl

append_last-IsCounted :
    (p : Packet) (gops : List Gop) → All IsCounted gops → All IsCounted (append_last p gops)
unfolding append_last
append_last-IsCounted p [] _ = tt
append_last-IsCounted p (gop ∷ []) (c, _) =
    ((unfold weigh in omega (arith, c, weigh-append counted gop.packets (p ∷ []))), tt)
append_last-IsCounted p (gop ∷ next ∷ gops) (c, cs) = (c, append_last-IsCounted p (next ∷ gops) cs)

held-store :
    (f : Packet → ℕ) (p : Packet) (gops : List Gop)
    → 0 < length gops
    → weigh f (held (append_last p gops)) ≡ weigh f (held gops) + f p
held-store f p [] some_gop = absurd (omega arith)
held-store f p (gop ∷ gops) some_gop = held-append_last f p gop gops

append_last-keeps :
    (p : Packet) (gops : List Gop) → 0 < length gops → 0 < length (append_last p gops)
unfolding append_last
append_last-keeps p [] h = h
append_last-keeps p (gop ∷ []) h = omega arith
append_last-keeps p (gop ∷ next ∷ gops) h = omega arith

-- One packet more is held or released.
abbrev pub Gains : Packet → Buffer → Buffer → Type 0
Gains p b b' =
    (f : Packet → ℕ)
    → weigh f (held b'.gops) + weigh f b'.released
      ≡ weigh f (held b.gops) + weigh f b.released + f p

store-Gains : (p : Packet) (b : Buffer) → 0 < length b.gops → Gains p b (store p b)
unfolding store
store-Gains p b some_gop f = omega (arith, held-store f p b.gops some_gop)

store-IsCounting :
    (p : Packet) (b : Buffer) → 0 < length b.gops → IsCounting b → IsCounting (store p b)
unfolding store
store-IsCounting p b some_gop (cs, total) =
    (append_last-IsCounted p b.gops cs, omega (arith, total, held-store counted p b.gops some_gop))

-- What AddPacket does to a buffer, if it keeps the packet and if it does not.
abbrev pub Adds : Packet → Buffer → Bool → Buffer → Type 0
Adds p b kept b' = IsCounting b' × (if kept then Gains p b b' else (b' ≡ b))

last_step :
    (is_key : Bool) (b : Buffer)
    → 0 < length b.gops
    → IsCounting b
    → (b' : Buffer) × ((if is_key then adjust_size b else some b) ≡ some b') × Moves b b'
last_step true b some_gop counting = adjust_size_total b some_gop counting
last_step false b some_gop counting = (b, refl, (counting, λ f. refl))

-- On a buffer whose durations are the sums over its video packets, AddPacket returns without a
-- panic, and leaves such a buffer. A packet that it does not keep changes nothing. With one that
-- it keeps, every packet is in the buffer or released as often as before, and the new one once
-- more: no packet is lost, and none is released twice.
pub add_packet-IsCounting :
    (p : Packet) (b : Buffer)
    → IsCounting b
    → (kept : Bool) × (b' : Buffer) × (add_packet p b ≡ some (kept, b')) × Adds p b kept b'
unfolding add_packet
add_packet-IsCounting p b counting =
    let is_key = p.is_video && p.is_key_frame in
    let begun = begin_gop is_key b in
    elim (Bool-cases (length begun.gops == 0)) [
      | inl waiting ↦ (false, b, rw waiting refl, (counting, refl))
      | inr some_gop ↦
          let counting' = begin_gop-IsCounting is_key b counting in
          let stored = store p begun in
          let left : 0 < length stored.gops =
            (unfold store in append_last-keeps p begun.gops (ground arith)) in
          let (counting'', capped) =
            adjust_hard_cap-Moves stored (store-IsCounting p begun (ground arith) counting') in
          let (b', e, (counts, sized)) =
            last_step is_key (adjust_hard_cap stored) (adjust_hard_cap-keeps stored left)
              counting'' in
          (
            true,
            b',
            rw (some_gop, e) (unfold accepted in refl),
            (
              counts,
              λ f. omega (
                arith,
                sized f,
                capped f,
                store-Gains p begun (ground arith) f,
                begin_gop-Conserves is_key b f,
              ),
            ),
          )
    ]
