-- ===== src/Segmenter/Ring/Sums.antt =====
-- The ring's bytes and duration are sums over its packets, and no packet is lost.
use gomedia.Common.{
  ℕ, zero, suc, ◌+◌, ◌≡◌, refl, sym, ap, ◌∙◌, inl, inr, arith, Bool, Bool-cases, Option, none, some,
  List, [], ◌∷◌, ◌++◌, length, take, drop, ltb, ◌&&◌, take-append-drop, weigh, weigh-append,
}
use mathlib.Core.Option.{some-injective}
use gomedia.Segmenter.{Packet}
use gomedia.Segmenter.Ring.{
  RingBuffer, video_duration, drop_packet_at, drop_tail, drop_while, over_bytes, over_duration,
  over_packets, enforce_limits, add, first_key, cut_at, trim_round, trim_more, trim_loop, trim,
}

abbrev pub IsCounting : RingBuffer → Type 0
IsCounting rb =
    (rb.bytes ≡ weigh (λ p. p.len) rb.packets) × (rb.duration ≡ weigh video_duration rb.packets)

-- The packets in the ring and those that it has released.
abbrev pub total : (Packet → ℕ) → RingBuffer → ℕ
total f rb = weigh f rb.packets + weigh f rb.released

abbrev pub Moves : RingBuffer → RingBuffer → Type 0
Moves rb rb' = IsCounting rb' × ((f : Packet → ℕ) → total f rb' ≡ total f rb)

pub Moves-trans : (a b c : RingBuffer) → Moves a b → Moves b c → Moves a c
Moves-trans a b c (_, m) (counting, m') = (counting, λ f. m' f ∙ m f)

-- The packets but the second of a list.
pub drop_packet_at-Moves :
    (rb : RingBuffer) (first second : Packet) (rest : List Packet)
    → rb.packets ≡ first ∷ second ∷ rest
    → IsCounting rb
    → Moves rb (drop_packet_at second 1 rb)
unfolding drop_packet_at weigh
drop_packet_at-Moves rb first second rest here (bytes, duration) = (
  (
    omega (arith, here_sum (λ p. p.len), left (λ p. p.len), bytes),
    omega (arith, here_sum video_duration, left video_duration, duration),
  ),
  λ f. omega (arith, here_sum f, left f, weigh-append f rb.released (second ∷ [])),
)
  where
    here_sum : (f : Packet → ℕ) → weigh f rb.packets ≡ f first + (f second + weigh f rest)
    here_sum f = rw here (unfold weigh in refl)

    left :
        (f : Packet → ℕ) → weigh f (take 1 rb.packets ++ drop 2 rb.packets) ≡ f first + weigh f rest
    left f = rw here (unfold weigh in refl)

-- A loop under an invariant of the ring that a dropped packet keeps.
module _ (over : RingBuffer → Bool) (first : Packet) where
  pub drop_tail-Moves :
      (rest : List Packet) (rb : RingBuffer)
      → rb.packets ≡ first ∷ rest
      → IsCounting rb
      → Moves rb (drop_tail over rest rb)
  unfolding drop_tail
  drop_tail-Moves [] rb here counting = (counting, λ f. refl)
  drop_tail-Moves (second ∷ rest) rb here counting = elim (Bool-cases (over rb)) [
    | inr fits ↦ rw fits (counting, λ f. refl)
    | inl more ↦
        let dropped = drop_packet_at second 1 rb in
        let moved = drop_packet_at-Moves rb first second rest here counting in
        rw more (
          Moves-trans rb dropped (drop_tail over rest dropped) moved
            (drop_tail-Moves rest dropped (unfold drop_packet_at in rw here refl) moved.0))
  ]

pub drop_while-Moves :
    (over : RingBuffer → Bool) (rb : RingBuffer) → IsCounting rb → Moves rb (drop_while over rb)
unfolding drop_while
drop_while-Moves over rb counting = go rb.packets refl
  where
    go : (ps : List Packet) → rb.packets ≡ ps → Moves rb (drop_tail over (drop 1 ps) rb)
    go [] here = unfold drop_tail in (counting, λ f. refl)
    go (first ∷ rest) here = drop_tail-Moves over first rest rb here counting

pub enforce_limits-Moves : (rb : RingBuffer) → IsCounting rb → Moves rb (enforce_limits rb)
unfolding enforce_limits
enforce_limits-Moves rb counting =
    let rb1 = drop_while over_bytes rb in
    let rb2 = drop_while over_duration rb1 in
    let moved1 = drop_while-Moves over_bytes rb counting in
    let moved2 = drop_while-Moves over_duration rb1 moved1.0 in
    let moved3 = drop_while-Moves over_packets rb2 moved2.0 in
    Moves-trans rb rb1 (enforce_limits rb) moved1
      (Moves-trans rb1 rb2 (enforce_limits rb) moved2 moved3)

pub add-IsCounting :
    (p : Packet) (rb : RingBuffer)
    → IsCounting rb
    → IsCounting (add p rb) × ((f : Packet → ℕ) → total f (add p rb) ≡ total f rb + f p)
unfolding add
add-IsCounting p rb (bytes, duration) =
    let moved = enforce_limits-Moves added (
      unfold weigh in omega (arith, weigh-append (λ q. q.len) rb.packets (p ∷ []), bytes),
      unfold weigh in omega (arith, weigh-append video_duration rb.packets (p ∷ []), duration),
    ) in
    (moved.0, λ f. moved.1 f ∙ (unfold weigh in omega (arith, weigh-append f rb.packets (p ∷ []))))
  where
    added : RingBuffer
    added = record rb {
      packets = rb.packets ++ (p ∷ []);
      bytes = rb.bytes + p.len;
      duration = rb.duration + video_duration p;
    }

-- A round of trim.
cut_at-Moves :
    (cut : Option ℕ) (rb rb' : RingBuffer) → IsCounting rb → cut_at cut rb ≡ some rb' → Moves rb rb'
unfolding cut_at
cut_at-Moves none rb rb' counting e = absurd cc
cut_at-Moves (some i) rb rb' (bytes, duration) e = rw (sym (some-injective _ _ e)) (
  (omega (arith, parts (λ p. p.len), bytes), omega (arith, parts video_duration, duration)),
  λ f. omega (arith, parts f, weigh-append f rb.released (take (suc i) rb.packets)),
)
  where
    parts :
        (f : Packet → ℕ)
        → weigh f rb.packets ≡ weigh f (take (suc i) rb.packets) + weigh f (drop (suc i) rb.packets)
    parts f =
        ap (weigh f) (sym (take-append-drop (suc i) rb.packets))
        ∙ weigh-append f (take (suc i) rb.packets) (drop (suc i) rb.packets)

trim_round-Moves : (rb rb' : RingBuffer) → IsCounting rb → trim_round rb ≡ some rb' → Moves rb rb'
unfolding trim_round
trim_round-Moves rb rb' counting e =
    elim (Bool-cases (ltb 1 (length rb.packets) && ltb rb.max_dur rb.duration)) [
      | inl long ↦ cut_at-Moves (first_key (drop 1 rb.packets)) rb rb' counting (rw long at e)
      | inr short ↦ let e' = (rw short at e) in absurd cc
    ]

trim_loop-Moves : (fuel : ℕ) (rb : RingBuffer) → IsCounting rb → Moves rb (trim_loop fuel rb)
unfolding trim_loop trim_more
trim_loop-Moves zero rb counting = (counting, λ f. refl)
trim_loop-Moves (suc fuel) rb counting =
    go (trim_round rb) refl (λ rb' counting'. trim_loop-Moves fuel rb' counting')
  where
    go :
        (cut : Option RingBuffer)
        → trim_round rb ≡ cut
        → ((rb' : RingBuffer) → IsCounting rb' → Moves rb' (trim_loop fuel rb'))
        → Moves rb (trim_more cut (trim_loop fuel) rb)
    go none e more = (counting, λ f. refl)
    go (some rb') e more =
        let moved = trim_round-Moves rb rb' counting e in
        Moves-trans rb rb' (trim_loop fuel rb') moved (more rb' moved.0)

pub trim-Moves : (rb : RingBuffer) → IsCounting rb → Moves rb (trim rb)
unfolding trim
trim-Moves rb counting =
    let trimmed = trim_loop (length rb.packets) rb in
    let moved = trim_loop-Moves (length rb.packets) rb counting in
    Moves-trans rb trimmed (enforce_limits trimmed) moved (enforce_limits-Moves trimmed moved.0)
