-- ===== src/Webrtc/Seek.antt =====
-- Which packets GetBuffer hands to a viewer that joins at a time.
use gomedia.Common.{
  ℕ, ◌≤◌, ◌<◌, ◌≡◌, inl, inr, refl, sym, ap, ◌∙◌, arith, Bool-cases, true, false, List, [], ◌∷◌,
  ◌++◌, length, All, ltb, leb, if◌then◌else◌,
}
use gomedia.Webrtc.{
  Packet, Gop, Buffer, held, begins_after, first_after, rest_of, start_at, get_buffer,
}

abbrev pub begins_at : List Packet → ℕ
begins_at [] = 0
begins_at (p ∷ ps) = p.start_time

abbrev pub From : ℕ → List Packet → Type 0
From ts ps = All (λ p. ts ≤ p.start_time) ps

-- No packet of a GoP starts before the first one.
abbrev pub Opens : Gop → Type 0
Opens gop = (0 < length gop.packets) × From (begins_at gop.packets) gop.packets

-- And each starts before the next GoP.
unfoldable pub InOrder : List Gop → Type 0
InOrder [] = Unit
InOrder (gop ∷ []) = Opens gop
InOrder (gop ∷ next ∷ gops) =
    Opens gop × All (λ p. p.start_time < begins_at next.packets) gop.packets × InOrder (next ∷ gops)

rest_of-append :
    (ts : ℕ) (ps qs : List Packet) → rest_of ts (ps ++ qs) ≡ rest_of ts ps ++ rest_of ts qs
unfolding rest_of
rest_of-append ts [] qs = refl
rest_of-append ts (p ∷ ps) qs = elim (Bool-cases (ltb p.start_time ts)) [
  | inl early ↦ rw early (rest_of-append ts ps qs)
  | inr late ↦ rw late (ap (λ rest. p ∷ rest) (rest_of-append ts ps qs))
]

rest_of-From : (ts low : ℕ) (ps : List Packet) → ts ≤ low → From low ps → rest_of ts ps ≡ ps
unfolding rest_of
rest_of-From ts low [] le _ = refl
rest_of-From ts low (p ∷ ps) le (h, hs) =
    let late : ltb p.start_time ts ≡ false = ground arith in
    rw late (ap (λ rest. p ∷ rest) (rest_of-From ts low ps le hs))

rest_of-before :
    (ts high : ℕ) (ps : List Packet)
    → high ≤ ts
    → All (λ p. p.start_time < high) ps
    → rest_of ts ps ≡ []
unfolding rest_of
rest_of-before ts high [] le _ = refl
rest_of-before ts high (p ∷ ps) le (h, hs) =
    let early : ltb p.start_time ts ≡ true = ground arith in
    rw early (rest_of-before ts high ps le hs)

begins_before :
    (gop next : Gop)
    → Opens gop
    → All (λ p. p.start_time < begins_at next.packets) gop.packets
    → begins_at gop.packets < begins_at next.packets
begins_before gop next opens before = go gop.packets opens.0 before
  where
    go :
        (ps : List Packet)
        → 0 < length ps
        → All (λ p. p.start_time < begins_at next.packets) ps
        → begins_at ps < begins_at next.packets
    go [] some_packet _ = absurd (omega arith)
    go (p ∷ ps) some_packet (h, _) = h

-- GoPs that begin after a time are kept whole.
rest_of-later :
    (ts : ℕ) (gop : Gop) (gops : List Gop)
    → InOrder (gop ∷ gops)
    → ts < begins_at gop.packets
    → rest_of ts (held (gop ∷ gops)) ≡ held (gop ∷ gops)
unfolding held InOrder
rest_of-later ts gop [] opens lt =
    rest_of-append ts gop.packets []
    ∙ ap (λ ps. ps ++ rest_of ts []) (rest_of-From ts _ gop.packets (omega arith) opens.1)
    ∙ (unfold rest_of in refl)
rest_of-later ts gop (next ∷ gops) (opens, before, order) lt =
    let after = begins_before gop next opens before in
    rest_of-append ts gop.packets (held (next ∷ gops))
    ∙ ap (λ ps. ps ++ rest_of ts (held (next ∷ gops)))
        (rest_of-From ts _ gop.packets (omega arith) opens.1)
    ∙ ap (λ ps. gop.packets ++ ps) (rest_of-later ts next gops order (omega arith))

after_lem : (ts : ℕ) (ps : List Packet) → begins_after ts ps ≡ true → ts < begins_at ps
unfolding begins_after
after_lem ts [] h = absurd cc
after_lem ts (p ∷ ps) h = ground arith

not_after_lem :
    (ts : ℕ) (ps : List Packet) → 0 < length ps → begins_after ts ps ≡ false → begins_at ps ≤ ts
unfolding begins_after
not_after_lem ts [] some_packet h = absurd (omega arith)
not_after_lem ts (p ∷ ps) some_packet h = ground arith

next-Opens : (next : Gop) (gops : List Gop) → InOrder (next ∷ gops) → Opens next
unfolding InOrder
next-Opens next [] opens = opens
next-Opens next (third ∷ gops) order = order.0

one_before :
    (ts : ℕ) (gop : Gop) (gops : List Gop)
    → rest_of ts (held gops) ≡ held gops
    → rest_of ts gop.packets ++ held gops ≡ rest_of ts (held (gop ∷ gops))
unfolding held
one_before ts gop gops later =
    sym (rest_of-append ts gop.packets (held gops) ∙ ap (λ ps. rest_of ts gop.packets ++ ps) later)

none_before :
    (ts : ℕ) (gop : Gop) (gops : List Gop)
    → rest_of ts gop.packets ≡ []
    → rest_of ts (held (gop ∷ gops)) ≡ rest_of ts (held gops)
unfolding held
none_before ts gop gops early =
    rest_of-append ts gop.packets (held gops) ∙ ap (λ ps. ps ++ rest_of ts (held gops)) early

start_at-rest :
    (ts : ℕ) (gops : List Gop)
    → InOrder gops
    → (start_at ts (first_after ts gops) gops).1 ≡ rest_of ts (held gops)
unfolding start_at first_after
start_at-rest ts [] order = unfold held rest_of in refl
start_at-rest ts (gop ∷ []) order = elim (Bool-cases (begins_after ts gop.packets)) [
  | inl after ↦ rw after (sym (rest_of-later ts gop [] order (after_lem ts gop.packets after)))
  | inr before ↦ rw before (unfold held rest_of in sym (rest_of-append ts gop.packets []))
]
start_at-rest ts (gop ∷ next ∷ gops) order = elim (Bool-cases (begins_after ts gop.packets)) [
  | inl after ↦
      rw after (sym (rest_of-later ts gop (next ∷ gops) order (after_lem ts gop.packets after)))
  | inr before ↦ elim (Bool-cases (begins_after ts next.packets)) [
    | inl after ↦
        let later =
          rest_of-later ts next gops (unfold InOrder in order.2)
            (after_lem ts next.packets after) in
        rw (before, after) (one_before ts gop (next ∷ gops) later)
    | inr more ↦
        let here = start_at-rest ts (next ∷ gops) (unfold InOrder in order.2) in
        let opened =
          not_after_lem ts next.packets (next-Opens next gops (unfold InOrder in order.2)).0 more in
        rw (before, more)
          ((rw more at here)
            ∙ sym (
                none_before ts gop (next ∷ gops) (
                  rest_of-before ts (begins_at next.packets) gop.packets opened
                    (unfold InOrder in order.1))))
  ]
]

-- The packets that a viewer who joins at a time has still to see: those that start then or later.
unfoldable pub starts_from : ℕ → List Packet → List Packet
starts_from ts [] = []
starts_from ts (p ∷ ps) =
    let rest = starts_from ts ps in if leb ts p.start_time then p ∷ rest else rest

rest_of-starts_from : (ts : ℕ) (ps : List Packet) → rest_of ts ps ≡ starts_from ts ps
unfolding rest_of starts_from
rest_of-starts_from ts [] = refl
rest_of-starts_from ts (p ∷ ps) = elim (Bool-cases (ltb p.start_time ts)) [
  | inl early ↦
      let before : leb ts p.start_time ≡ false = ground (arith, early) in
      rw (early, before) (rest_of-starts_from ts ps)
  | inr late ↦
      let from : leb ts p.start_time ≡ true = ground (arith, late) in
      rw (late, from) (ap (λ rest. p ∷ rest) (rest_of-starts_from ts ps))
]

-- Where no packet of a GoP starts before the first one of it, and each starts before the first
-- one of the next GoP, the second list of GetBuffer is the packets of the buffer that start at
-- `ts` or later, all of them and in order: a viewer that joins misses none.
pub get_buffer-starts_from :
    (ts : ℕ) (b : Buffer) → InOrder b.gops → (get_buffer ts b).1 ≡ starts_from ts (held b.gops)
unfolding get_buffer
get_buffer-starts_from ts b order =
    start_at-rest ts b.gops order ∙ rest_of-starts_from ts (held b.gops)
