-- ===== src/Segmenter/Ring/Trim.antt =====
-- What trim leaves: a window as short as its key frames allow, that starts with one where the
-- start was cut.
use gomedia.Common.{
  ℕ, zero, suc, ◌≤◌, ◌<◌, ◌≡◌, ◌≢◌, refl, sym, ap, ◌∙◌, ◌⊎◌, inl, inr, arith, Bool, true, false,
  Bool-cases, Option, none, some, List, [], ◌∷◌, length, length-drop, drop-nil, drop, get_elem?,
  ltb, not-ltb→le, ltb→lt, if◌then◌else◌,
}
use mathlib.Core.Option.{some-injective}
use gomedia.Segmenter.{Packet}
use gomedia.Segmenter.Ring.{
  RingBuffer, is_key, or_next, first_key, cut_at, trim_round, trim_more, trim_loop, trim,
  enforce_limits,
}
use gomedia.Segmenter.Ring.Limits.{enforce_limits-Shrinks, enforce_limits-lacks}

-- Whether no packet is a key frame.
unfoldable pub no_key : List Packet → Bool
no_key [] = true
no_key (p ∷ ps) = let rest = no_key ps in if is_key p then false else rest

-- Whether a packet that is a key frame stands in front.
unfoldable pub starts_with_key : List Packet → Bool
starts_with_key [] = false
starts_with_key (p ∷ ps) = is_key p

no_key-tail : (p : Packet) (ps : List Packet) → no_key (p ∷ ps) ≡ true → no_key ps ≡ true
unfolding no_key
no_key-tail p ps e = elim (Bool-cases (is_key p)) [
  | inl key ↦ let e' = (rw key at e) in absurd cc
  | inr no_frame ↦ rw no_frame at e
]

or_next-none : (o : Option ℕ) → or_next o ≡ none → o ≡ none
unfolding or_next
or_next-none none e = refl
or_next-none (some i) e = absurd cc

or_next-zero : (o : Option ℕ) → or_next o ≢ some 0
unfolding or_next
or_next-zero none e = absurd cc
or_next-zero (some i) e = suc-ne-zero_lem i (some-injective _ _ e)
  where
    suc-ne-zero_lem : (i : ℕ) → suc i ≢ 0
    suc-ne-zero_lem i e = omega arith

or_next-suc : (o : Option ℕ) (i : ℕ) → or_next o ≡ some (suc i) → o ≡ some i
unfolding or_next
or_next-suc none i e = absurd cc
or_next-suc (some j) i e = ap some (same (some-injective _ _ e))
  where
    same : suc j ≡ suc i → j ≡ i
    same e = omega arith

first_key-none : (ps : List Packet) → first_key ps ≡ none → no_key ps ≡ true
unfolding first_key no_key
first_key-none [] e = refl
first_key-none (p ∷ ps) e = elim (Bool-cases (is_key p)) [
  | inl key ↦ let e' = (rw key at e) in absurd cc
  | inr no_frame ↦ rw no_frame (first_key-none ps (or_next-none (first_key ps) (rw no_frame at e)))
]

first_key-some :
    (ps : List Packet) (i : ℕ) → first_key ps ≡ some i → starts_with_key (drop i ps) ≡ true
unfolding first_key starts_with_key
first_key-some [] i e = absurd cc
first_key-some (p ∷ ps) zero e = elim (Bool-cases (is_key p)) [
  | inl key ↦ key
  | inr no_frame ↦ absurd (or_next-zero (first_key ps) (rw no_frame at e))
]
first_key-some (p ∷ ps) (suc i) e = elim (Bool-cases (is_key p)) [
  | inl key ↦ absurd (impossible (some-injective _ _ (rw key at e)))
  | inr no_frame ↦ first_key-some ps i (or_next-suc (first_key ps) i (rw no_frame at e))
]
  where
    impossible : 0 ≢ suc i
    impossible e = omega arith

starts_alike :
    (ps qs : List Packet)
    → get_elem? ps 0 ≡ get_elem? qs 0
    → starts_with_key ps ≡ starts_with_key qs
unfolding starts_with_key
starts_alike [] [] e = refl
starts_alike [] (q ∷ qs) e = absurd cc
starts_alike (p ∷ ps) [] e = absurd cc
starts_alike (p ∷ ps) (q ∷ qs) e = ap is_key (some-injective _ _ e)

-- The window is done: one packet, or short enough, or without a key frame to cut at.
abbrev pub IsTrimmed : RingBuffer → Type 0
IsTrimmed rb =
    (length rb.packets ≤ 1) ⊎ ((rb.duration ≤ rb.max_dur) ⊎ (no_key (drop 1 rb.packets) ≡ true))

trim_round-none : (rb : RingBuffer) → trim_round rb ≡ none → IsTrimmed rb
unfolding trim_round
trim_round-none rb e = elim (Bool-cases (ltb 1 (length rb.packets))) [
  | inr alone ↦ inl (not-ltb→le 1 (length rb.packets) alone)
  | inl many ↦ elim (Bool-cases (ltb rb.max_dur rb.duration)) [
    | inr short ↦ inr (inl (not-ltb→le rb.max_dur rb.duration short))
    | inl long ↦ inr (inr (go (first_key (drop 1 rb.packets)) refl (rw (many, long) at e)))
  ]
]
  where
    go :
        (cut : Option ℕ)
        → first_key (drop 1 rb.packets) ≡ cut
        → cut_at cut rb ≡ none
        → no_key (drop 1 rb.packets) ≡ true
    go none found e = first_key-none (drop 1 rb.packets) found
    go (some i) found e = absurd (unfold cut_at in cc)

behind : (i : ℕ) (ps : List Packet) → drop (suc i) ps ≡ drop i (drop 1 ps)
behind i [] = sym (drop-nil i [] (omega arith))
behind i (p ∷ ps) = refl

cut_at-some :
    (i : ℕ) (rb rb' : RingBuffer)
    → 1 < length rb.packets
    → first_key (drop 1 rb.packets) ≡ some i
    → cut_at (some i) rb ≡ some rb'
    → (length rb'.packets < length rb.packets)
      × (rb'.max_dur ≡ rb.max_dur)
      × (starts_with_key rb'.packets ≡ true)
unfolding cut_at
cut_at-some i rb rb' many found e = rw (sym (some-injective _ _ e)) (
  omega (arith, length-drop (suc i) rb.packets),
  refl,
  ap starts_with_key (behind i rb.packets) ∙ first_key-some (drop 1 rb.packets) i found,
)

-- A round takes a packet at least, keeps the limit, and stops at a key frame.
trim_round-some :
    (rb rb' : RingBuffer)
    → trim_round rb ≡ some rb'
    → (length rb'.packets < length rb.packets)
      × (rb'.max_dur ≡ rb.max_dur)
      × (starts_with_key rb'.packets ≡ true)
unfolding trim_round
trim_round-some rb rb' e = elim (Bool-cases (ltb 1 (length rb.packets))) [
  | inr alone ↦ let e' = (rw alone at e) in absurd cc
  | inl many ↦ elim (Bool-cases (ltb rb.max_dur rb.duration)) [
    | inr short ↦ let e' = (rw (many, short) at e) in absurd cc
    | inl long ↦ go (ltb→lt _ _ many) (first_key (drop 1 rb.packets)) refl (rw (many, long) at e)
  ]
]
  where
    go :
        1 < length rb.packets
        → (cut : Option ℕ) → first_key (drop 1 rb.packets) ≡ cut
        → cut_at cut rb ≡ some rb'
        → (length rb'.packets < length rb.packets)
          × (rb'.max_dur ≡ rb.max_dur)
          × (starts_with_key rb'.packets ≡ true)
    go many none found e = absurd (unfold cut_at in cc)
    go many (some i) found e = cut_at-some i rb rb' many found e

trim_loop-ends :
    (fuel : ℕ) (rb : RingBuffer)
    → length rb.packets ≤ fuel
    → IsTrimmed (trim_loop fuel rb)
      × ((starts_with_key (trim_loop fuel rb).packets ≡ true)
          ⊎ (get_elem? (trim_loop fuel rb).packets 0 ≡ get_elem? rb.packets 0))
unfolding trim_loop trim_more
trim_loop-ends zero rb enough = (inl (omega arith), inr refl)
trim_loop-ends (suc fuel) rb enough =
    go (trim_round rb) refl (λ rb' enough'. trim_loop-ends fuel rb' enough')
  where
    go :
        (cut : Option RingBuffer)
        → trim_round rb ≡ cut
        → ((rb' : RingBuffer)
            → length rb'.packets ≤ fuel
            → IsTrimmed (trim_loop fuel rb')
              × ((starts_with_key (trim_loop fuel rb').packets ≡ true)
                  ⊎ (get_elem? (trim_loop fuel rb').packets 0 ≡ get_elem? rb'.packets 0)))
        → IsTrimmed (trim_more cut (trim_loop fuel) rb)
          × ((starts_with_key (trim_more cut (trim_loop fuel) rb).packets ≡ true)
              ⊎ (get_elem? (trim_more cut (trim_loop fuel) rb).packets 0 ≡ get_elem? rb.packets 0))
    go none e more = (trim_round-none rb e, inr refl)
    go (some rb') e more =
        let (fewer, _, key) = trim_round-some rb rb' e in
        let (trimmed, start) = more rb' (omega arith) in
        (
          trimmed,
          elim start [ inl key' ↦ inl key' | inr alike ↦ inl (starts_alike _ _ alike ∙ key) ],
        )

IsTrimmed-enforce : (rb : RingBuffer) → IsTrimmed rb → IsTrimmed (enforce_limits rb)
IsTrimmed-enforce rb trimmed =
    let (_, shorter, fewer, _, _, _, window, _) = enforce_limits-Shrinks rb in
    elim trimmed [
      | inl alone ↦ inl (omega arith)
      | inr rest ↦ elim rest [
        | inl short ↦ inr (inl (omega arith))
        | inr no_frame ↦ inr (inr (enforce_limits-lacks no_key no_key-tail rb no_frame))
      ]
    ]

-- After trim the ring holds one packet, or no more time than the window asks for, or no key frame
-- that it could be cut at. It starts with a key frame or with the packet it started with.
pub trim-IsTrimmed :
    (rb : RingBuffer)
    → IsTrimmed (trim rb)
      × ((starts_with_key (trim rb).packets ≡ true)
          ⊎ (get_elem? (trim rb).packets 0 ≡ get_elem? rb.packets 0))
unfolding trim
trim-IsTrimmed rb =
    let trimmed = trim_loop (length rb.packets) rb in
    let (window, start) = trim_loop-ends (length rb.packets) rb (omega arith) in
    let (_, _, _, _, _, _, _, first) = enforce_limits-Shrinks trimmed in
    (
      IsTrimmed-enforce trimmed window,
      elim start [ inl key ↦ inl (starts_alike _ _ first ∙ key) | inr alike ↦ inr (first ∙ alike) ],
    )
