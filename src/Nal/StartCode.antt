-- ===== src/Nal/StartCode.antt =====
-- SplitNALUs on data that begins with the four-byte start code of Annex B.
use gomedia.Common.{
  ℕ, suc, ◌+◌, ◌≤◌, ◌<◌, ◌≡◌, true, sym, ◌∙◌, inl, inr, arith, IsU32, List, [], ◌∷◌, ◌++◌, some,
  length, take, drop, ltb,
}
use gomedia.Common.Run.{ret, next, done, loop, loop_total, loop-done, loop-next, Progress}
use gomedia.Pio.{Bytes, u32be}
use gomedia.Pio.Laws.{be, u32be-be}
use gomedia.Nal.{avcc, Prefixed, avcc_round, split_avcc, split_nalus, min_nalu_size}
use gomedia.Nal.Plain.{plain_round, avcc_round-plain}
use gomedia.Nal.AvccLoop.{Fits, left, avcc-Progress}
use native.Mathlib.Nat.{mod-eq_of_lt}
use mathlib.Core.List.{head?}

module _ (first : Bytes) where
  abbrev Begins : List Bytes → Type 0
  Begins nalus = head? nalus ≡ some first

  Begins-append : (nalus more : List Bytes) → Begins nalus → Begins (nalus ++ more)
  Begins-append [] more h = cc
  Begins-append (x ∷ nalus) more h = h

  Begins-done :
      (p : Prefixed) {r : Bytes × List Bytes}
      → avcc_round p ≡ ret (done r)
      → Begins p.nalus
      → Begins r.1
  unfolding plain_round
  Begins-done p e h =
      let plain = sym (avcc_round-plain p) ∙ e in
      let units : List Bytes = p.nalus ++ (take p.val4 p.rest ∷ []) in
      let behind : Bytes = drop min_nalu_size (drop p.val4 p.rest) in
      ground (
        arith,
        Begins-append p.nalus (p.rest ∷ []) h,
        Begins-append p.nalus (take p.val4 p.rest ∷ []) h,
        Begins-append p.nalus (behind ∷ []) h,
        Begins-append units (behind ∷ []),
      )

  Begins-next :
      (p : Prefixed) {q : Prefixed} → avcc_round p ≡ ret (next q) → Begins p.nalus → Begins q.nalus
  unfolding plain_round
  Begins-next p e h =
      let plain = sym (avcc_round-plain p) ∙ e in
      ground (arith, Begins-append p.nalus (take p.val4 p.rest ∷ []) h)

  -- A loop that begins with `first` ends with it.
  loop-Begins :
      (size fuel : ℕ) (p : Prefixed)
      → Fits size p
      → Begins p.nalus
      → left size p < fuel
      → (r : Bytes × List Bytes) × (loop avcc_round fuel p ≡ ret r) × Begins r.1
  loop-Begins size fuel p fits h m =
      loop_total avcc_round (λ q. Fits size q × Begins q.nalus) (λ r. Begins r.1) (left size) step
        fuel p m (fits, h)
    where
      step :
          (q : Prefixed)
          → Fits size q × Begins q.nalus
          → Progress avcc_round (λ q. Fits size q × Begins q.nalus) (λ r. Begins r.1) (left size) q
      step q (f, b) = elim (avcc-Progress size q f) [
        | inl (r, e, s) ↦ inl (r, e, Begins-done q e b)
        | inr (q', e, f', smaller) ↦ inr (q', e, (f', Begins-next q e b), smaller)
      ]

module _ (h : ℕ) (t : Bytes) where
  abbrev start : Prefixed
  start = record { val4 = 1; rest = h ∷ t; nalus = [] }

  first_done :
      {r : Bytes × List Bytes}
      → IsU32 (length t + 5)
      → avcc_round start ≡ ret (done r)
      → Begins (h ∷ []) r.1
  unfolding plain_round
  first_done fits e =
      let plain = sym (avcc_round-plain start) ∙ e in ground (arith, mod-eq_of_lt fits)

  first_next : {q : Prefixed} → avcc_round start ≡ ret (next q) → Begins (h ∷ []) q.nalus
  unfolding plain_round
  first_next e = let plain = sym (avcc_round-plain start) ∙ e in ground arith

  start_loop :
      (fuel : ℕ)
      → IsU32 (length t + 5)
      → length t + 1 ≤ fuel
      → (r : Bytes × List Bytes) × (loop avcc_round (suc fuel) start ≡ ret r) × Begins (h ∷ []) r.1
  start_loop fuel fits m = elim (avcc-Progress (length t + 1) start (tt, omega arith)) [
    | inl (r, e, s) ↦ (r, loop-done avcc_round fuel start e, first_done fits e)
    | inr (q, e, f, smaller) ↦
        let (r, e', b) =
          loop-Begins (h ∷ []) (length t + 1) fuel q f (first_next e) (omega arith) in
        (r, loop-next avcc_round fuel start e ∙ e', b)
  ]

  nonempty : (nalus : List Bytes) → Begins (h ∷ []) nalus → ltb 0 (length nalus) ≡ true
  nonempty [] b = cc
  nonempty (x ∷ nalus) b = ground arith

  word : u32be (0 ∷ 0 ∷ 0 ∷ 1 ∷ h ∷ t) ≡ some 1
  unfolding be
  word = u32be-be 1 (h ∷ t)

  -- Annex B data that opens with the four-byte start code, and is shorter than 4 GiB, is never
  -- recognised as Annex B: SplitNALUs takes the start code for the length 1, so that it reports
  -- AVCC framing and the first unit is the one byte behind the start code.
  pub split_nalus-four_byte_code :
      IsU32 (length t + 5)
      → (nalus : List Bytes) × (split_nalus (0 ∷ 0 ∷ 0 ∷ 1 ∷ h ∷ t) ≡ ret (nalus, avcc))
        × (head? nalus ≡ some (h ∷ []))
  unfolding split_nalus split_avcc
  split_nalus-four_byte_code fits =
      let (r, e, b) = start_loop (length (0 ∷ 0 ∷ 0 ∷ 1 ∷ t)) fits (omega arith) in
      (r.1, rw word (rw e (ground (arith, mod-eq_of_lt fits, nonempty r.1 b))), b)
