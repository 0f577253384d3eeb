-- ===== src/Nal/AvccLoop.antt =====
-- The AVCC loop of SplitNALUs ends, keeps inside its slice and cuts off non-empty units.
use gomedia.Common.{
  ℕ, ◌+◌, ◌-◌, ◌≤◌, ◌<◌, ◌≡◌, ◌∙◌, inl, inr, arith, false, u32, List, [], ◌∷◌, ◌++◌, length, take,
  drop, ltb, All, All-append, length-drop, length-take, total_length, total_length-append,
  Bool-cases,
}
use gomedia.Common.Run.{ret, Progress}
use gomedia.Pio.{Bytes}
use gomedia.Pio.Laws.{u32be_total}
use gomedia.Nal.{Prefixed, avcc_round, check_length, add_rest, min_nalu_size}
use gomedia.Nal.Plain.{plain_unit, plain_round, avcc_round-plain}
use gomedia.Nal.Avcc.{IsNal}

pub All-add :
    (nalus : List Bytes) (unit : Bytes)
    → 0 < length unit
    → All IsNal nalus
    → All IsNal (nalus ++ (unit ∷ []))
All-add nalus unit h all = All-append IsNal nalus (unit ∷ []) all (h, tt)

module _ (b : Bytes) (nalus : List Bytes) where
  All-add_rest : All IsNal nalus → All IsNal (add_rest b nalus)
  unfolding add_rest
  All-add_rest h = elim (Bool-cases (ltb 0 (length b))) [
    | inl more ↦ rw more (All-add nalus b (ground arith) h)
    | inr empty ↦ rw empty h
  ]

  total_length-add_rest : total_length (add_rest b nalus) ≡ total_length nalus + length b
  unfolding add_rest
  total_length-add_rest = ground (arith, total_length-append nalus (b ∷ []))

module _ (val4 : ℕ) (b : Bytes) (nalus : List Bytes) (fits : val4 ≤ length b) where
  All-plain_unit : All IsNal nalus → All IsNal (plain_unit val4 b nalus)
  unfolding plain_unit
  All-plain_unit h = elim (Bool-cases (ltb 0 val4)) [
    | inl more ↦ rw more (All-add nalus (take val4 b) (ground (arith, length-take val4 b)) h)
    | inr empty ↦ rw empty h
  ]

  total_length-plain_unit : total_length (plain_unit val4 b nalus) ≡ total_length nalus + val4
  unfolding plain_unit
  total_length-plain_unit =
      ground (arith, total_length-append nalus (take val4 b ∷ []), length-take val4 b)

module _ (size : ℕ) where
  -- The units so far are not empty, and there is room for them and for what is still to be read.
  abbrev pub Fits : Prefixed → Type 0
  Fits p = All IsNal p.nalus × (total_length p.nalus + length p.rest ≤ size)

  abbrev pub Split : Bytes × List Bytes → Type 0
  Split r = All IsNal r.1 × (total_length r.1 ≤ size)

  abbrev pub left : Prefixed → ℕ
  left p = length p.rest

  -- What the end of a round makes of units and bytes that fit.
  check-Progress :
      (val4 : ℕ) (b : Bytes) (nalus : List Bytes) (p : Prefixed)
      → Fits (record { val4 = val4; rest = b; nalus = nalus })
      → avcc_round p ≡ ret (check_length val4 b nalus)
      → length b < left p
      → Progress avcc_round Fits Split left p
  unfolding check_length
  check-Progress val4 b nalus p (all, room) e smaller =
      elim (Bool-cases (ltb (u32 (length b)) val4)) [
        | inl over ↦ inl (
          (b, add_rest b nalus),
          rw over at e,
          (All-add_rest b nalus all, omega (arith, total_length-add_rest b nalus)),
        )
        | inr fits ↦
            inr
              (record { val4 = val4; rest = b; nalus = nalus }, rw fits at e, (all, room), smaller)
      ]

  pub avcc-Progress : (p : Prefixed) → Fits p → Progress avcc_round Fits Split left p
  avcc-Progress p (all, room) = elim (Bool-cases (ltb (u32 (length p.rest)) p.val4)) [
    | inl over ↦ inl (
      (p.rest, add_rest p.rest p.nalus),
      avcc_round-plain p ∙ (unfold plain_round in rw over),
      (All-add_rest p.rest p.nalus all, omega (arith, total_length-add_rest p.rest p.nalus)),
    )
    | inr fits ↦ whole fits (ground arith)
  ]
    where
      rest : Bytes
      rest = drop p.val4 p.rest

      nalus : List Bytes
      nalus = plain_unit p.val4 p.rest p.nalus

      lengths : length (drop min_nalu_size rest) ≡ length p.rest - p.val4 - 4
      lengths = omega (arith, length-drop min_nalu_size rest, length-drop p.val4 p.rest)

      more_left : ltb (length rest) min_nalu_size ≡ false → 4 ≤ length p.rest
      more_left h = ground (arith, length-drop p.val4 p.rest)

      whole :
          ltb (u32 (length p.rest)) p.val4 ≡ false
          → p.val4 ≤ length p.rest
          → Progress avcc_round Fits Split left p
      whole fits le = elim (Bool-cases (ltb (length rest) min_nalu_size)) [
        | inl short ↦ inl (
          (rest, nalus),
          avcc_round-plain p ∙ (unfold plain_round in rw (fits, short)),
          (
            All-plain_unit p.val4 p.rest p.nalus le all,
            omega (arith, total_length-plain_unit p.val4 p.rest p.nalus le),
          ),
        )
        | inr more ↦
            let (v, e) = u32be_total rest (ground arith) in
            check-Progress v (drop min_nalu_size rest) nalus p
              (
                All-plain_unit p.val4 p.rest p.nalus le all,
                omega (arith, total_length-plain_unit p.val4 p.rest p.nalus le, lengths),
              )
              (avcc_round-plain p ∙ (unfold plain_round in rw (fits, more, e)))
              (omega (arith, lengths, more_left more))
      ]
