-- ===== src/Nal/Total.antt =====
-- SplitNALUs returns on every input: no index is out of range, and its loops end.
use gomedia.Common.{
  ℕ, ◌≤◌, ◌≡◌, ◌⊎◌, inl, inr, refl, arith, false, ◌||◌, u32, List, [], ◌∷◌, length, drop, ltb, leb,
  ◌==◌, All, length-drop, total_length, Bool-cases,
}
use gomedia.Common.Run.{ret, loop_total}
use gomedia.Pio.{Bytes}
use gomedia.Pio.Laws.{u24be_total, u32be_total}
use gomedia.Nal.{
  Framing, raw, avcc, annexb, avcc_round, split_avcc, split_annexb, split_nalus, skip_code,
  min_nalu_size,
}
use gomedia.Nal.Avcc.{IsNal}
use gomedia.Nal.AvccLoop.{Fits, Split, left, avcc-Progress}
use gomedia.Nal.AnnexbLoop.{parse_annexb_total}

-- What SplitNALUs promises of its result for a slice `b`: every unit holds a byte, unless `b`
-- itself is the one raw unit, and together they hold no more bytes than `b`.
abbrev pub Splits : Bytes → List Bytes × Framing → Type 0
Splits b r = ((r ≡ (b ∷ [], raw)) ⊎ All IsNal r.0) × (total_length r.0 ≤ length b)

split_annexb_total :
    (b : Bytes) (val4 : ℕ)
    → 4 ≤ length b
    → (r : List Bytes × Framing) × (split_annexb b val4 [] ≡ ret r) × Splits b r
split_annexb_total b val4 h =
    let (val3, e) = u24be_total b (omega arith) in
    elim (Bool-cases (val3 == 1 || val4 == 1)) [
      | inl code ↦
          let (nalus, e', u) = parse_annexb_total b val3 val4 (unfold skip_code in ground arith) in
          ((nalus, annexb), (unfold split_annexb in rw (e, code, e')), (inr u.0, u.1))
      | inr plain ↦ ((b ∷ [], raw), (unfold split_annexb in rw (e, plain)), (inl refl, omega arith))
    ]

no_units : (nalus : List Bytes) → ltb 0 (length nalus) ≡ false → nalus ≡ []
no_units [] h = refl
no_units (nal ∷ nalus) h = absurd (ground arith)

split_avcc_total :
    (b : Bytes) (val4 : ℕ)
    → 4 ≤ length b
    → (r : List Bytes × Framing) × (split_avcc b val4 ≡ ret r) × Splits b r
split_avcc_total b val4 h =
    let (r, e, u) =
      loop_total avcc_round (Fits (length b)) (Split (length b)) (left (length b))
        (avcc-Progress (length b)) (length b)
        (record { val4 = val4; rest = drop min_nalu_size b; nalus = [] })
        (omega (arith, length-drop min_nalu_size b))
        (tt, omega (arith, length-drop min_nalu_size b)) in
    elim (Bool-cases (length r.0 == 0 || ltb 0 (length r.1))) [
      | inl found ↦ ((r.1, avcc), (unfold split_avcc in rw (e, found)), (inr u.0, u.1))
      | inr other ↦
          let (r', e', s) = split_annexb_total b val4 h in
          (r', (unfold split_avcc in rw (e, other, no_units r.1 (ground arith), e')), s)
    ]

-- SplitNALUs returns on every byte slice: no index is out of range and both loops end. Every
-- unit that it returns holds a byte, unless the slice itself is returned as the one raw unit,
-- and the units together hold no more bytes than the slice.
pub split_nalus_total :
    (b : Bytes) → (r : List Bytes × Framing) × (split_nalus b ≡ ret r) × Splits b r
split_nalus_total b = elim (Bool-cases (ltb (length b) min_nalu_size)) [
  | inl short ↦ ((b ∷ [], raw), (unfold split_nalus in rw short), (inl refl, omega arith))
  | inr enough ↦
      let (val4, e) = u32be_total b (ground arith) in
      elim (Bool-cases (leb val4 (u32 (length b)))) [
        | inl fits ↦
            let (r, e', s) = split_avcc_total b val4 (ground arith) in
            (r, (unfold split_nalus in rw (enough, e, fits, e')), s)
        | inr over ↦
            let (r, e', s) = split_annexb_total b val4 (ground arith) in
            (r, (unfold split_nalus in rw (enough, e, over, e')), s)
      ]
]
