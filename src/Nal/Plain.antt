-- ===== src/Nal/Plain.antt =====
-- The rounds of the loops of SplitNALUs, where their slices are in range.
use gomedia.Common.{
  ℕ, ◌-◌, ◌≤◌, ◌≡◌, inl, inr, refl, arith, Bool-cases, true, u32, List, [], ◌∷◌, ◌++◌, length, take,
  drop, ltb, leb, ◌==◌, if◌then◌else◌,
}
use gomedia.Common.Run.{Run, ret, ◌>>=◌, index, Round, done}
use gomedia.Pio.{Bytes, u32be}
use gomedia.Nal.{
  Prefixed, avcc_round, add_unit, check_length, add_rest, min_nalu_size, Cursor, cut_unit,
}

unfoldable pub plain_unit : ℕ → Bytes → List Bytes → List Bytes
plain_unit val4 b nalus = if ltb 0 val4 then nalus ++ (take val4 b ∷ []) else nalus

unfoldable pub plain_round : Prefixed → Run (Round Prefixed (Bytes × List Bytes))
unfolding add_rest plain_unit check_length
plain_round p =
    if ltb (u32 (length p.rest)) p.val4
    then ret (done (p.rest, add_rest p.rest p.nalus))
    else let b = drop p.val4 p.rest in
      let nalus = plain_unit p.val4 p.rest p.nalus in
      if ltb (length b) min_nalu_size
      then ret (done (b, nalus))
      else do val4 ← index (u32be b); ret (check_length val4 (drop min_nalu_size b) nalus)

add_unit-plain :
    (val4 : ℕ) (b : Bytes) (nalus : List Bytes)
    → val4 ≤ length b
    → add_unit val4 b nalus ≡ ret (plain_unit val4 b nalus)
unfolding add_unit plain_unit
add_unit-plain val4 b nalus fits =
    let there : leb val4 (length b) ≡ true = ground (arith, fits) in
    elim (Bool-cases (ltb 0 val4)) [
      | inl some_bytes ↦ rw (some_bytes, there) refl
      | inr empty ↦ rw empty refl
    ]

-- No slice of a round of the AVCC loop is out of range: a length that is too large ends the loop.
pub avcc_round-plain : (p : Prefixed) → avcc_round p ≡ plain_round p
unfolding avcc_round plain_round
avcc_round-plain p = elim (Bool-cases (ltb (u32 (length p.rest)) p.val4)) [
  | inl over ↦ rw over refl
  | inr fits ↦
      let le : p.val4 ≤ length p.rest = ground (arith, fits) in
      let there : leb p.val4 (length p.rest) ≡ true = ground (arith, le) in
      rw (fits, add_unit-plain p.val4 p.rest p.nalus le, there) refl
]

unfoldable pub plain_cut : Bytes → Cursor → List Bytes
plain_cut b c =
    if c.start == c.pos then c.nalus else c.nalus ++ (take (c.pos - c.start) (drop c.start b) ∷ [])

pub cut_unit-plain :
    (b : Bytes) (c : Cursor)
    → c.start ≤ c.pos
    → c.pos ≤ length b
    → cut_unit b c ≡ ret (plain_cut b c)
unfolding cut_unit plain_cut
cut_unit-plain b c before inside =
    let first : leb c.start c.pos ≡ true = ground (arith, before) in
    let last : leb c.pos (length b) ≡ true = ground (arith, inside) in
    elim (Bool-cases (c.start == c.pos)) [
      | inl empty ↦ rw empty refl
      | inr more ↦ rw (more, first, last) refl
    ]
