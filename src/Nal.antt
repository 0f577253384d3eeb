-- ===== src/Nal.antt =====
-- utils/nal/nal.go: splitting a byte slice into NAL units. The slice `dst`, which is only reused
-- memory, is not modelled; `nalus` starts empty. The slices behind four bytes, `b[MinNaluSize:]`,
-- stand behind a read of these bytes, which panics first.
mod Plain
pub mod Avcc
pub mod AvccLoop
pub mod AnnexbLoop
pub mod Total
pub mod StartCode
pub mod Raw
mod Examples
use gomedia.Common.{
  ℕ, zero, suc, ◌+◌, ◌-◌, Bool, true, false, ◌&&◌, ◌||◌, not, u32, List, [], ◌∷◌, ◌++◌, length,
  get_elem?, take, drop, ltb, leb, ◌==◌, if◌then◌else◌,
}
use gomedia.Common.Run.{
  Run, ret, ◌>>=◌, index, slice, slice_to, slice_from, Round, next, done, loop,
}
use gomedia.Pio.{Bytes, u24be, u32be}

-- naluRaw, naluAVCC, naluANNEXB
pub data Framing : Type 0 where
  raw avcc annexb : Framing

abbrev pub min_nalu_size : ℕ
min_nalu_size = 4

-- A four-byte start code, once three zero bytes are found.
unfoldable pub four_byte_code : Bytes → ℕ → Run (ℕ × Bool)
four_byte_code b pos = do
  fourth ← index (get_elem? b (pos + 3))
  if fourth == 1 then ret (4, true) else ret (0, false)

unfoldable pub code_at_zero : Bytes → ℕ → Run (ℕ × Bool)
unfolding four_byte_code
code_at_zero b pos = do
  val3 ← index (u24be (drop pos b))
  (if val3 == 1
      then ret (3, true)
      else if val3 == 0 && ltb (pos + 3) (length b)
      then four_byte_code b pos
      else ret (0, false))

-- The code compares before it indexes, as `||` and `&&` of Go do.
unfoldable pub is_start_code : Bytes → ℕ → Run (ℕ × Bool)
unfolding code_at_zero
is_start_code b pos = if leb (length b) (pos + 2) then ret (0, false) else do
  first ← index (get_elem? b pos)
  if not (first == 0) then ret (0, false) else code_at_zero b pos

-- The inner loop of parseANNEXB, `for pos < len(b)`: the first argument is `len(b) - pos`. It
-- returns `pos`, `_val3` and `_val4`.
unfoldable pub next_start_code : ℕ → Bytes → ℕ → Run (ℕ × ℕ × ℕ)
next_start_code zero b pos = ret (pos, 0, 0)
next_start_code (suc left) b pos =
    let rest = next_start_code left b (pos + 1) in
    do
      (start_code_length, found) ← is_start_code b pos
      if found then (if start_code_length == 3 then ret (pos, 1, 0) else ret (pos, 0, 1)) else rest

pub record Cursor : Type 0 where
  pub val3 : ℕ
  pub val4 : ℕ
  pub start : ℕ
  pub pos : ℕ
  pub nalus : List Bytes

-- A round of the outer loop of parseANNEXB: it cuts off the unit that ends at `pos`, skips the
-- start code that stands there, and looks for the next one.
unfoldable pub cut_unit : Bytes → Cursor → Run (List Bytes)
cut_unit b c =
    if c.start == c.pos
    then ret c.nalus
    else (do unit ← slice b c.start c.pos; ret (c.nalus ++ (unit ∷ [])))

unfoldable pub skip_code : Cursor → ℕ
skip_code c = if c.val3 == 1 then c.pos + 3 else if c.val4 == 1 then c.pos + 4 else c.pos

unfoldable pub annexb_round : Bytes → Cursor → Run (Round Cursor (List Bytes))
unfolding cut_unit skip_code
annexb_round b c =
    let start = skip_code c in
    do
      nalus ← cut_unit b c
      (if start == length b then ret (done nalus) else (do
        (pos, val3, val4) ← next_start_code (length b - start) b start
        ret (next (record { val3 = val3; val4 = val4; start = start; pos = pos; nalus = nalus }))))

-- Each round but the last begins behind a start code, so `len(b) + 2` rounds are enough.
unfoldable pub parse_annexb : Bytes → ℕ → ℕ → List Bytes → Run (List Bytes)
parse_annexb b val3 val4 dst =
    loop (annexb_round b) (length b + 2)
      (record { val3 = val3; val4 = val4; start = 0; pos = 0; nalus = dst })

-- The variables of the AVCC loop.
pub record Prefixed : Type 0 where
  pub val4 : ℕ
  pub rest : Bytes
  pub nalus : List Bytes

-- For corrupted streams, what is left is kept as a unit.
unfoldable pub add_rest : Bytes → List Bytes → List Bytes
add_rest b nalus = if ltb 0 (length b) then nalus ++ (b ∷ []) else nalus

unfoldable pub add_unit : ℕ → Bytes → List Bytes → Run (List Bytes)
add_unit val4 b nalus =
    if ltb 0 val4 then (do unit ← slice_to b val4; ret (nalus ++ (unit ∷ []))) else ret nalus

-- The end of a round: `b` begins behind a length prefix that said `val4`.
unfoldable pub check_length : ℕ → Bytes → List Bytes → Round Prefixed (Bytes × List Bytes)
unfolding add_rest
check_length val4 b nalus =
    if ltb (u32 (length b)) val4
    then done (b, add_rest b nalus)
    else next (record { val4 = val4; rest = b; nalus = nalus })

-- A round of the AVCC loop of SplitNALUs; the loop returns `_b` and `nalus`.
unfoldable pub avcc_round : Prefixed → Run (Round Prefixed (Bytes × List Bytes))
unfolding add_rest add_unit check_length
avcc_round p =
    if ltb (u32 (length p.rest)) p.val4 then ret (done (p.rest, add_rest p.rest p.nalus)) else (do
      nalus ← add_unit p.val4 p.rest p.nalus
      b ← slice_from p.rest p.val4
      (if ltb (length b) min_nalu_size
          then ret (done (b, nalus))
          else (do val4 ← index (u32be b); ret (check_length val4 (drop min_nalu_size b) nalus))))

-- The tail of SplitNALUs, once AVCC is ruled out.
unfoldable pub split_annexb : Bytes → ℕ → List Bytes → Run (List Bytes × Framing)
split_annexb b val4 nalus = do
  val3 ← index (u24be b)
  (if val3 == 1 || val4 == 1
      then (do nalus' ← parse_annexb b val3 val4 nalus; ret (nalus', annexb))
      else ret (nalus ++ (b ∷ []), raw))

-- Each round of the AVCC loop but the last takes 4 bytes, so `len(b)` rounds are enough.
unfoldable pub split_avcc : Bytes → ℕ → Run (List Bytes × Framing)
split_avcc b val4 = do
  (b', nalus) ←
      loop avcc_round (length b) (record { val4 = val4; rest = drop min_nalu_size b; nalus = [] })
  (if length b' == 0 || ltb 0 (length nalus) then ret (nalus, avcc) else split_annexb b val4 nalus)

unfoldable pub split_nalus : Bytes → Run (List Bytes × Framing)
split_nalus b = if ltb (length b) min_nalu_size then ret (b ∷ [], raw) else do
  val4 ← index (u32be b)
  if leb val4 (u32 (length b)) then split_avcc b val4 else split_annexb b val4 []
