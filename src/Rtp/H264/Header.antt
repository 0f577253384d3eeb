-- ===== src/Rtp/H264/Header.antt =====
-- The header bytes of FU-A fragments, checked for every header of a NAL unit.
use gomedia.Common.{
  ℕ, ◌<◌, ◌≡◌, refl, arith, Bool, true, false, ◌&&◌, not, bit_and, bit_or, ◌==◌, ltb, IsByte,
  passes_below, passes_below_lem,
}
use gomedia.Rtp.H264.Mux.{fu_indicator, fu_header}
use gomedia.Rtp.H264.Demux.{nalu_type}

same : Bool → Bool → Bool
same true b = b
same false b = not b

-- What the receiver computes from the two header bytes of a fragment of a unit `hdr`.
check : Bool → Bool → ℕ → Bool
unfolding fu_indicator fu_header nalu_type same
check start end hdr =
    (nalu_type (fu_indicator hdr) == 28)
    && ltb 0 (fu_indicator hdr)
    && ltb (fu_indicator hdr) 256
    && ltb (fu_header hdr start end) 256
    && (bit_or (bit_and (fu_indicator hdr) 0xe0) (bit_and (fu_header hdr start end) 0x1f) == hdr)
    && same (bit_and (fu_header hdr start end) 0x80 == 0) (not start)
    && same (bit_and (fu_header hdr start end) 0x40 == 0) (not end)

check_all : (start end : Bool) → passes_below (check start end) 256 ≡ true
unfolding passes_below check
check_all true true = refl
check_all true false = refl
check_all false true = refl
check_all false false = refl

pub record IsFragmentHeader (hdr : ℕ) (start end : Bool) : Type 0 where
  pub is_fu_a : nalu_type (fu_indicator hdr) ≡ 28
  pub indicator_pos : 0 < fu_indicator hdr
  pub indicator_byte : IsByte (fu_indicator hdr)
  pub header_byte : IsByte (fu_header hdr start end)
  pub rebuilt :
      bit_or (bit_and (fu_indicator hdr) 0xe0) (bit_and (fu_header hdr start end) 0x1f) ≡ hdr
  pub start_bit : (bit_and (fu_header hdr start end) 0x80 == 0) ≡ not start
  pub end_bit : (bit_and (fu_header hdr start end) 0x40 == 0) ≡ not end

pub fragment_header : (hdr : ℕ) (start end : Bool) → IsByte hdr → IsFragmentHeader hdr start end
unfolding check same
fragment_header hdr start end h =
    let e = passes_below_lem (check start end) 256 hdr h (check_all start end) in ground arith
