-- ===== src/Rtp/H264/Mux.antt =====
-- format/rtp/h264_muxer.go: a NAL unit as one RTP packet, or as FU-A fragments (RFC 6184, 5.8).
-- The result is `none` where a write failed. `fuBuf` and `naluBuf` are scratch memory.
use gomedia.Common.{
  ℕ, ◌+◌, ◌-◌, Bool, ◌&&◌, bit_and, bit_or, Option, none, some, List, [], ◌∷◌, length, take, drop,
  ltb, leb, ◌==◌, if◌then◌else◌,
}
use gomedia.Common.Run.{Run, ret, ◌>>=◌, Round, next, done, loop}
use gomedia.Pio.{Bytes}
use gomedia.Nal.{split_nalus}
use gomedia.Rtp.Packet.{BaseMuxer, write_rtp}

-- `(origHdr & 0xE0) | 28` and the FU header of a fragment.
unfoldable pub fu_indicator : ℕ → ℕ
fu_indicator hdr = bit_or (bit_and hdr 0xe0) 28

unfoldable pub fu_header : ℕ → Bool → Bool → ℕ
fu_header hdr start end =
    let type = bit_and hdr 0x1f in
    let type' = if start then bit_or type 0x80 else type in if end then bit_or type' 0x40 else type'

-- The bytes behind `offset` that the fragment takes, whether it is the last, and its payload.
unfoldable pub frag_size : Bytes → ℕ → ℕ → ℕ
frag_size payload max_frag offset =
    let remaining = length payload - offset in
    if ltb remaining max_frag then remaining else max_frag

unfoldable pub is_end : Bytes → ℕ → ℕ → Bool
is_end payload max_frag offset = leb (length payload - offset) max_frag

unfoldable pub fragment : ℕ → Bytes → ℕ → ℕ → Bytes
fragment hdr payload max_frag offset =
    fu_indicator hdr
    ∷ fu_header hdr (offset == 0) (is_end payload max_frag offset)
    ∷ take (frag_size payload max_frag offset) (drop offset payload)

pub record Fragmenter : Type 0 where
  pub offset : ℕ
  pub mux : BaseMuxer

-- h264Muxer
pub record H264Muxer : Type 0 where
  pub base : BaseMuxer
  pub mtu : ℕ
  pub sps : Bytes
  pub pps : Bytes

module _ (accepts : Bytes → Bool) (ts : ℕ) where
  -- The fragment at `offset` of the unit with header `hdr` and body `payload`.
  sent_fragment : ℕ → Option BaseMuxer → Round Fragmenter (Option BaseMuxer)
  sent_fragment offset none = done none
  sent_fragment offset (some m) = next (record { offset = offset; mux = m })

  unfoldable pub fragment_round :
      ℕ → Bytes → ℕ → Bool → Fragmenter → Run (Round Fragmenter (Option BaseMuxer))
  unfolding sent_fragment
  fragment_round hdr payload max_frag is_last f =
      if ltb f.offset (length payload)
      then ret (
          sent_fragment (f.offset + frag_size payload max_frag f.offset) (
            write_rtp accepts f.mux (fragment hdr payload max_frag f.offset) ts
              (is_last && is_end payload max_frag f.offset)))
      else ret (done (some f.mux))

  -- Every round but the last sends a byte of the body.
  unfoldable pub write_fragments : ℕ → Bytes → ℕ → Bool → BaseMuxer → Run (Option BaseMuxer)
  write_fragments hdr payload max_frag is_last m =
      loop (fragment_round hdr payload max_frag is_last) (length payload + 1)
        (record { offset = 0; mux = m })

  unfoldable pub write_nal : ℕ → Bytes → Bool → BaseMuxer → Run (Option BaseMuxer)
  write_nal mtu [] is_last m = ret (write_rtp accepts m [] ts is_last)
  write_nal mtu (hdr ∷ payload) is_last m =
      if leb (length (hdr ∷ payload)) mtu
      then ret (write_rtp accepts m (hdr ∷ payload) ts is_last)
      else if ltb (length (hdr ∷ payload)) 2
      then ret (some m)
      else if mtu - 2 == 0
      then ret (write_rtp accepts m (hdr ∷ payload) ts is_last)
      else write_fragments hdr payload (mtu - 2) is_last m

  -- The loop over the units of a packet: an error ends it.
  go_on : (BaseMuxer → Run (Option BaseMuxer)) → Option BaseMuxer → Run (Option BaseMuxer)
  go_on f none = ret none
  go_on f (some m) = f m

  unfoldable pub write_nals : ℕ → List Bytes → BaseMuxer → Run (Option BaseMuxer)
  unfolding go_on
  write_nals mtu [] m = ret (some m)
  write_nals mtu (nal ∷ nals) m =
      write_nal mtu nal (length nals == 0) m >>= go_on (write_nals mtu nals)

  with_parameter_sets : H264Muxer → Bool → List Bytes → List Bytes
  with_parameter_sets x is_key nals =
      if is_key && ltb 0 (length x.sps) && ltb 0 (length x.pps) then x.sps ∷ x.pps ∷ nals else nals

  unfoldable pub write_packet : H264Muxer → Bool → Bytes → Run (Option BaseMuxer)
  unfolding with_parameter_sets
  write_packet x is_key bytes = if length bytes == 0 then ret (some x.base) else do
    (nals, _) ← split_nalus bytes
    if length nals == 0
        then ret (some x.base)
        else write_nals x.mtu (with_parameter_sets x is_key nals) x.base
