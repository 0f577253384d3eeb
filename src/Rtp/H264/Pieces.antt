-- ===== src/Rtp/H264/Pieces.antt =====
-- ReadPacket of h264Demuxer on one FU-A fragment of h264Muxer.
use gomedia.Common.{
  ℕ, ◌+◌, ◌^◌, ◌≤◌, ◌<◌, ◌≡◌, refl, ap, ◌∙◌, arith, Bool, true, false, ◌&&◌, Option, none, some, [],
  ◌∷◌, ◌++◌, length, take, drop, leb, ◌==◌, All, IsByte, length-take, All-take, All-drop,
}
use gomedia.Common.Run.{ret, slice, slice_behind_two}
use gomedia.Pio.{Bytes}
use gomedia.Rtp.Packet.{
  BaseMuxer, BaseDemuxer, ok, rtp_frame, rtp_timestamp, second_byte, is_rtcp_packet,
}
use gomedia.Rtp.H264.Mux.{fragment, fu_indicator, fu_header, frag_size, is_end}
use gomedia.Rtp.H264.Demux
use gomedia.Rtp.H264.Demux.{H264Demuxer, Packet, Status, fine, nalu_type}
use gomedia.Rtp.H264.Header.{IsFragmentHeader, fragment_header}
use gomedia.Rtp.H264.Receive.{
  holding, fragment_unit, Ready, collected, inner_fragment, last_fragment,
}
use gomedia.Rtp.H264.Reads.{read_one, pop_none, pop_added, packet_of}

module _ {Codec : Type 0} (new_codec : Bytes → Bytes → Option Codec) where
  abbrev State : Type 0
  State = H264Demuxer Codec

  module _ (ts hdr : ℕ) (payload : Bytes) (max_frag : ℕ) (bytes : All IsByte (hdr ∷ payload))
      (slice_type : leb 1 (nalu_type hdr) && leb (nalu_type hdr) 5 ≡ true)
      (fits : max_frag + 14 < 2 ^ 16) where
    abbrev pub piece : ℕ → Bytes
    piece = fragment hdr payload max_frag

    pub frag_size-le : (offset : ℕ) → frag_size payload max_frag offset ≤ max_frag
    unfolding frag_size
    frag_size-le offset = ground arith

    pub length-piece : (offset : ℕ) → length (piece offset) ≤ max_frag + 2
    unfolding fragment
    length-piece offset = omega (
      arith,
      length-take (frag_size payload max_frag offset) (drop offset payload),
      frag_size-le offset,
    )

    module _ (m : BaseMuxer) (marker : Bool) (tail : Bytes) (offset : ℕ) (d : State)
        (data_packet : is_rtcp_packet (second_byte m.payload_type marker) ≡ false)
        (ready : Ready new_codec hdr payload max_frag offset d) (empty : d.packets ≡ [])
        (unread : d.base.unread ≡ rtp_frame m (piece offset) ts marker ++ tail) where
      abbrev pub base : BaseDemuxer
      base =
          holding (take 16 (rtp_frame m (piece offset) ts marker)) (piece offset) tail
            (rtp_timestamp m.clock_rate ts)

      abbrev start : Bool
      start = offset == 0

      abbrev pub end : Bool
      end = is_end payload max_frag offset

      abbrev part : Bytes
      part = take (frag_size payload max_frag offset) (drop offset payload)

      facts : IsFragmentHeader hdr start end
      facts = fragment_header hdr start end bytes.0

      handed_over :
          Demux.units_of_payload new_codec (ok, base) d
          ≡ Demux.append_fragment new_codec (fu_header hdr start end) (
              Demux.start_fragment new_codec
                (fu_indicator hdr)
                (fu_header hdr start end)
                (record d { base = base }))
      unfolding fragment
      handed_over =
          fragment_unit new_codec (take 16 (rtp_frame m (piece offset) ts marker)) tail
            (rtp_timestamp m.clock_rate ts) d (fu_indicator hdr) (fu_header hdr start end) part
            facts.is_fu_a facts.indicator_pos
            (facts.indicator_byte, (facts.header_byte, part_bytes))
            (omega (arith, length-piece offset))
        where
          part_bytes : All IsByte part
          part_bytes =
              All-take IsByte _ (drop offset payload) (All-drop IsByte offset payload bytes.1)

      slice-part : slice base.payload (base.offset + 2) base.end ≡ ret part
      unfolding fragment
      slice-part =
          slice_behind_two (take 16 (rtp_frame m (piece offset) ts marker)) (fu_indicator hdr)
            (fu_header hdr start end) part

      -- What processLFUA makes of the fragment decides what ReadPacket returns.
      read_piece :
          (answer : Status × State)
          → Demux.append_fragment new_codec
              (fu_header hdr (offset == 0) (is_end payload max_frag offset))
              (Demux.start_fragment new_codec
                (fu_indicator hdr)
                (fu_header hdr (offset == 0) (is_end payload max_frag offset))
                (record d { base = base }))
            ≡ ret answer
          → Demux.read_h264 new_codec d ≡ ret (Demux.popped new_codec answer)
      read_piece answer e =
          read_one new_codec m ts marker tail data_packet d (piece offset) answer
            (omega (arith, length-piece offset)) empty unread (handed_over ∙ e)

      pub read_inner :
          end ≡ false
          → Demux.read_h264 new_codec d
            ≡ ret (
              none,
              fine,
              collected new_codec hdr payload max_frag
                  (offset + frag_size payload max_frag offset)
                  (record d { base = base }),
            )
      read_inner h =
          read_piece _ (
            inner_fragment new_codec hdr payload max_frag offset (record d { base = base }) bytes.0
              ready h slice-part)
          ∙ ap ret (pop_none new_codec _ empty)

      pub read_last :
          end ≡ true
          → Demux.read_h264 new_codec d
            ≡ ret (
              some (packet_of m ts hdr payload),
              fine,
              record d { base = base; fu_started = false; buffer = hdr ∷ payload; packets = [] },
            )
      read_last h =
          read_piece _ (
            last_fragment new_codec hdr payload max_frag offset (record d { base = base }) bytes.0
              ready h slice_type slice-part)
          ∙ ap ret (pop_added new_codec _ m ts hdr payload empty refl)
