-- ===== src/Rtp/H264/RoundTrip.antt =====
-- What h264Muxer sends for a NAL unit, h264Demuxer reads back as one packet with that unit.
use gomedia.Common.{
  ℕ, ◌+◌, ◌-◌, ◌^◌, ◌<◌, ◌≡◌, inl, inr, refl, ap, ◌∙◌, arith, Bool, true, false, ◌&&◌, Option, [],
  ◌∷◌, ◌++◌, length, take, ltb, u16, leb, ◌==◌, All, IsByte, Bool-cases,
}
use gomedia.Common.Run.{ret}
use gomedia.Pio.{Bytes}
use gomedia.Rtp.Packet.{BaseMuxer, rtp_frame, rtp_timestamp, write_rtp}
use gomedia.Rtp.H264.Mux.{write_nal}
use gomedia.Rtp.H264.Demux.{nalu_type}
use gomedia.Rtp.H264.Receive.{whole_slice}
use mathlib.Core.List.{flatten}
use gomedia.Rtp.H264.Reads.{SendsData, read_one, pop_added, packet_of}
use gomedia.Rtp.H264.Fragments.{flatten_first, reads_packet, Carries, write_fragments_carry}

module _ {Codec : Type 0} (new_codec : Bytes → Bytes → Option Codec) where
  -- A unit that fits one packet.
  whole-Carries :
      (m : BaseMuxer) (ts hdr : ℕ) (payload : Bytes) (is_last : Bool)
      → SendsData m
      → All IsByte (hdr ∷ payload)
      → leb 1 (nalu_type hdr) && leb (nalu_type hdr) 5 ≡ true
      → length (hdr ∷ payload) + 12 < 2 ^ 16
      → Carries new_codec
          (ret (write_rtp (λ _. true) m (hdr ∷ payload) ts is_last))
          m
          (λ _. Unit)
          (packet_of m ts hdr payload)
  unfolding flatten
  whole-Carries m ts hdr payload is_last data_packets bytes slice_type fits = (
    record m { sequence = u16 (m.sequence + 1); sent = m.sent ++ (sent_frame ∷ []) },
    sent_frame ∷ [],
    (unfold write_rtp in refl),
    refl,
    λ tail d _ empty unread.
        reads_packet new_codec d _ (packet_of m ts hdr payload) tail
          (read_one new_codec m ts is_last tail (data_packets is_last) d (hdr ∷ payload) _
              (omega arith) empty (unread ∙ flatten_first sent_frame [] tail)
              (whole_slice new_codec (take 16 sent_frame) tail (rtp_timestamp m.clock_rate ts) d hdr
                payload bytes (omega arith) slice_type)
            ∙ ap ret (pop_added new_codec _ m ts hdr payload empty refl))
          refl refl,
  )
    where
      sent_frame : Bytes
      sent_frame = rtp_frame m (hdr ∷ payload) ts is_last

  -- Over a connection that takes every write, the muxer sends a slice NAL unit (types 1 to 5),
  -- whole or in FU-A fragments, as frames from which a demuxer with no packet waiting, whatever
  -- fragments it had begun, reads exactly one packet. It has the length prefix and the bytes of
  -- the unit, the key frame flag of its type and the RTP timestamp, and the bytes behind the
  -- frames are left unread. The MTU holds the two header bytes of FU-A and one byte at least,
  -- a frame fits the 16 bits of its length, and no frame looks like RTCP.
  pub read-write_nal :
      (m : BaseMuxer) (ts mtu hdr : ℕ) (payload : Bytes) (is_last : Bool)
      → SendsData m
      → All IsByte (hdr ∷ payload)
      → leb 1 (nalu_type hdr) && leb (nalu_type hdr) 5 ≡ true
      → 2 < mtu
      → mtu + 12 < 2 ^ 16
      → Carries new_codec
          (write_nal (λ _. true) ts mtu (hdr ∷ payload) is_last m)
          m
          (λ _. Unit)
          (packet_of m ts hdr payload)
  unfolding write_nal
  read-write_nal m ts mtu hdr payload is_last data_packets bytes slice_type room fits =
      elim (Bool-cases (leb (length (hdr ∷ payload)) mtu)) [
        | inl small ↦
            rw small
              (whole-Carries m ts hdr payload is_last data_packets bytes slice_type (ground arith))
        | inr large ↦
            let two : ltb (length (hdr ∷ payload)) 2 ≡ false = ground arith in
            let some_room : mtu - 2 == 0 ≡ false = ground arith in
            rw (large, two, some_room)
              (write_fragments_carry new_codec ts hdr payload (mtu - 2) is_last bytes slice_type
                (omega arith) (omega arith) m data_packets (ground arith))
      ]
