-- ===== src/Rtp/H264/Overrun.antt =====
-- A malformed RTP packet that makes the demuxer panic.
use gomedia.Common.{ℕ, ◌≡◌, refl, ap, arith, false, Option, [], ◌∷◌, ◌++◌, ltb, length, ◌%◌, ◌^◌}
use gomedia.Common.Run.{panic, ret}
use gomedia.Pio.{Bytes}
use gomedia.Pio.Laws.{be, u16be-be, u32be-be}
use gomedia.Rtp.Packet.{ok, is_rtcp_packet, read_packet, read_body, parse_packet}
use gomedia.Rtp.H264.Demux
use gomedia.Rtp.H264.Demux.{H264Demuxer}

module _ {Codec : Type 0} (new_codec : Bytes → Bytes → Option Codec) where
  -- An RTP packet of twelve bytes, nothing behind the fixed header, that announces one CSRC: the
  -- demuxer compares the length of the CSRC list with a count that still holds the four bytes of
  -- the RTSP header, so that the payload begins behind its end and slicing it panics.
  pub read_h264-csrc_overrun :
      (d : H264Demuxer Codec) (channel packet_type sequence timestamp ssrc : ℕ) (tail : Bytes)
      → d.packets ≡ []
      → is_rtcp_packet packet_type ≡ false
      → d.base.unread
        ≡ 0x24
          ∷ channel
          ∷ 0
          ∷ 12
          ∷ 0x81
          ∷ packet_type
          ∷ (be 2 sequence ++ (be 4 timestamp ++ (be 4 ssrc ++ tail)))
      → Demux.read_h264 new_codec d ≡ panic
  unfolding Demux.read_h264 be
  read_h264-csrc_overrun d channel packet_type sequence timestamp ssrc tail empty data_packet
        unread =
      rw waits (
        rw (ap read_packet (λ i. record d.base { unread = unread i }))
          (rw read (unfold Demux.units_of_payload in refl)))
    where
      read :
          read_packet (record d.base {
            unread =
                0x24
                ∷ channel
                ∷ 0
                ∷ 12
                ∷ 0x81
                ∷ packet_type
                ∷ (be 2 sequence ++ (be 4 timestamp ++ (be 4 ssrc ++ tail)));
          })
          ≡ ret (
            ok,
            record {
              unread = tail;
              payload =
                  0x24
                  ∷ channel
                  ∷ 0
                  ∷ 12
                  ∷ 0x81
                  ∷ packet_type
                  ∷ (be 2 sequence ++ (be 4 timestamp ++ be 4 ssrc));
              offset = 20;
              end = 16;
              timestamp = timestamp % 2 ^ 32;
            },
          )
      read =
          unfold read_packet read_body parse_packet in
          rw (u16be-be 12 []) (rw data_packet (rw (u32be-be timestamp (be 4 ssrc)) (ground arith)))

      waits : ltb 0 (length d.packets) ≡ false
      waits = rw empty refl
