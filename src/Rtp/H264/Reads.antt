-- ===== src/Rtp/H264/Reads.antt =====
-- Calls of ReadPacket of h264Demuxer on the frames of h264Muxer.
use gomedia.Common.{
  ℕ, zero, suc, ◌+◌, ◌*◌, ◌/◌, ◌^◌, ◌<◌, ◌≡◌, refl, sym, ap, ◌∙◌, Bool, false, u32, Option, none,
  some, List, [], ◌∷◌, ◌++◌, length, take, ltb, ◌==◌,
}
use gomedia.Common.Run.{Run, ret, ◌>>=◌}
use gomedia.Pio.{Bytes}
use gomedia.Pio.Laws.{be}
use gomedia.Rtp.Packet.{
  BaseMuxer, ok, rtp_frame, rtp_timestamp, second_byte, is_rtcp_packet, read_packet,
}
use gomedia.Rtp.Packet.RoundTrip.{received, frame_split, frame_split_at, read_packet-rtp_frame}
use gomedia.Rtp.H264.Demux
use gomedia.Rtp.H264.Demux.{H264Demuxer, Packet, Status, fine, nalu_type}
use gomedia.Rtp.H264.Receive.{holding}

-- No frame of this muxer looks like RTCP, whose packet types are 200 and 201.
abbrev pub SendsData : BaseMuxer → Type 0
SendsData m = (marker : Bool) → is_rtcp_packet (second_byte m.payload_type marker) ≡ false

abbrev pub head_or : Bytes → ℕ
head_or [] = 0
head_or (x ∷ xs) = x

-- The packet that a demuxer makes of a unit.
abbrev pub packet_of : BaseMuxer → ℕ → ℕ → Bytes → Packet
packet_of m ts hdr payload = record {
  is_key = nalu_type hdr == 5;
  timestamp = rtp_timestamp m.clock_rate ts * 10 ^ 6 / 90;
  bytes = be 4 (u32 (length (hdr ∷ payload))) ++ (hdr ∷ payload);
}

module _ {Codec : Type 0} (new_codec : Bytes → Bytes → Option Codec) where
  abbrev pub State : Type 0
  State = H264Demuxer Codec

  abbrev pub add_read : Option Packet → List Packet × Status × State → List Packet × Status × State
  add_read none r = r
  add_read (some p) (ps, s, d) = (p ∷ ps, s, d)

  abbrev pub unless_error :
      (State → Run (List Packet × Status × State))
      → Option Packet × Status × State
      → Run (List Packet × Status × State)
  unless_error f (p, fine, d) = do r ← f d; ret (add_read p r)
  unless_error f (p, e, d) = ret ([], e, d)

  -- A client that calls ReadPacket `n` times, and stops at an error. It skips nil packets.
  unfoldable pub reads : ℕ → State → Run (List Packet × Status × State)
  reads zero d = ret ([], fine, d)
  reads (suc n) d = Demux.read_h264 new_codec d >>= unless_error (reads n)

  module _ (m : BaseMuxer) (ts : ℕ) (marker : Bool) (tail : Bytes)
      (data_packet : is_rtcp_packet (second_byte m.payload_type marker) ≡ false) where
    abbrev pub front : Bytes → Bytes
    front f = take 16 (rtp_frame m f ts marker)

    received-holding :
        (f : Bytes)
        → received m f ts marker tail ≡ holding (front f) f tail (rtp_timestamp m.clock_rate ts)
    received-holding f i = record {
      unread = tail;
      payload = frame_split m f ts marker i;
      offset = sym (frame_split_at m f ts marker) i;
      end = length (frame_split m f ts marker i);
      timestamp = rtp_timestamp m.clock_rate ts;
    }

    -- A call of ReadPacket that finds no packet waiting takes the next frame.
    pub read_one :
        (d : State) (f : Bytes) (answer : Status × State)
        → 12 + length f < 2 ^ 16
        → d.packets ≡ []
        → d.base.unread ≡ rtp_frame m f ts marker ++ tail
        → Demux.units_of_payload new_codec
            (ok, holding (front f) f tail (rtp_timestamp m.clock_rate ts))
            d
          ≡ ret answer
        → Demux.read_h264 new_codec d ≡ ret (Demux.popped new_codec answer)
    unfolding Demux.read_h264
    read_one d f answer fits empty unread e =
        rw nothing_waits (rw base_read (rw (received-holding f) (rw e refl)))
      where
        nothing_waits : ltb 0 (length d.packets) ≡ false
        nothing_waits = rw empty refl

        base_read : read_packet d.base ≡ ret (ok, received m f ts marker tail)
        base_read =
            ap read_packet (λ i. record d.base { unread = unread i })
            ∙ (read_packet-rtp_frame m f ts marker d.base tail fits data_packet).0

  pub pop_none : (d : State) → d.packets ≡ [] → Demux.popped new_codec (fine, d) ≡ (none, fine, d)
  unfolding Demux.popped Demux.pop_packet
  pop_none d empty = ap (λ (r : Option Packet × State). (r.0, fine, r.1)) (ap pop empty)
    where
      pop : List Packet → Option Packet × State
      pop = elim [ [] ↦ (none, d) | p ∷ ps ↦ (some p, record d { packets = ps }) ]

  pub pop_added :
      (d : State) (m : BaseMuxer) (ts hdr : ℕ) (payload : Bytes)
      → d.packets ≡ []
      → d.base.timestamp ≡ rtp_timestamp m.clock_rate ts
      → Demux.popped new_codec
          (fine, Demux.add_packet new_codec (hdr ∷ payload) (nalu_type hdr == 5) d)
        ≡ (some (packet_of m ts hdr payload), fine, record d { packets = [] })
  unfolding Demux.popped Demux.pop_packet Demux.add_packet
  pop_added d m ts hdr payload empty time =
      ap (λ (r : Option Packet × State). (r.0, fine, r.1))
        (λ i. pop (
          empty i
          ++ (record {
            is_key = nalu_type hdr == 5;
            timestamp = time i * 10 ^ 6 / 90;
            bytes = be 4 (u32 (length (hdr ∷ payload))) ++ (hdr ∷ payload);
          }
              ∷ [])))
    where
      pop : List Packet → Option Packet × State
      pop = elim [
        | [] ↦ (none, Demux.add_packet new_codec (hdr ∷ payload) (nalu_type hdr == 5) d)
        | p ∷ ps ↦ (some p, record d { packets = ps })
      ]
