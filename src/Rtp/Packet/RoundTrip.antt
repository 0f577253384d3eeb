-- ===== src/Rtp/Packet/RoundTrip.antt =====
-- What baseMuxer.writeRTP sends, baseDemuxer.ReadPacket reads back.
use gomedia.Common.{
  ℕ, ◌+◌, ◌-◌, ◌%◌, ◌^◌, ◌<◌, ◌≡◌, refl, arith, Bool, false, u16, [], ◌++◌, length, take, drop,
  length-append, take-length, take-length_append, drop-length_append,
}
use gomedia.Common.Run.{ret, slice}
use gomedia.Pio.{Bytes}
use gomedia.Pio.Laws.{be, u16be-be, u32be-be}
use gomedia.Rtp.Packet.{
  BaseMuxer, BaseDemuxer, ok, rtp_body, rtp_frame, rtp_timestamp, second_byte, is_rtcp_packet,
  parse_packet, read_body, read_packet,
}

timestamp_fits : (c t : ℕ) → rtp_timestamp c t % 2 ^ 32 ≡ rtp_timestamp c t
unfolding rtp_timestamp
timestamp_fits c t = omega arith

module _ (m : BaseMuxer) (payload : Bytes) (ts : ℕ) (marker : Bool) where
  abbrev pub frame : Bytes
  frame = rtp_frame m payload ts marker

  length-rtp_body : length (rtp_body m payload ts marker) ≡ 12 + length payload
  unfolding rtp_body be
  length-rtp_body = omega arith

  length-rtp_frame : length frame ≡ 16 + length payload
  unfolding rtp_frame be
  length-rtp_frame = omega (arith, length-rtp_body)

  -- The sixteen bytes in front of the payload.
  pub frame_split : rtp_frame m payload ts marker ≡ take 16 frame ++ payload
  unfolding rtp_frame rtp_body be
  frame_split = refl

  pub frame_split_at : length (take 16 frame) ≡ 16
  unfolding rtp_frame rtp_body be
  frame_split_at = refl

  -- The demuxer behind a packet that was read.
  abbrev pub received : Bytes → BaseDemuxer
  received tail = record {
    unread = tail;
    payload = frame;
    offset = 16;
    end = length frame;
    timestamp = rtp_timestamp m.clock_rate ts;
  }

  parse_frame :
      (tail : Bytes) (o e t : ℕ)
      → is_rtcp_packet (second_byte m.payload_type marker) ≡ false
      → parse_packet (record { unread = tail; payload = frame; offset = o; end = e; timestamp = t })
        ≡ ret (ok, received tail)
  unfolding rtp_frame rtp_body be parse_packet
  parse_frame tail o e t data_packet = rw data_packet (
      rw (u32be-be (rtp_timestamp m.clock_rate ts) (be 4 m.ssrc ++ payload))
        (rw (timestamp_fits m.clock_rate ts) (ground arith)))

  abbrev body : Bytes
  body = rtp_body m payload ts marker

  read_body-frame :
      (d : BaseDemuxer) (tail : Bytes)
      → is_rtcp_packet (second_byte m.payload_type marker) ≡ false
      → read_body (length body) (take 4 frame) (body ++ tail) d ≡ ret (ok, received tail)
  unfolding read_body
  read_body-frame d tail data_packet =
      rw (take-length_append, drop-length_append)
        (rw (whole, parse_frame tail d.offset d.end d.timestamp data_packet)
          (ground (arith, length-append body tail)))
    where
      whole : take 4 frame ++ body ≡ frame
      whole = unfold rtp_frame be in refl

  -- ReadPacket reads a frame of writeRTP back, if its length fits the 16 bits of the RTSP header
  -- and the payload type does not look like RTCP: `payload[offset:end]` is what was sent, the
  -- RTP timestamp is that of the muxer's clock, and what follows the frame is left unread.
  pub read_packet-rtp_frame :
      (d : BaseDemuxer) (tail : Bytes)
      → 12 + length payload < 2 ^ 16
      → is_rtcp_packet (second_byte m.payload_type marker) ≡ false
      → (read_packet (record d { unread = rtp_frame m payload ts marker ++ tail })
          ≡ ret (ok, received tail))
        × (slice frame 16 (length frame) ≡ ret payload)
  read_packet-rtp_frame d tail fits data_packet = (
    (unfold read_packet rtp_frame be in
        rw (u16be-be (u16 (12 + length payload)) []) (
          rw size (
            rw (read_body-frame (record d { unread = frame ++ tail }) tail data_packet)
              (ground (arith, length-rtp_body))))),
    ground (arith, length-rtp_frame, payload_part),
  )
    where
      payload_part : take (length frame - 16) (drop 16 frame) ≡ payload
      payload_part =
          let e : length frame - 16 ≡ length payload = omega (arith, length-rtp_frame) in
          rw e (unfold rtp_frame rtp_body be in take-length payload (length payload) (omega arith))

      size : u16 (12 + length payload) % 2 ^ 16 ≡ length body
      size = omega (arith, length-rtp_body)
