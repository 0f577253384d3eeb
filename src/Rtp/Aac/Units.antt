-- ===== src/Rtp/Aac/Units.antt =====
-- The AU headers of RFC 3640.
use gomedia.Common.{
  ℕ, zero, suc, ◌+◌, ◌*◌, ◌/◌, ◌^◌, ◌<◌, ◌≡◌, refl, sym, ap, ◌∙◌, arith, or_join, ◌>>>◌, Bool, true,
  false, Option, none, some, List, [], ◌∷◌, ◌++◌, length, length-append, take-length_append,
  drop-length_append, ltb, ◌==◌, All, u8,
}
use gomedia.Pio.{Bytes}
use gomedia.Pio.Laws.{be}
use gomedia.Common.Run.{Run, ret, ◌>>=◌}
use gomedia.Rtp.Packet.{BaseMuxer, rtp_frame, rtp_timestamp, second_byte, is_rtcp_packet}
use gomedia.Rtp.Packet.RoundTrip.{received, read_packet-rtp_frame}
use gomedia.Aac.Adts.{AdtsError, no_sync_word, short_header, refused, parse_adts_header}
use gomedia.Rtp.Aac.{
  AacPacket, AacDemuxer, fine, two_bytes, take_frames, read_units, read_payload, by_payload,
  behind_base, pop_frame, answer_of, read_aac,
}

-- Each frame has a header: 13 bits for its length, and three of an index, which are 0.
abbrev pub unit_headers : List Bytes → Bytes
unit_headers [] = []
unit_headers (f ∷ fs) = be 2 (length f * 8) ++ unit_headers fs

abbrev pub joined_frames : List Bytes → Bytes
joined_frames [] = []
joined_frames (f ∷ fs) = f ++ joined_frames fs

-- The length of the headers in bits, the headers and the frames.
abbrev pub unit_payload : List Bytes → Bytes
unit_payload fs = be 2 (length fs * 16) ++ (unit_headers fs ++ joined_frames fs)

-- A packet for each frame, one duration apart.
abbrev pub frame_packets : ℕ → ℕ → ℕ → List Bytes → List AacPacket
frame_packets stream ts duration [] = []
frame_packets stream ts duration (f ∷ fs) =
    record { stream_index = stream; bytes = f; timestamp = ts; duration = duration }
    ∷ frame_packets stream (ts + duration) duration fs

abbrev pub IsShort : Bytes → Type 0
IsShort f = length f < 2 ^ 13

pub two_bytes-be : (v : ℕ) → v < 2 ^ 16 → two_bytes (u8 (v / 256 ^ 1)) (u8 (v / 256 ^ 0)) ≡ v
unfolding two_bytes
two_bytes-be v h = or_join 8 (u8 (v / 256 ^ 1)) (u8 (v / 256 ^ 0)) (omega arith) ∙ omega arith

take_frames-joined :
    (stream : ℕ) (fs : List Bytes) (ts duration : ℕ)
    → All IsShort fs
    → take_frames stream (length fs) (unit_headers fs) (joined_frames fs) ts duration
      ≡ frame_packets stream ts duration fs
unfolding take_frames be
take_frames-joined stream [] ts duration h = refl
take_frames-joined stream (f ∷ fs) ts duration (short, shorts) =
    let size : two_bytes (u8 (length f * 8 / 256 ^ 1)) (u8 (length f * 8 / 256 ^ 0)) >>> 3
        ≡ length f =
      omega (arith, two_bytes-be (length f * 8) (omega arith)) in
    let there : ltb (length (f ++ joined_frames fs)) (length f) ≡ false =
      ground (arith, length-append f (joined_frames fs)) in
    rw
      (
        size,
        there,
        take-length_append f (joined_frames fs),
        drop-length_append f (joined_frames fs),
      )
      (ap
        (λ ps.
          record { stream_index = stream; bytes = f; timestamp = ts; duration = duration } ∷ ps)
        (take_frames-joined stream fs (ts + duration) duration shorts))

length-unit_headers : (fs : List Bytes) → length (unit_headers fs) ≡ length fs * 2
unfolding be
length-unit_headers [] = refl
length-unit_headers (f ∷ fs) = omega (arith, length-unit_headers fs)

read_units-unit_payload :
    (fs : List Bytes) (ts duration : ℕ) (d : AacDemuxer)
    → All IsShort fs
    → length fs < 4080
    → read_units (unit_payload fs) ts duration d
      ≡ (fine, record d { packets = frame_packets d.codec.stream_index ts duration fs })
unfolding read_units be
read_units-unit_payload fs ts duration d short few =
    let count : two_bytes (u8 (length fs * 16 / 256 ^ 1)) (u8 (length fs * 16 / 256 ^ 0)) >>> 4
        ≡ length fs =
      omega (arith, two_bytes-be (length fs * 16) (omega arith)) in
    let room : ltb (2 + length (unit_headers fs ++ joined_frames fs)) (2 + length fs * 2) ≡ false =
      ground (arith, length-append (unit_headers fs) (joined_frames fs), length-unit_headers fs) in
    rw (count, room)
      (rw (sym (length-unit_headers fs)) (
        rw
          (
            take-length_append (unit_headers fs) (joined_frames fs),
            drop-length_append (unit_headers fs) (joined_frames fs),
          )
          (ap (λ ps. (fine, record d { packets = ps }))
            (take_frames-joined d.codec.stream_index fs ts duration short))))

-- Less than 4080 headers are no ADTS header.
no_sync :
    (b0 b1 : ℕ) (rest : Bytes)
    → b0 == 0xff ≡ false
    → (e : AdtsError) × (parse_adts_header (b0 ∷ b1 ∷ rest) ≡ refused e)
unfolding parse_adts_header
no_sync b0 b1 (b2 ∷ b3 ∷ b4 ∷ b5 ∷ b6 ∷ rest) h = (no_sync_word, rw h refl)
no_sync b0 b1 (b2 ∷ b3 ∷ b4 ∷ b5 ∷ []) h = (short_header, refl)
no_sync b0 b1 (b2 ∷ b3 ∷ b4 ∷ []) h = (short_header, refl)
no_sync b0 b1 (b2 ∷ b3 ∷ []) h = (short_header, refl)
no_sync b0 b1 (b2 ∷ []) h = (short_header, refl)
no_sync b0 b1 [] h = (short_header, refl)

unit_payload-refused :
    (fs : List Bytes)
    → length fs < 4080
    → (e : AdtsError) × (parse_adts_header (unit_payload fs) ≡ refused e)
unfolding be
unit_payload-refused fs few =
    no_sync (u8 (length fs * 16 / 256 ^ 1)) (u8 (length fs * 16 / 256 ^ 0))
      (unit_headers fs ++ joined_frames fs) (ground arith)

-- Calls of ReadPacket, and the packets they return.
abbrev given : Option AacPacket → List AacPacket
given none = []
given (some p) = p ∷ []

abbrev pub reads : ℕ → AacDemuxer → Run (List AacPacket × AacDemuxer)
reads zero d = ret ([], d)
reads (suc k) d = do (p, status, d') ← read_aac d; (ps, d'') ← reads k d'; ret (given p ++ ps, d'')

read_aac-queued :
    (d : AacDemuxer) (p : AacPacket) (ps : List AacPacket)
    → read_aac (record d { packets = p ∷ ps }) ≡ ret (some p, fine, record d { packets = ps })
unfolding read_aac answer_of pop_frame
read_aac-queued d p ps =
    let waiting : ltb 0 (suc (length ps)) ≡ true = ground arith in rw waiting refl

reads-queued :
    (d : AacDemuxer) (ps : List AacPacket)
    → reads (length ps) (record d { packets = ps }) ≡ ret (ps, record d { packets = [] })
reads-queued d [] = refl
reads-queued d (p ∷ ps) = rw (read_aac-queued d p ps, reads-queued d ps) refl

reads_count :
    (d : AacDemuxer) (ps : List AacPacket) (n : ℕ)
    → length ps ≡ n
    → reads n (record d { packets = ps }) ≡ ret (ps, record d { packets = [] })
reads_count d ps n e = rw (sym e) (reads-queued d ps)

length-frame_packets :
    (stream ts duration : ℕ) (fs : List Bytes)
    → length (frame_packets stream ts duration fs) ≡ length fs
length-frame_packets stream ts duration [] = refl
length-frame_packets stream ts duration (f ∷ fs) =
    ap suc (length-frame_packets stream (ts + duration) duration fs)

module _ (m : BaseMuxer) (f : Bytes) (fs : List Bytes) (ts : ℕ) (marker : Bool) where
  abbrev pub payload : Bytes
  payload = unit_payload (f ∷ fs)

  abbrev pub expected : ℕ → ℕ → List AacPacket
  expected stream scale =
      frame_packets stream (rtp_timestamp m.clock_rate ts * 10 ^ 9 / scale) (1024 * 10 ^ 9 / scale)
        (f ∷ fs)

  abbrev behind : ℕ → ℕ → List AacPacket
  behind stream scale =
      frame_packets stream (rtp_timestamp m.clock_rate ts * 10 ^ 9 / scale + 1024 * 10 ^ 9 / scale)
        (1024 * 10 ^ 9 / scale) fs

  -- The frames of a payload with AU headers, sent by writeRTP, are what as many calls of ReadPacket
  -- return, in order: the first at the time of the RTP timestamp and each of the others 1024
  -- samples behind the one before, with the stream index of the demuxer's codec, by a demuxer in
  -- which no packet waits. There is a frame and
  -- there are less than 4080, each of less than 2 ^ 13 bytes, the payload fits the length of its
  -- RTSP frame, which does not look like RTCP, and the time scale is not 0.
  pub reads-unit_payload :
      (d : AacDemuxer) (tail : Bytes)
      → d.packets ≡ []
      → 0 < d.time_scale
      → All IsShort (f ∷ fs)
      → length (f ∷ fs) < 4080
      → 12 + length payload < 2 ^ 16
      → is_rtcp_packet (second_byte m.payload_type marker) ≡ false
      → reads
          (length (f ∷ fs))
          (record d { base = record d.base { unread = rtp_frame m payload ts marker ++ tail } })
        ≡ ret (
          expected d.codec.stream_index d.time_scale,
          record d { base = received m payload ts marker tail; packets = [] },
        )
  reads-unit_payload d tail empty scaled short few fits data_packet =
      rw
        (
          first_read,
          reads_count (record d { base = received m payload ts marker tail })
              (behind d.codec.stream_index d.time_scale) (length fs)
              (length-frame_packets _ _ _ fs),
        )
        refl
    where
      first_read :
          read_aac
            (record d { base = record d.base { unread = rtp_frame m payload ts marker ++ tail } })
          ≡ ret (
            some (record {
              stream_index = d.codec.stream_index;
              bytes = f;
              timestamp = rtp_timestamp m.clock_rate ts * 10 ^ 9 / d.time_scale;
              duration = 1024 * 10 ^ 9 / d.time_scale;
            }),
            fine,
            record d {
              base = received m payload ts marker tail;
              packets = behind d.codec.stream_index d.time_scale;
            },
          )
      first_read =
          unfold read_aac behind_base by_payload read_payload answer_of pop_frame in
          let waits : ltb 0 (length d.packets) ≡ false = rw empty refl in
          let scale : d.time_scale == 0 ≡ false = ground (arith, scaled) in
          let (read, part) =
            read_packet-rtp_frame m payload ts marker d.base tail fits data_packet in
          let (e, no_adts) = unit_payload-refused (f ∷ fs) few in
          let units =
            read_units-unit_payload (f ∷ fs) (rtp_timestamp m.clock_rate ts * 10 ^ 9 / d.time_scale)
              (1024 * 10 ^ 9 / d.time_scale) (record d { base = received m payload ts marker tail })
              short few in
          rw (waits, read, part, scale, no_adts, units) refl
