-- ===== src/Rtp/Aac.antt =====
-- format/rtp/aac.go: AAC frames from RTP payloads, with an ADTS header or behind AU headers, and the
-- codec parameters that codec/aac/parameters.go makes of a config. The demuxer has no ring, so that
-- each packet is a heap slice, and the clock reading and the codec of a packet are left out.
pub mod Units
pub mod Headed
mod Examples
use gomedia.Common.{
  ℕ, zero, suc, ◌+◌, ◌-◌, ◌*◌, ◌/◌, ◌^◌, Bool, ◌&&◌, not, bit_or, ◌>>>◌, Option, none, some, List,
  [], ◌∷◌, length, take, drop, ltb, ◌==◌, if◌then◌else◌,
}
use gomedia.Common.Run.{Run, ret, panic, ◌>>=◌, slice}
use gomedia.Pio.{Bytes}
use gomedia.Rtp.Packet.{BaseDemuxer, ReadError, Reply, ok, err, read_packet}
use gomedia.Aac.{Mpeg4AudioConfig, ConfigAnswer, rejected, parsed, parse_config, write_config}
use gomedia.Aac.Adts.{AdtsHeader, AdtsAnswer, refused, header, parse_adts_header}

-- CodecParameters of codec/aac
pub record CodecParameters : Type 0 where
  pub stream_index : ℕ
  pub config_bytes : Bytes
  pub config : Mpeg4AudioConfig

-- aac.Packet: its bytes, its times in nanoseconds, and the index of its stream.
pub record AacPacket : Type 0 where
  pub stream_index : ℕ
  pub bytes : Bytes
  pub timestamp : ℕ
  pub duration : ℕ

pub record AacDemuxer : Type 0 where
  pub base : BaseDemuxer
  pub codec : CodecParameters
  pub time_scale : ℕ
  pub packets : List AacPacket

-- The error that ReadPacket returns, `fine` for nil.
pub data AacStatus : Type 0 where
  fine config_error short_section count_exceeds : AacStatus
  read_error : ReadError → AacStatus

-- NewCodecDataFromMPEG4AudioConfig. Its error is `none`: the parameters it leaves are not told.
unfoldable pub parameters_of : Bytes → ConfigAnswer → Option CodecParameters
parameters_of bytes (rejected e) = none
parameters_of bytes (parsed c) =
    some (record { stream_index = 0; config_bytes = bytes; config = c })

unfoldable pub new_codec_data : Mpeg4AudioConfig → Option CodecParameters
new_codec_data c = let bytes = write_config c in parameters_of bytes (parse_config bytes)

unfoldable pub same_config : Mpeg4AudioConfig → Mpeg4AudioConfig → Bool
same_config a b =
    a.sample_rate == b.sample_rate
    && a.channel_layout == b.channel_layout
    && a.object_type == b.object_type
    && a.sample_rate_index == b.sample_rate_index
    && a.channel_config == b.channel_config

-- A frame with an ADTS header.
unfoldable pub take_codec : Option CodecParameters → AacDemuxer → AacStatus × AacDemuxer
take_codec none d = (config_error, d)
take_codec (some codec) d = (fine, record d { codec = codec })

unfoldable pub see_config : Mpeg4AudioConfig → AacDemuxer → AacStatus × AacDemuxer
see_config c d = if same_config d.codec.config c then (fine, d) else take_codec (new_codec_data c) d

unfoldable pub add_frame : Bytes → ℕ → ℕ → AacStatus × AacDemuxer → AacStatus × AacDemuxer
add_frame frame ts duration (fine, d) = (
  fine,
  record d {
    packets =
        record {
          stream_index = d.codec.stream_index;
          bytes = frame;
          timestamp = ts;
          duration = duration;
        }
        ∷ [];
  },
)
add_frame frame ts duration (e, d) = (e, d)

-- Frames behind AU headers: the numbers of two bytes, and the loop over the headers.
unfoldable pub two_bytes : ℕ → ℕ → ℕ
two_bytes b0 b1 = bit_or (b0 * 2 ^ 8) b1

unfoldable pub take_frames : ℕ → ℕ → Bytes → Bytes → ℕ → ℕ → List AacPacket
take_frames stream zero headers frames ts duration = []
take_frames stream (suc k) (h0 ∷ h1 ∷ headers) frames ts duration =
    let size = two_bytes h0 h1 >>> 3 in
    let rest = take_frames stream k headers (drop size frames) (ts + duration) duration in
    if ltb (length frames) size
    then []
    else record {
      stream_index = stream;
      bytes = take size frames;
      timestamp = ts;
      duration = duration;
    }
      ∷ rest
take_frames stream (suc k) _ frames ts duration = []

unfoldable pub read_units : Bytes → ℕ → ℕ → AacDemuxer → AacStatus × AacDemuxer
read_units (b0 ∷ b1 ∷ rest) ts duration d =
    let size = (two_bytes b0 b1 >>> 4) * 2 in
    if ltb (2 + length rest) (2 + size) then (count_exceeds, d) else (
      fine,
      record d {
        packets =
            take_frames d.codec.stream_index (two_bytes b0 b1 >>> 4) (take size rest)
              (drop size rest) ts duration;
      },
    )
read_units _ ts duration d = (short_section, d)

unfoldable pub read_payload : Bytes → ℕ → ℕ → AacDemuxer → AdtsAnswer → AacStatus × AacDemuxer
read_payload buf ts duration d (header h) =
    add_frame (drop h.hdrlen buf) ts duration (see_config h.config d)
read_payload buf ts duration d (refused _) = read_units buf ts duration d

-- The division by a time scale of 0 panics.
unfoldable pub by_payload : Bytes → AacDemuxer → Run (AacStatus × AacDemuxer)
by_payload buf d =
    if d.time_scale == 0
    then panic
    else ret (
        read_payload buf (d.base.timestamp * 10 ^ 9 / d.time_scale) (1024 * 10 ^ 9 / d.time_scale) d
          (parse_adts_header buf))

unfoldable pub behind_base : Reply × BaseDemuxer → AacDemuxer → Run (AacStatus × AacDemuxer)
behind_base (err e, b) d = ret (read_error e, record d { base = b })
behind_base (ok, b) d = do
  buf ← slice b.payload b.offset b.end
  by_payload buf (record d { base = b })

unfoldable pub pop_frame : AacDemuxer → Option AacPacket × AacDemuxer
pop_frame d = elim d.packets [ [] ↦ (none, d) | p ∷ ps ↦ (some p, record d { packets = ps }) ]

unfoldable pub answer_of : AacStatus × AacDemuxer → Option AacPacket × AacStatus × AacDemuxer
answer_of (fine, d) = let (p, d') = pop_frame d in (p, fine, d')
answer_of (e, d) = (none, e, d)

-- ReadPacket
unfoldable pub read_aac : AacDemuxer → Run (Option AacPacket × AacStatus × AacDemuxer)
read_aac d =
    if ltb 0 (length d.packets)
    then ret (answer_of (fine, d))
    else (do r ← read_packet d.base; answer ← behind_base r d; ret (answer_of answer))
