-- ===== src/Rtp/Packet.antt =====
-- format/rtp/base_muxer.go and base_demuxer.go: one RTP packet in an RTSP interleaved frame.
-- The connection of a muxer is the parameter `accepts`: whether `w.Write` takes the bytes, all of
-- them, or fails. That of a demuxer is the list of the bytes that are still to come.
pub mod RoundTrip
use gomedia.Common.{
  ℕ, ◌+◌, ◌-◌, ◌*◌, ◌/◌, ◌^◌, Bool, ◌&&◌, ◌||◌, bit_and, bit_or, ◌>>>◌, u16, u32, u64, Option, none,
  some, List, [], ◌∷◌, ◌++◌, length, get_elem?, take, drop, ltb, leb, ◌==◌, if◌then◌else◌,
}
use gomedia.Common.Run.{Run, ret, ◌>>=◌, index}
use gomedia.Pio.{Bytes, u16be, u32be}
use gomedia.Pio.Laws.{be}

abbrev pub rtsp_header_size : ℕ
rtsp_header_size = 4

abbrev pub rtp_header_size : ℕ
rtp_header_size = 12

-- baseMuxer. `sent` lists what went out, in order; `buf` is scratch memory.
pub record BaseMuxer : Type 0 where
  pub payload_type : ℕ
  pub clock_rate : ℕ
  pub ssrc : ℕ
  pub sequence : ℕ
  pub channel : ℕ
  pub sent : List Bytes

-- `ts` is a time.Duration in nanoseconds.
unfoldable pub rtp_timestamp : ℕ → ℕ → ℕ
rtp_timestamp clock_rate ts = u32 (u64 (u64 ts * clock_rate) / 10 ^ 9)

unfoldable pub second_byte : ℕ → Bool → ℕ
second_byte payload_type marker = if marker then bit_or 0x80 payload_type else payload_type

-- The RTP packet that writeRTP lays out in `buf`; `be 2` and `be 4` are PutUint16 and PutUint32
-- of encoding/binary.
unfoldable pub rtp_body : BaseMuxer → Bytes → ℕ → Bool → Bytes
unfolding rtp_timestamp second_byte
rtp_body m payload ts marker =
    0x80
    ∷ second_byte m.payload_type marker
    ∷ (be 2 m.sequence ++ (be 4 (rtp_timestamp m.clock_rate ts) ++ (be 4 m.ssrc ++ payload)))

-- The packet behind the header of RTSP interleaving.
unfoldable pub rtp_frame : BaseMuxer → Bytes → ℕ → Bool → Bytes
rtp_frame m payload ts marker =
    0x24
    ∷ m.channel
    ∷ (be 2 (u16 (rtp_header_size + length payload)) ++ rtp_body m payload ts marker)

-- `none` is the error of a failed write.
unfoldable pub write_rtp : (Bytes → Bool) → BaseMuxer → Bytes → ℕ → Bool → Option BaseMuxer
write_rtp accepts m payload ts marker =
    let frame = rtp_frame m payload ts marker in
    if accepts frame
    then some (record m { sequence = u16 (m.sequence + 1); sent = m.sent ++ (frame ∷ []) })
    else none

-- baseDemuxer, with the bytes of its reader that are still to come.
pub record BaseDemuxer : Type 0 where
  pub unread : Bytes
  pub payload : Bytes
  pub offset : ℕ
  pub end : ℕ
  pub timestamp : ℕ

-- `nil`, a short read, an RTP length below 12, and the io.EOF that an RTCP packet is reported as.
pub data ReadError : Type 0 where
  short_read packet_size rtcp : ReadError

pub data Reply : Type 0 where
  ok : Reply
  err : ReadError → Reply

unfoldable pub is_rtcp_packet : ℕ → Bool
is_rtcp_packet t = t == 200 || t == 201

-- The header of the frame in `payload`, past the fixed twelve bytes of RTP. The offsets leave out
-- the four bytes of the RTSP header until the last line.
skip_csrc : ℕ → BaseDemuxer → BaseDemuxer
skip_csrc csrc_cnt d =
    if leb (4 * csrc_cnt) (d.end - d.offset)
    then record d { offset = d.offset + 4 * csrc_cnt }
    else d

extension_words : ℕ → BaseDemuxer → BaseDemuxer
extension_words words d =
    if leb (4 * words) (d.end - d.offset) then record d { offset = d.offset + 4 * words } else d

skip_extension : BaseDemuxer → Run BaseDemuxer
unfolding extension_words
skip_extension d =
    if leb 4 (d.end - d.offset)
    then (do
      words ← index (u16be (drop (4 + d.offset + 2) d.payload))
      ret (extension_words words (record d { offset = d.offset + 4 })))
    else ret d

padding_bytes : ℕ → BaseDemuxer → BaseDemuxer
padding_bytes n d = if leb n (d.end - d.offset) then record d { end = d.end - n } else d

drop_padding : BaseDemuxer → Run BaseDemuxer
unfolding padding_bytes
drop_padding d =
    if ltb 0 (d.end - d.offset)
    then (do n ← index (get_elem? d.payload (d.end - 1)); ret (padding_bytes n d))
    else ret d

-- `d.offset += 4` at the end of ReadPacket
past_rtsp : BaseDemuxer → BaseDemuxer
past_rtsp d = record d { offset = d.offset + 4 }

-- `firstByte>>k & 1 == 1`
flag : ℕ → ℕ → Bool
flag first k = bit_and (first >>> k) 1 == 1

padding : ℕ → BaseDemuxer → Run BaseDemuxer
unfolding drop_padding flag past_rtsp
padding first d = do d' ← if flag first 5 then drop_padding d else ret d; ret (past_rtsp d')

-- The optional parts of the header. Where the extension header is cut off, ReadPacket returns
-- at once, without an error.
unfoldable pub optional_parts : ℕ → BaseDemuxer → Run BaseDemuxer
unfolding skip_csrc skip_extension padding flag
optional_parts first d =
    let d' = skip_csrc (bit_and first 0x0f) d in
    if flag first 4 && ltb (length d'.payload) (4 + d'.offset + 2 + 2)
    then ret d'
    else (do d'' ← if flag first 4 then skip_extension d' else ret d'; padding first d'')

-- A packet whose frame has been read into `payload`.
unfoldable pub parse_packet : BaseDemuxer → Run (Reply × BaseDemuxer)
unfolding optional_parts is_rtcp_packet
parse_packet d = do
  packet_type ← index (get_elem? d.payload 5)
  (if is_rtcp_packet packet_type then ret (err rtcp, d) else (do
    first ← index (get_elem? d.payload 4)
    timestamp ← index (u32be (drop 8 d.payload))
    d' ←
        optional_parts first
          (record d { timestamp = timestamp; offset = rtp_header_size; end = length d.payload })
    ret (ok, d')))

-- The body of a frame of `size` bytes, behind the header of four bytes, which stays in `payload`.
unfoldable pub read_body : ℕ → Bytes → Bytes → BaseDemuxer → Run (Reply × BaseDemuxer)
read_body size header rest d =
    if ltb (length rest) size
    then ret (err short_read, record d { unread = [] })
    else parse_packet (record d { unread = drop size rest; payload = header ++ take size rest })

unfoldable pub read_packet : BaseDemuxer → Run (Reply × BaseDemuxer)
read_packet d =
    let header = take rtsp_header_size d.unread in
    let rest = drop rtsp_header_size d.unread in
    if ltb (length d.unread) rtsp_header_size
    then ret (err short_read, record d { unread = [] })
    else (do
      size ← index (u16be (drop 2 header))
      (if ltb size rtp_header_size
          then ret (err packet_size, record d { unread = rest })
          else read_body size header rest d))
