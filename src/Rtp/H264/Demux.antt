-- ===== src/Rtp/H264/Demux.antt =====
-- format/rtp/h264.go and hxxx_demuxer.go: from RTP payloads to packets with one NAL unit each.
-- `new_codec` is NewCodecDataFromSPSAndPPS of codec/h264, `none` where it fails. The demuxer has
-- no ring, so that each packet is a heap slice, and the clock reading of a packet is left out.
use gomedia.Common.{
  ℕ, ◌+◌, ◌-◌, ◌*◌, ◌/◌, ◌^◌, Bool, true, false, ◌&&◌, ◌||◌, bit_and, bit_or, u32, Option, none,
  some, List, [], ◌∷◌, ◌++◌, length, get_elem?, drop, ltb, leb, ◌==◌, if◌then◌else◌,
}
use gomedia.Common.Run.{Run, ret, ◌>>=◌, index, slice, Round, next, done, loop}
use gomedia.Pio.{Bytes}
use gomedia.Pio.Laws.{be}
use gomedia.Nal.{split_nalus}
use gomedia.Rtp.Packet.{BaseDemuxer, ReadError, Reply, ok, err, read_packet}

-- h264.Packet
pub record Packet : Type 0 where
  pub is_key : Bool
  pub timestamp : ℕ
  pub bytes : Bytes

-- The error that a method returns, `fine` for nil.
pub data Status : Type 0 where
  fine codec_error fu_too_short empty_nal : Status
  read_error : ReadError → Status

-- bytes.Equal
unfoldable pub bytes_equal : Bytes → Bytes → Bool
bytes_equal [] [] = true
bytes_equal (x ∷ xs) (y ∷ ys) = x == y && bytes_equal xs ys
bytes_equal _ _ = false

-- h264Demuxer; `buffer` is BufferRTPPacket.
pub record H264Demuxer (Codec : Type 0) : Type 0 where
  pub base : BaseDemuxer
  pub sps : Bytes
  pub pps : Bytes
  pub codec : Option Codec
  pub packets : List Packet
  pub fu_started : Bool
  pub buffer : Bytes

-- `nalU[0] & control1`
unfoldable pub nalu_type : ℕ → ℕ
nalu_type first = bit_and first 0x1f

module _ {Codec : Type 0} (new_codec : Bytes → Bytes → Option Codec) where
  abbrev pub State : Type 0
  State = H264Demuxer Codec

  abbrev pub Answer : Type 0
  Answer = Run (Status × State)

  -- A call whose error is returned at once.
  abbrev pub or_return : (State → Answer) → Status × State → Answer
  or_return f (fine, d) = f d
  or_return f (e, d) = ret (e, d)

  -- time.Duration(d.timestamp) * time.Millisecond / time.Duration(clockrate)
  unfoldable pub add_packet : Bytes → Bool → State → State
  add_packet nal is_key d = record d {
    packets =
        d.packets
        ++ (record {
          is_key = is_key;
          timestamp = d.base.timestamp * 10 ^ 6 / 90;
          bytes = be 4 (u32 (length nal)) ++ nal;
        }
            ∷ []);
  }

  unfoldable pub set_codec : Option Codec → State → Status × State
  set_codec none d = (codec_error, d)
  set_codec (some c) d = (fine, record d { codec = some c })

  unfoldable pub codec_update_sps : Bytes → State → Status × State
  unfolding set_codec bytes_equal
  codec_update_sps val d =
      if bytes_equal val d.sps
      then (fine, d)
      else set_codec (new_codec val d.pps) (record d { sps = val })

  unfoldable pub codec_update_pps : Bytes → State → Status × State
  unfolding set_codec bytes_equal
  codec_update_pps val d =
      if bytes_equal val d.pps
      then (fine, d)
      else set_codec (new_codec d.sps val) (record d { pps = val })

  -- A unit of a STAP-A packet: a slice or a parameter set; others are skipped.
  unfoldable pub aggregated_unit : Bytes → ℕ → State → Status × State
  unfolding codec_update_sps codec_update_pps add_packet
  aggregated_unit nal type d =
      if leb 1 type && leb type 5
      then (fine, add_packet nal (type == 5) d)
      else if type == 7
      then codec_update_sps nal d
      else if type == 8
      then codec_update_pps nal d
      else (fine, d)

  -- processSTAPA: `packet` is what is left of the aggregation packet.
  unfoldable pub after_unit : Bytes → Status × State → Round (Bytes × State) (Status × State)
  after_unit rest (fine, d) = next (rest, d)
  after_unit rest (e, d) = done (e, d)

  unfoldable pub stap_unit : ℕ → Bytes → State → Run (Round (Bytes × State) (Status × State))
  unfolding after_unit
  stap_unit size packet d = do
    first ← index (get_elem? packet 2)
    nal ← slice packet 2 (size + 2)
    ret (after_unit (drop (size + 2) packet) (aggregated_unit nal (nalu_type first) d))

  unfoldable pub stap_round : Bytes × State → Run (Round (Bytes × State) (Status × State))
  unfolding stap_unit
  stap_round (packet, d) = if ltb (length packet) 2 then ret (done (fine, d)) else do
    hi ← index (get_elem? packet 0)
    lo ← index (get_elem? packet 1)
    let size = bit_or (hi * 2 ^ 8) lo
    if size == 0 || ltb (length packet) (size + 2)
        then ret (done (fine, d))
        else stap_unit size packet d

  -- Each round takes two bytes at least.
  unfoldable pub process_stap_a : Bytes → State → Answer
  process_stap_a nal d = loop stap_round (length nal + 1) (drop 1 nal, d)

  -- finalizeFUAPacket: the units that are nested in a parameter set. It returns `naluTypef` too.
  unfoldable pub nested_unit : Bytes → ℕ → ℕ → State → (Status × State) × ℕ
  nested_unit v type found d =
      if type == 5
      then ((fine, record d { buffer = v }), 5)
      else if type == 7
      then (codec_update_sps v d, found)
      else if type == 8
      then (codec_update_pps v d, found)
      else ((fine, d), found)

  abbrev pub keep_type :
      ((Status × State) × ℕ → Run ((Status × State) × ℕ))
      → (Status × State) × ℕ
      → Run ((Status × State) × ℕ)
  keep_type f ((fine, d), found) = f ((fine, d), found)
  keep_type f ((e, d), found) = ret ((e, d), found)

  unfoldable pub nested_units : List Bytes → ℕ → State → Run ((Status × State) × ℕ)
  unfolding nested_unit
  nested_units [] found d = ret ((fine, d), found)
  nested_units (v ∷ vs) found d = do
    first ← index (get_elem? v 0)
    keep_type (λ r. nested_units vs r.1 r.0.1) (nested_unit v (nalu_type first) found d)

  unfoldable pub emit_buffer : (Status × State) × ℕ → Answer
  emit_buffer ((fine, d), found) = ret (fine, add_packet d.buffer (found == 5) d)
  emit_buffer ((e, d), found) = ret (e, d)

  unfoldable pub finalize_fua_packet : State → Answer
  unfolding emit_buffer
  finalize_fua_packet d = do
    first ← index (get_elem? d.buffer 0)
    let type = nalu_type first
    let d' = record d { fu_started = false }
    if type == 7 || type == 9
        then (do
          (nals, _) ← split_nalus (0 ∷ 0 ∷ 0 ∷ 1 ∷ d.buffer)
          r ← nested_units nals type d'
          emit_buffer r)
        else emit_buffer ((fine, d'), type)

  -- processLFUA
  unfoldable pub start_fragment : ℕ → ℕ → State → State
  start_fragment indicator header d = if bit_and header 0x80 == 0 then d else record d {
    fu_started = true;
    buffer = bit_or (bit_and indicator 0xe0) (bit_and header 0x1f) ∷ [];
  }

  unfoldable pub append_fragment : ℕ → State → Answer
  append_fragment header d =
      if d.fu_started
      then (do
        part ← slice d.base.payload (d.base.offset + 2) d.base.end
        let d' = record d { buffer = d.buffer ++ part }
        if bit_and header 0x40 == 0 then ret (fine, d') else finalize_fua_packet d')
      else ret (fine, d)

  unfoldable pub process_lfua : State → Answer
  unfolding start_fragment append_fragment
  process_lfua d = if ltb (d.base.end - d.base.offset) 2 then ret (fu_too_short, d) else do
    indicator ← index (get_elem? d.base.payload d.base.offset)
    header ← index (get_elem? d.base.payload (d.base.offset + 1))
    append_fragment header (start_fragment indicator header d)

  -- processNALUnit, its switch on the type in the order of its cases.
  unfoldable pub unit_of_type : ℕ → Bytes → State → Answer
  unit_of_type type nal d =
      if leb 1 type && leb type 5
      then ret (fine, add_packet nal (type == 5) d)
      else if type == 7
      then ret (codec_update_sps nal d)
      else if type == 8
      then ret (codec_update_pps nal d)
      else if leb type 23
      then ret (fine, d)
      else if type == 24
      then process_stap_a nal d
      else if type == 28
      then process_lfua d
      else ret (fine, d)

  unfoldable pub process_nal_unit : Bytes → State → Answer
  unfolding unit_of_type
  process_nal_unit nal d = do first ← index (get_elem? nal 0); unit_of_type (nalu_type first) nal d

  unfoldable pub process_nals : List Bytes → State → Answer
  process_nals [] d = ret (fine, d)
  process_nals (nal ∷ nals) d = process_nal_unit nal d >>= or_return (process_nals nals)

  -- `len(d.nals) == 0 || len(d.nals[0]) == 0` of hxxxDemuxer.ReadPacket
  unfoldable pub empty_first : List Bytes → Bool
  empty_first [] = true
  empty_first (nal ∷ nals) = length nal == 0

  unfoldable pub units_of_payload : Reply × BaseDemuxer → State → Answer
  unfolding empty_first
  units_of_payload (err e, b) d = ret (read_error e, record d { base = b })
  units_of_payload (ok, b) d = do
    payload ← slice b.payload b.offset b.end
    (nals, _) ← split_nalus payload
    if empty_first nals
        then ret (empty_nal, record d { base = b })
        else process_nals nals (record d { base = b })

  -- The packet that ReadPacket returns, if any, with its error.
  unfoldable pub pop_packet : State → Option Packet × State
  pop_packet d = elim d.packets [ [] ↦ (none, d) | p ∷ ps ↦ (some p, record d { packets = ps }) ]

  unfoldable pub popped : Status × State → Option Packet × Status × State
  popped (fine, d) = let (p, d') = pop_packet d in (p, fine, d')
  popped (e, d) = (none, e, d)

  unfoldable pub read_h264 : State → Run (Option Packet × Status × State)
  read_h264 d =
      if ltb 0 (length d.packets)
      then ret (popped (fine, d))
      else (do r ← read_packet d.base; answer ← units_of_payload r d; ret (popped answer))
