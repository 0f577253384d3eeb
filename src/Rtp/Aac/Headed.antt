-- ===== src/Rtp/Aac/Headed.antt =====
-- AAC frames behind an ADTS header.
use gomedia.Common.{
  ℕ, ◌+◌, ◌*◌, ◌/◌, ◌^◌, ◌<◌, ◌≡◌, refl, ap, inl, inr, arith, Bool, true, false, Bool-cases, some,
  [], ◌∷◌, ◌++◌, length, ltb, ◌==◌, if◌then◌else◌, IsByte,
}
use gomedia.Common.Run.{ret}
use gomedia.Pio.{Bytes}
use gomedia.Rtp.Packet.{BaseMuxer, rtp_frame, rtp_timestamp, second_byte, is_rtcp_packet}
use gomedia.Rtp.Packet.RoundTrip.{received, read_packet-rtp_frame}
use gomedia.Aac.{Mpeg4AudioConfig, write_config}
use gomedia.Aac.Config.{parse_config-write_config}
use gomedia.Aac.Adts.{fill_adts_header, filled}
use gomedia.Aac.Adts.RoundTrip.{IsAdtsConfig, header_bytes, fill-header_bytes, parse-header_bytes}
use gomedia.Rtp.Aac.{
  AacPacket, AacDemuxer, CodecParameters, fine, parameters_of, new_codec_data, same_config,
  take_codec, see_config, add_frame, read_payload, by_payload, behind_base, pop_frame, answer_of,
  read_aac,
}

same_config_lem : (a b : Mpeg4AudioConfig) → same_config a b ≡ true → a ≡ b
unfolding same_config
same_config_lem a b h =
    let (rate, layout, type', index, channels) = fields in
    λ i. record {
      sample_rate = rate i;
      channel_layout = layout i;
      object_type = type' i;
      sample_rate_index = index i;
      channel_config = channels i;
    }
  where
    fields :
        (a.sample_rate ≡ b.sample_rate)
        × (a.channel_layout ≡ b.channel_layout)
        × (a.object_type ≡ b.object_type)
        × (a.sample_rate_index ≡ b.sample_rate_index)
        × (a.channel_config ≡ b.channel_config)
    fields = ground (arith, h)

new_codec_data-adts :
    (c : Mpeg4AudioConfig)
    → IsAdtsConfig c
    → new_codec_data c
      ≡ some (record { stream_index = 0; config_bytes = write_config c; config = c })
unfolding new_codec_data parameters_of
new_codec_data-adts c (typed, few, rate, rated, channels, laid) =
    rw (parse_config-write_config c (inl (omega arith)) (inl (rate, rated)) (inl (channels, laid)))
      refl

-- The stream index, which a new config sets back to 0.
abbrev pub kept_index : Mpeg4AudioConfig → AacDemuxer → ℕ
kept_index c d = if same_config d.codec.config c then d.codec.stream_index else 0

-- The codec is that of the header, whether it changed or not.
see_config-adts :
    (c : Mpeg4AudioConfig) (d : AacDemuxer)
    → IsAdtsConfig c
    → (codec : CodecParameters) × (see_config c d ≡ (fine, record d { codec = codec }))
      × (codec.config ≡ c)
      × (codec.stream_index ≡ kept_index c d)
unfolding see_config take_codec
see_config-adts c d adts = elim (Bool-cases (same_config d.codec.config c)) [
  | inl same ↦ (d.codec, rw same refl, same_config_lem d.codec.config c same, rw same refl)
  | inr changed ↦ (
    record { stream_index = 0; config_bytes = write_config c; config = c },
    rw (changed, new_codec_data-adts c adts) refl,
    refl,
    rw changed refl,
  )
]

module _ (m : BaseMuxer) (c : Mpeg4AudioConfig) (frame : Bytes) (ts : ℕ) (marker : Bool) where
  abbrev pub packet_at : ℕ → ℕ → AacPacket
  packet_at stream scale = record {
    stream_index = stream;
    bytes = frame;
    timestamp = rtp_timestamp m.clock_rate ts * 10 ^ 9 / scale;
    duration = 1024 * 10 ^ 9 / scale;
  }

  -- A frame behind the header that FillADTSHeader puts into the seven bytes before it, sent by
  -- writeRTP, is what ReadPacket returns, at the time of the RTP timestamp, and the demuxer's
  -- config is then that of the header, whatever it was. The packet has the stream index of the
  -- codec if that has the config already, and 0 otherwise. This is for a config that FillADTSHeader can
  -- write, up to four blocks of samples, a header and frame of less than 2 ^ 13 bytes, an RTSP
  -- frame that does not look like RTCP, a time scale that is not 0, and no packet waiting.
  pub read_aac-fill_adts_header :
      (b0 b1 b2 b3 b4 b5 b6 k : ℕ) (d : AacDemuxer) (tail : Bytes)
      → IsByte b3
      → IsAdtsConfig c
      → k < 4
      → length frame + 7 < 2 ^ 13
      → d.packets ≡ []
      → 0 < d.time_scale
      → is_rtcp_packet (second_byte m.payload_type marker) ≡ false
      → (bytes : Bytes) × (d' : AacDemuxer) × (fill_adts_header
            (b0 ∷ b1 ∷ b2 ∷ b3 ∷ b4 ∷ b5 ∷ b6 ∷ frame)
            c
            ((k + 1) * 1024)
            (length frame)
          ≡ filled bytes)
        × (read_aac
              (record d { base = record d.base { unread = rtp_frame m bytes ts marker ++ tail } })
            ≡ ret (some (packet_at (kept_index c d) d.time_scale), fine, d'))
        × (d'.codec.config ≡ c)
        × (d'.packets ≡ [])
        × (d'.base.unread ≡ tail)
  unfolding read_aac behind_base by_payload read_payload add_frame answer_of pop_frame
  read_aac-fill_adts_header b0 b1 b2 b3 b4 b5 b6 k d tail byte adts blocks fits empty scaled
        data_packet =
      let bytes = header_bytes b3 frame c ((k + 1) * 1024) (length frame + 7) in
      let (read, part) =
        read_packet-rtp_frame m bytes ts marker d.base tail (omega arith) data_packet in
      let behind = record d { base = received m bytes ts marker tail } in
      let (codec, seen, same, index) = see_config-adts c behind adts in
      let waits : ltb 0 (length d.packets) ≡ false = rw empty refl in
      let scale : d.time_scale == 0 ≡ false = ground (arith, scaled) in
      let parsed =
        parse-header_bytes b3 frame c k (length frame + 7) byte adts blocks (omega arith) fits in
      (
        bytes,
        record behind { codec = codec; packets = [] },
        fill-header_bytes b0 b1 b2 b3 b4 b5 b6 frame c k (length frame) adts fits,
        rw (waits, read, part, scale, parsed, seen)
            (ap
              (λ stream. ret (
                some (packet_at stream d.time_scale),
                fine,
                record behind { codec = codec; packets = [] },
              ))
              index),
        same,
        refl,
        refl,
      )
