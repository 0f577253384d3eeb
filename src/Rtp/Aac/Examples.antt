-- ===== src/Rtp/Aac/Examples.antt =====
-- AAC frames at concrete inputs.
use gomedia.Common.{◌+◌, ◌*◌, ◌≡◌, refl, arith, false, some, [], ◌∷◌, ◌++◌}
use gomedia.Common.Run.{ret}
use gomedia.Pio.{Bytes}
use gomedia.Pio.Laws.{be}
use gomedia.Rtp.Packet.{BaseMuxer, rtp_frame, second_byte, is_rtcp_packet}
use gomedia.Rtp.Packet.RoundTrip.{received}
use gomedia.Aac.{Mpeg4AudioConfig}
use gomedia.Aac.Adts.{fill_adts_header, filled}
use gomedia.Rtp.Aac.{AacDemuxer, fine, same_config, read_aac}
use gomedia.Rtp.Aac.Units.{unit_payload, reads, expected, reads-unit_payload}
use gomedia.Rtp.Aac.Headed.{packet_at, read_aac-fill_adts_header}

abbrev sender : BaseMuxer
sender = record {
  payload_type = 97;
  clock_rate = 48000;
  ssrc = 1;
  sequence = 7;
  channel = 2;
  sent = [];
}

abbrev mono : Mpeg4AudioConfig
mono = record {
  sample_rate = 48000;
  channel_layout = 1;
  object_type = 2;
  sample_rate_index = 3;
  channel_config = 1;
}

-- A demuxer with no config yet.
abbrev waiting : AacDemuxer
waiting = record {
  base = record { unread = []; payload = []; offset = 0; end = 0; timestamp = 0 };
  codec = record {
    stream_index = 1;
    config_bytes = [];
    config = record {
      sample_rate = 0;
      channel_layout = 0;
      object_type = 0;
      sample_rate_index = 0;
      channel_config = 0;
    };
  };
  time_scale = 48000;
  packets = [];
}

no_rtcp : is_rtcp_packet (second_byte 97 false) ≡ false
unfolding is_rtcp_packet second_byte
no_rtcp = refl

reads-unit_payload_example :
    reads 2 (record waiting {
      base = record waiting.base {
        unread =
            rtp_frame sender (unit_payload ((33 ∷ 44 ∷ 55 ∷ []) ∷ (66 ∷ 77 ∷ []) ∷ [])) 1000 false
            ++ (9 ∷ []);
      };
    })
    ≡ ret (
      expected sender (33 ∷ 44 ∷ 55 ∷ []) ((66 ∷ 77 ∷ []) ∷ []) 1000 false 1 48000,
      record waiting {
        base =
            received sender
              (unit_payload ((33 ∷ 44 ∷ 55 ∷ []) ∷ (66 ∷ 77 ∷ []) ∷ []))
              1000
              false
              (9 ∷ []);
        packets = [];
      },
    )
unfolding be
reads-unit_payload_example =
    reads-unit_payload sender (33 ∷ 44 ∷ 55 ∷ []) ((66 ∷ 77 ∷ []) ∷ []) 1000 false waiting (9 ∷ [])
      refl (omega arith) (omega arith, (omega arith, tt)) (omega arith) (omega arith) no_rtcp

read_aac-fill_adts_header_example :
    (bytes : Bytes) × (d' : AacDemuxer) × (fill_adts_header
        (0 ∷ 0 ∷ 0 ∷ 255 ∷ 0 ∷ 0 ∷ 0 ∷ 33 ∷ 44 ∷ [])
        mono
        ((0 + 1) * 1024)
        2
      ≡ filled bytes)
    × (read_aac (record waiting {
      base = record waiting.base { unread = rtp_frame sender bytes 1000 false ++ [] };
    })
        ≡ ret (some (packet_at sender mono (33 ∷ 44 ∷ []) 1000 false 0 48000), fine, d'))
    × (d'.codec.config ≡ mono)
    × (d'.packets ≡ [])
    × (d'.base.unread ≡ [])
unfolding same_config
read_aac-fill_adts_header_example =
    read_aac-fill_adts_header sender mono (33 ∷ 44 ∷ []) 1000 false 0 0 0 255 0 0 0 0 waiting []
      (omega arith) (omega arith, omega arith, omega arith, refl, omega arith, refl) (omega arith)
      (omega arith) refl (omega arith) no_rtcp
