-- ===== src/Rtp/Examples.antt =====
-- Concrete runs of the RTP muxer and demuxer, and the theorems at concrete inputs.
use gomedia.Common.{◌≡◌, refl, arith, true, false, Option, none, [], ◌∷◌, ◌++◌, length}
use gomedia.Common.Run.{ret, panic, slice}
use gomedia.Pio.{Bytes}
use gomedia.Pio.Laws.{be}
use gomedia.Rtp.Packet.{
  BaseMuxer, BaseDemuxer, rtp_frame, read_packet, ok, is_rtcp_packet, second_byte,
}
use gomedia.Rtp.Packet.RoundTrip.{received, read_packet-rtp_frame}
use gomedia.Rtp.H264.Mux.{write_nal}
use gomedia.Rtp.H264.Demux
use gomedia.Rtp.H264.Demux.{H264Demuxer}
use gomedia.Rtp.H264.Reads.{SendsData, packet_of}
use gomedia.Rtp.H264.Fragments.{Carries}
use gomedia.Rtp.H264.RoundTrip.{read-write_nal}
use gomedia.Rtp.H264.Overrun.{read_h264-csrc_overrun}

abbrev muxer : BaseMuxer
muxer = record {
  payload_type = 96;
  clock_rate = 90000;
  ssrc = 7;
  sequence = 65535;
  channel = 0;
  sent = [];
}

abbrev no_codec : Bytes → Bytes → Option (Unit {0})
no_codec sps pps = none

abbrev idr : Bytes
idr = 0x88 ∷ 0x84 ∷ 0x00 ∷ 0x33 ∷ 0xff ∷ []

muxer-SendsData : SendsData muxer
unfolding is_rtcp_packet second_byte
muxer-SendsData true = refl
muxer-SendsData false = refl

abbrev idle : BaseDemuxer
idle = record { unread = []; payload = []; offset = 0; end = 0; timestamp = 0 }

read_packet-rtp_frame_example :
    (read_packet (record idle { unread = rtp_frame muxer idr 1000000000 true ++ (1 ∷ 2 ∷ []) })
      ≡ ret (ok, received muxer idr 1000000000 true (1 ∷ 2 ∷ [])))
    × (slice (rtp_frame muxer idr 1000000000 true) 16 (length (rtp_frame muxer idr 1000000000 true))
        ≡ ret idr)
read_packet-rtp_frame_example =
    read_packet-rtp_frame muxer idr 1000000000 true idle (1 ∷ 2 ∷ []) (omega arith)
      (muxer-SendsData true)

-- A key frame of six bytes at an MTU of 4: three fragments.
read-write_nal_example :
    Carries no_codec
      (write_nal (λ _. true) 1000000000 4 (0x65 ∷ idr) true muxer)
      muxer
      (λ _. Unit)
      (packet_of muxer 1000000000 0x65 idr)
unfolding Demux.nalu_type
read-write_nal_example =
    read-write_nal no_codec muxer 1000000000 4 0x65 idr true muxer-SendsData (omega arith) refl
      (omega arith) (omega arith)

abbrev waiting : Bytes → H264Demuxer (Unit {0})
waiting bytes = record {
  base = record idle { unread = bytes };
  sps = [];
  pps = [];
  codec = none;
  packets = [];
  fu_started = false;
  buffer = [];
}

abbrev overrun : Bytes
overrun = 0x24 ∷ 0 ∷ 0 ∷ 12 ∷ 0x81 ∷ 96 ∷ 0 ∷ 1 ∷ 0 ∷ 0 ∷ 0 ∷ 2 ∷ 0 ∷ 0 ∷ 0 ∷ 3 ∷ []

csrc_overrun_example : Demux.read_h264 no_codec (waiting overrun) ≡ panic
unfolding is_rtcp_packet be
csrc_overrun_example =
    read_h264-csrc_overrun no_codec (waiting overrun) 0 96 1 2 3 [] refl refl refl
