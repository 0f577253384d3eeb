-- ===== src/Opus/Examples.antt =====
-- The theorem on PacketDuration at a packet of three CELT frames of 20 ms.
use gomedia.Common.{◌≡◌, arith, [], ◌∷◌}
use gomedia.Common.Run.{ret}
use gomedia.Pio.{Bytes}
use gomedia.Opus.{Answer, packet_duration}
use gomedia.Opus.Duration.{Described, packet_duration-Described}

abbrev three_frames : Bytes
three_frames = 0xfb ∷ 3 ∷ 0 ∷ []

packet_duration-Described_example :
    (answer : Answer) × (packet_duration three_frames ≡ ret answer) × Described three_frames answer
packet_duration-Described_example =
    packet_duration-Described three_frames (omega arith, (omega arith, (omega arith, tt)))
