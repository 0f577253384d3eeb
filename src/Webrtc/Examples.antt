-- ===== src/Webrtc/Examples.antt =====
-- The theorems on the buffer of a WebRTC writer at concrete inputs.
use gomedia.Common.{weigh, ◌≡◌, refl, arith, Bool, true, false, some, [], ◌∷◌}
use gomedia.Webrtc.Seek.{InOrder, starts_from, get_buffer-starts_from}
use gomedia.Webrtc.{
  get_buffer, Packet, Buffer, counted, held, drop_gop, add_packet, adjust_size, adjust_first,
  adjust_hard_cap,
}
use gomedia.Webrtc.Bounds.{IsCapped, adjust_hard_cap-IsCapped, IsAdjusted, adjust_size-IsAdjusted}
use gomedia.Webrtc.Weigh.{IsCounting}
use gomedia.Webrtc.Add.{Adds, add_packet-IsCounting}

abbrev key_frame : Packet
key_frame = record { is_video = true; is_key_frame = true; duration = 40; start_time = 0 }

abbrev delta_frame : Packet
delta_frame = record { is_video = true; is_key_frame = false; duration = 40; start_time = 40 }

abbrev sound : Packet
sound = record { is_video = false; is_key_frame = false; duration = 20; start_time = 40 }

-- A full buffer: the next key frame makes the first GoP leave.
abbrev full : Buffer
full = record {
  gops =
      record { packets = key_frame ∷ sound ∷ delta_frame ∷ []; duration = 80 }
      ∷ record { packets = key_frame ∷ delta_frame ∷ []; duration = 80 }
      ∷ [];
  duration = 160;
  target_duration = 100;
  hard_cap_duration = 1000;
  released = [];
}

full-IsCounting : IsCounting full
unfolding held weigh counted
full-IsCounting = ((refl, (refl, tt)), refl)

add_packet-IsCounting_example :
    (kept : Bool) × (b' : Buffer) × (add_packet key_frame full ≡ some (kept, b'))
    × Adds key_frame full kept b'
add_packet-IsCounting_example = add_packet-IsCounting key_frame full full-IsCounting

-- A cap of 100 on the same packets: the first GoP stays, since the second one alone is too short.
adjust_hard_cap-IsCapped_example :
    IsCapped (adjust_hard_cap (record full { hard_cap_duration = 100 }))
adjust_hard_cap-IsCapped_example =
    adjust_hard_cap-IsCapped (record full { hard_cap_duration = 100 }) (omega arith) (omega arith)

abbrev evicted : Buffer
evicted =
    drop_gop (record { packets = key_frame ∷ sound ∷ delta_frame ∷ []; duration = 80 })
      (record { packets = key_frame ∷ delta_frame ∷ []; duration = 80 } ∷ [])
      (record full { target_duration = 80 })

adjust_size-IsAdjusted_example : IsAdjusted (record full { target_duration = 80 }) evicted
unfolding adjust_size adjust_first drop_gop
adjust_size-IsAdjusted_example =
    adjust_size-IsAdjusted (record full { target_duration = 80 }) evicted full-IsCounting refl

-- The second GoP begins at 80; the viewer joins at 120, when a packet starts.
abbrev second_key : Packet
second_key = record key_frame { start_time = 80 }

abbrev second_delta : Packet
second_delta = record delta_frame { start_time = 120 }

abbrev timed : Buffer
timed = record full {
  gops =
      record { packets = key_frame ∷ sound ∷ delta_frame ∷ []; duration = 80 }
      ∷ record { packets = second_key ∷ second_delta ∷ []; duration = 80 }
      ∷ [];
}

get_buffer-starts_from_example : (get_buffer 120 timed).1 ≡ starts_from 120 (held timed.gops)
unfolding InOrder
get_buffer-starts_from_example = get_buffer-starts_from 120 timed (
  (omega arith, (omega arith, (omega arith, (omega arith, tt)))),
  (omega arith, (omega arith, (omega arith, tt))),
  (omega arith, (omega arith, (omega arith, tt))),
)
