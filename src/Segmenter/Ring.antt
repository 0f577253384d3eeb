-- ===== src/Segmenter/Ring.antt =====
-- ringBuffer of writer/segmenter/segmenter.go: the packets from before an event.
pub mod Sums
pub mod Limits
pub mod Trim
use gomedia.Common.{
  ℕ, zero, suc, ◌+◌, ◌-◌, ◌*◌, ◌/◌, Bool, true, false, ◌&&◌, Option, none, some, List, [], ◌∷◌,
  ◌++◌, length, take, drop, ltb, if◌then◌else◌, weigh,
}
use gomedia.Segmenter.{Packet}

pub record RingBuffer : Type 0 where
  pub packets : List Packet
  pub duration : ℕ
  pub bytes : ℕ
  pub max_dur : ℕ
  pub hard_cap : ℕ
  pub max_packets : ℕ
  pub max_bytes : ℕ
  pub released : List Packet

-- ringMaxPackets; the seconds of a duration are whole ones.
unfoldable pub smaller : ℕ → ℕ → ℕ
smaller m n = if ltb m n then m else n

unfoldable pub at_least_128 : ℕ → ℕ
at_least_128 n = if ltb n 128 then 128 else n

unfoldable pub ring_max_packets : ℕ → ℕ → ℕ
ring_max_packets max_bytes hard_cap =
    at_least_128 (smaller (hard_cap / 1000000000 * 60) (max_bytes / 4096))

-- newRingBuffer and ringHardCap
unfoldable pub new_ring_buffer : ℕ → ℕ → ℕ → RingBuffer
new_ring_buffer max_dur hard_cap max_bytes = record {
  packets = [];
  duration = 0;
  bytes = 0;
  max_dur = max_dur;
  hard_cap = hard_cap;
  max_packets = ring_max_packets max_bytes hard_cap;
  max_bytes = max_bytes;
  released = [];
}

unfoldable pub ring_hard_cap : ℕ → ℕ
ring_hard_cap pre_buffer = pre_buffer * 2

-- The time that a packet adds to the ring: only that of video counts.
unfoldable pub video_duration : Packet → ℕ
video_duration p = if p.is_video then p.duration else 0

-- dropPacketAt, for the packet that stands at the index.
unfoldable pub drop_packet_at : Packet → ℕ → RingBuffer → RingBuffer
drop_packet_at dropped idx rb = record rb {
  packets = take idx rb.packets ++ drop (suc idx) rb.packets;
  bytes = rb.bytes - dropped.len;
  duration = rb.duration - video_duration dropped;
  released = rb.released ++ (dropped ∷ []);
}

-- A loop of enforceLimits, over the packets behind the first: the second one goes as long as the
-- ring is over the limit and holds more than one packet.
unfoldable pub drop_tail : (RingBuffer → Bool) → List Packet → RingBuffer → RingBuffer
drop_tail over [] rb = rb
drop_tail over (second ∷ rest) rb =
    let more = drop_tail over rest (drop_packet_at second 1 rb) in if over rb then more else rb

unfoldable pub over_bytes : RingBuffer → Bool
over_bytes rb = ltb rb.max_bytes rb.bytes

unfoldable pub over_duration : RingBuffer → Bool
over_duration rb = ltb rb.hard_cap rb.duration

unfoldable pub over_packets : RingBuffer → Bool
over_packets rb = ltb rb.max_packets (length rb.packets)

unfoldable pub drop_while : (RingBuffer → Bool) → RingBuffer → RingBuffer
drop_while over rb = drop_tail over (drop 1 rb.packets) rb

unfoldable pub enforce_limits : RingBuffer → RingBuffer
enforce_limits rb = drop_while over_packets (drop_while over_duration (drop_while over_bytes rb))

unfoldable pub add : Packet → RingBuffer → RingBuffer
add p rb = enforce_limits (record rb {
  packets = rb.packets ++ (p ∷ []);
  bytes = rb.bytes + p.len;
  duration = rb.duration + video_duration p;
})

-- The index of the first key frame of a list.
unfoldable pub is_key : Packet → Bool
is_key p = p.is_video && p.is_key_frame

unfoldable pub or_next : Option ℕ → Option ℕ
or_next none = none
or_next (some i) = some (suc i)

unfoldable pub first_key : List Packet → Option ℕ
first_key [] = none
first_key (p ∷ ps) = let rest = first_key ps in if is_key p then some 0 else or_next rest

-- A round of the loop of trim: `none` where it ends. The int64 sums of the source may go below zero;
-- here they stop at 0, which is the same where they are the sums over the packets.
unfoldable pub cut_at : Option ℕ → RingBuffer → Option RingBuffer
cut_at none rb = none
cut_at (some i) rb = some (record rb {
  packets = drop (suc i) rb.packets;
  bytes = rb.bytes - weigh (λ p. p.len) (take (suc i) rb.packets);
  duration = rb.duration - weigh video_duration (take (suc i) rb.packets);
  released = rb.released ++ take (suc i) rb.packets;
})

unfoldable pub trim_round : RingBuffer → Option RingBuffer
trim_round rb =
    if ltb 1 (length rb.packets) && ltb rb.max_dur rb.duration
    then cut_at (first_key (drop 1 rb.packets)) rb
    else none

unfoldable pub trim_more : Option RingBuffer → (RingBuffer → RingBuffer) → RingBuffer → RingBuffer
trim_more none more rb = rb
trim_more (some rb') more rb = more rb'

unfoldable pub trim_loop : ℕ → RingBuffer → RingBuffer
trim_loop zero rb = rb
trim_loop (suc fuel) rb = trim_more (trim_round rb) (trim_loop fuel) rb

-- trim. Every round takes a packet at least, so their count is fuel enough.
unfoldable pub trim : RingBuffer → RingBuffer
trim rb = enforce_limits (trim_loop (length rb.packets) rb)

unfoldable pub clear : RingBuffer → RingBuffer
clear rb = record rb { packets = []; duration = 0; bytes = 0; released = rb.released ++ rb.packets }

-- drain; the packets are the caller's.
unfoldable pub drain : RingBuffer → List Packet × RingBuffer
drain rb = (rb.packets, record rb { packets = []; duration = 0; bytes = 0 })
