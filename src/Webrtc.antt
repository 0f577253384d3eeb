-- ===== src/Webrtc.antt =====
-- writer/webrtc/buffer.go: the groups of pictures that a WebRTC writer keeps for new viewers.
-- A packet is what the buffer asks of it; a time is a count of nanoseconds, and a duration is not
-- negative, so that differences of durations stay above zero where the sums are right. `released`
-- lists the packets in the order of the calls of their Release.
pub mod Weigh
pub mod Evict
pub mod Add
pub mod Bounds
pub mod Seek
mod Examples
use gomedia.Common.{
  ℕ, zero, suc, ◌+◌, ◌-◌, Bool, true, false, ◌&&◌, ◌||◌, not, Option, none, some, List, [], ◌∷◌,
  ◌++◌, length, ltb, leb, ◌==◌, if◌then◌else◌,
}

-- A gomedia.Packet; `is_video` is whether it is a gomedia.VideoPacket.
pub record Packet : Type 0 where
  pub is_video : Bool
  pub is_key_frame : Bool
  pub duration : ℕ
  pub start_time : ℕ

pub record Gop : Type 0 where
  pub packets : List Packet
  pub duration : ℕ

pub record Buffer : Type 0 where
  pub gops : List Gop
  pub duration : ℕ
  pub target_duration : ℕ
  pub hard_cap_duration : ℕ
  pub released : List Packet

-- The time that a packet adds to its GoP: audio adds none.
unfoldable pub counted : Packet → ℕ
counted p = if p.is_video then p.duration else 0

-- The first GoP leaves the buffer: dropOldestGOP, and the end of AdjustSize.
unfoldable pub drop_gop : Gop → List Gop → Buffer → Buffer
drop_gop gop gops b = record b {
  gops = gops;
  duration = b.duration - gop.duration;
  released = b.released ++ gop.packets;
}

-- AdjustSize; `none` is the panic of `gops[0]` on a buffer without a GoP.
unfoldable pub adjust_first : List Gop → Buffer → Option Buffer
adjust_first [] b = none
adjust_first (gop ∷ gops) b =
    if ltb (b.duration - gop.duration) b.target_duration then some b else some (drop_gop gop gops b)

unfoldable pub adjust_size : Buffer → Option Buffer
adjust_size b = if ltb b.duration b.target_duration then some b else adjust_first b.gops b

-- shiftSingleGOP: the second packet goes, `none` where there is no such packet.
unfoldable pub shift_packets : List Packet → Gop → List Gop → Buffer → Option Buffer
shift_packets (first ∷ dropped ∷ rest) gop gops b = some (record b {
  gops = record gop { packets = first ∷ rest; duration = gop.duration - counted dropped } ∷ gops;
  duration = b.duration - counted dropped;
  released = b.released ++ (dropped ∷ []);
})
shift_packets _ gop gops b = none

-- The first loop of adjustHardCap, over the GoPs.
unfoldable pub drop_gops : List Gop → Buffer → Buffer
drop_gops (gop ∷ next ∷ gops) b =
    let rest = drop_gops (next ∷ gops) (drop_gop gop (next ∷ gops) b) in
    if ltb b.hard_cap_duration b.duration && leb b.hard_cap_duration (b.duration - gop.duration)
    then rest
    else b
drop_gops _ b = b

-- The second loop, while one GoP is left; the first argument is at least its count of packets.
unfoldable pub or_else : Option Buffer → (Buffer → Buffer) → Buffer → Buffer
or_else none f b = b
or_else (some b') f b = f b'

unfoldable pub shift_single : List Gop → Buffer → Option Buffer
shift_single (gop ∷ []) b =
    if ltb b.hard_cap_duration b.duration then shift_packets gop.packets gop [] b else none
shift_single _ b = none

unfoldable pub shift_gop : ℕ → Buffer → Buffer
shift_gop zero b = b
shift_gop (suc left) b = or_else (shift_single b.gops b) (shift_gop left) b

unfoldable pub first_count : List Gop → ℕ
first_count [] = 0
first_count (gop ∷ gops) = length gop.packets

unfoldable pub adjust_hard_cap : Buffer → Buffer
adjust_hard_cap b =
    let b' = drop_gops b.gops b in
    if b.hard_cap_duration == 0 then b else shift_gop (first_count b'.gops) b'

-- The packet goes to the last GoP.
unfoldable pub append_last : Packet → List Gop → List Gop
append_last p [] = []
append_last p (gop ∷ []) =
    record { packets = gop.packets ++ (p ∷ []); duration = gop.duration + counted p } ∷ []
append_last p (gop ∷ next ∷ gops) = gop ∷ append_last p (next ∷ gops)

unfoldable pub begin_gop : Bool → Buffer → Buffer
begin_gop is_key b =
    if is_key then record b { gops = b.gops ++ (record { packets = []; duration = 0 } ∷ []) } else b

unfoldable pub store : Packet → Buffer → Buffer
store p b = record b { gops = append_last p b.gops; duration = b.duration + counted p }

-- AddPacket: whether the packet is kept, and the buffer. The deferred AdjustSize runs at the end.
unfoldable pub accepted : Option Buffer → Option (Bool × Buffer)
accepted none = none
accepted (some b) = some (true, b)

unfoldable pub add_packet : Packet → Buffer → Option (Bool × Buffer)
add_packet p b =
    let is_key = p.is_video && p.is_key_frame in
    let begun = begin_gop is_key b in
    let stored = adjust_hard_cap (store p begun) in
    if length begun.gops == 0
    then some (false, b)
    else accepted (if is_key then adjust_size stored else some stored)

-- The packets that the buffer holds, oldest first.
unfoldable pub held : List Gop → List Packet
held [] = []
held (gop ∷ gops) = gop.packets ++ held gops

-- Reset, and Close.
unfoldable pub reset : Buffer → Buffer
reset b = record b { gops = []; duration = 0; released = b.released ++ held b.gops }

-- GetBuffer: the index of the first GoP that begins after `ts`, or the count of GoPs.
unfoldable pub begins_after : ℕ → List Packet → Bool
begins_after ts [] = false
begins_after ts (p ∷ ps) = ltb ts p.start_time

unfoldable pub first_after : ℕ → List Gop → ℕ
first_after ts [] = 0
first_after ts (gop ∷ gops) =
    let rest = first_after ts gops in if begins_after ts gop.packets then 0 else suc rest

-- The packets of the GoP before it, those before `ts` as a seed if they are video.
unfoldable pub seed_of : ℕ → List Packet → List Packet
seed_of ts [] = []
seed_of ts (p ∷ ps) =
    let rest = seed_of ts ps in if ltb p.start_time ts && p.is_video then p ∷ rest else rest

unfoldable pub rest_of : ℕ → List Packet → List Packet
rest_of ts [] = []
rest_of ts (p ∷ ps) = let rest = rest_of ts ps in if ltb p.start_time ts then rest else p ∷ rest

-- The GoPs from one before the index on; an index behind the last GoP is never met.
unfoldable pub start_at : ℕ → ℕ → List Gop → List Packet × List Packet
start_at ts zero gops = ([], held gops)
start_at ts (suc zero) (gop ∷ later) =
    (seed_of ts gop.packets, rest_of ts gop.packets ++ held later)
start_at ts (suc (suc i)) (gop ∷ later) = start_at ts (suc i) later
start_at ts (suc i) [] = ([], [])

unfoldable pub get_buffer : ℕ → Buffer → List Packet × List Packet
get_buffer ts b = start_at ts (first_after ts b.gops) b.gops
