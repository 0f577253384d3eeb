-- ===== src/Opus.antt =====
-- codec/opus/duration.go: the duration of an Opus packet, in nanoseconds.
pub mod Duration
mod Examples
use gomedia.Common.{
  ℕ, ◌+◌, ◌*◌, ◌^◌, Bool, ◌||◌, bit_and, ◌>>>◌, List, [], ◌∷◌, length, get_elem?, ltb, ◌==◌,
  if◌then◌else◌,
}
use gomedia.Common.Run.{Run, ret, ◌>>=◌, index}
use gomedia.Pio.{Bytes}

-- The errors of PacketDuration.
pub data DurationError : Type 0 where
  empty_packet invalid_packet invalid_frame_count : DurationError

pub data Answer : Type 0 where
  lasts : ℕ → Answer
  fails : DurationError → Answer

abbrev pub millisecond : ℕ
millisecond = 10 ^ 6

abbrev pub opus_frame_times : List ℕ
opus_frame_times =
    10 * millisecond
    ∷ 20 * millisecond
    ∷ 40 * millisecond
    ∷ 60 * millisecond
    ∷ 10 * millisecond
    ∷ 20 * millisecond
    ∷ 40 * millisecond
    ∷ 60 * millisecond
    ∷ 10 * millisecond
    ∷ 20 * millisecond
    ∷ 40 * millisecond
    ∷ 60 * millisecond
    ∷ 10 * millisecond
    ∷ 20 * millisecond
    ∷ 10 * millisecond
    ∷ 20 * millisecond
    ∷ 2500000
    ∷ 5 * millisecond
    ∷ 10 * millisecond
    ∷ 20 * millisecond
    ∷ 2500000
    ∷ 5 * millisecond
    ∷ 10 * millisecond
    ∷ 20 * millisecond
    ∷ 2500000
    ∷ 5 * millisecond
    ∷ 10 * millisecond
    ∷ 20 * millisecond
    ∷ 2500000
    ∷ 5 * millisecond
    ∷ 10 * millisecond
    ∷ 20 * millisecond
    ∷ []

-- `time.Duration(numFr) * opusFrameTimes[config]`
unfoldable pub times_frames : ℕ → ℕ → Run Answer
times_frames config num_fr = do
  time ← index (get_elem? opus_frame_times config)
  ret (lasts (num_fr * time))

-- The case of several frames: the second byte holds their count.
unfoldable pub many_frames : ℕ → Bytes → Run Answer
many_frames config pkt = if ltb (length pkt) 2 then ret (fails invalid_packet) else do
  second ← index (get_elem? pkt 1)
  let num_fr = bit_and second 0x3f
  if ltb num_fr 1 || ltb 48 num_fr
      then ret (fails invalid_frame_count)
      else times_frames config num_fr

unfoldable pub frames_of_code : ℕ → ℕ → Bytes → Run Answer
frames_of_code code config pkt =
    if code == 0
    then times_frames config 1
    else if code == 1 || code == 2
    then times_frames config 2
    else if code == 3
    then many_frames config pkt
    else times_frames config 0

unfoldable pub packet_duration : Bytes → Run Answer
packet_duration pkt =
    if ltb (length pkt) 1
    then ret (fails empty_packet)
    else do toc ← index (get_elem? pkt 0); frames_of_code (bit_and toc 3) (toc >>> 3) pkt
