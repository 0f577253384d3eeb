-- ===== src/Segmenter.antt =====
-- writer/segmenter/segmenter.go: recording of streams into files, always or on events. A packet is
-- what the segmenter asks of it. A time is a count of nanoseconds, with 0 for the zero time, and a
-- duration is not negative. A subtraction stops at 0; the sums that the ring keeps stay above what
-- is taken off them. `released` lists the packets in the order of the calls of their Release.
pub mod Ring
pub mod State
pub mod Files
pub mod Kept
pub mod Always
pub mod Event
pub mod Step
pub mod Control
pub mod Runs
mod Examples
use gomedia.Common.{ℕ, Bool}

-- A gomedia.Packet; `is_video` is whether it is a gomedia.VideoPacket, `is_audio` whether it is a
-- gomedia.AudioPacket. `codec` stands for the pointer that CodecParameters returns.
pub record Packet : Type 0 where
  pub source_id : ℕ
  pub is_video : Bool
  pub is_audio : Bool
  pub is_key_frame : Bool
  pub len : ℕ
  pub duration : ℕ
  pub start_time : ℕ
  pub stream_index : ℕ
  pub codec : ℕ
