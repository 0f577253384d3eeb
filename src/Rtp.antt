-- ===== src/Rtp.antt =====
-- format/rtp: RTP packets, in RTSP interleaved framing, and H.264 NAL units in them.
pub mod Packet
pub mod H264
pub mod Aac
mod Examples
