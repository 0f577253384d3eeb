-- ===== src/Rtp/H264.antt =====
-- H.264 over RTP: format/rtp/h264_muxer.go in `Mux`, h264.go with hxxx_demuxer.go in `Demux`.
pub mod Mux
pub mod Demux
pub mod Header
pub mod Receive
pub mod Reads
pub mod Pieces
pub mod Fragments
pub mod RoundTrip
pub mod Overrun
