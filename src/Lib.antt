-- ===== src/Lib.antt =====
-- A model of gomedia, a library that reads, converts and writes audio and video streams.
--
-- A camera's stream arrives as RTP packets in an RTSP connection. format/rtp takes the packets
-- apart and puts NAL units together again, with utils/nal to split byte slices into units and
-- utils/bits/pio to read and write big-endian numbers; muxers of the same package send the units
-- on. The bytes of packets are carved from the rings of utils/buffer, which the consumers of a
-- packet share by reference counts, and the WebRTC writer of writer/webrtc keeps the last GoPs for
-- new viewers. The parsers of codec/h264 and codec/h265 read parameter sets with the Exp-Golomb
-- reader of utils/bits, codec/aac reads and writes audio configurations with its bit reader and
-- writer, codec/opus tells the duration of an audio packet, and format/mp4 writes the samples'
-- times to an atom of format/mp4/mp4io. writer/segmenter records streams into files, always or
-- around events, for which it keeps the last seconds of each stream in a ring, and a manager of
-- utils/lifecycle runs it in a goroutine. This library models these parts.
--
-- Files and the code they are about:
--   Pio          utils/bits/pio/reader.go and writer.go, a function for each function of theirs:
--                u32be is U32BE, put_u32be is PutU32BE. The signed writers are the unsigned ones
--                on bit patterns. Pio/Laws holds the encoding `be` of a number in a count of
--                bytes, which also stands for encoding/binary.
--   Nal          utils/nal/nal.go: is_start_code, parse_annexb, split_nalus are isStartCode,
--                parseANNEXB, SplitNALUs; a loop's body is annexb_round and avcc_round, with the
--                variables it changes in the records Cursor and Prefixed.
--   Rtp/Packet   format/rtp/base_muxer.go (write_rtp is writeRTP) and base_demuxer.go
--                (read_packet is ReadPacket, cut into its tests).
--   Rtp/H264/Mux   format/rtp/h264_muxer.go: write_packet is WritePacket, write_nal the body of
--                its loop, fragment_round the loop over FU-A fragments.
--   Rtp/H264/Demux   format/rtp/h264.go and hxxx_demuxer.go: read_h264 is ReadPacket, and each
--                method has a function of its name (process_stap_a, process_lfua,
--                finalize_fua_packet, codec_update_sps).
--   Rtp/Aac      format/rtp/aac.go and codec/aac/parameters.go: read_aac is ReadPacket, read_units
--                its part for AU headers and take_frames the loop over them.
--   Buffer       utils/buffer/ring_alloc.go, RingAlloc: alloc, extend, retain, release, with place,
--                waste_tail and take_slot for the parts of Alloc. Buffer/Growing is GrowingRingAlloc.
--                Each call is one step, and Buffer/Disjoint has the step relation.
--   Webrtc       writer/webrtc/buffer.go: add_packet is AddPacket, and each method of Buffer has
--                a function of its name or one for each of its loops.
--   Segmenter    writer/segmenter/segmenter.go: Segmenter/Ring is ringBuffer, method by method;
--                Files, Always and Event have a function for each method of the segmenter on the
--                file of a stream and for each mode; Step has the packet's case of Step, cut into
--                its parts, and Control the other cases and Release. Runs has the runs of steps.
--   Lifecycle    utils/lifecycle/async.go and async_failsafe.go: Start, Close and process as steps
--                of one state, and in Lifecycle/Spec the life of an instance that they implement.
--   Golomb       utils/bits/golomb_reader.go: read_bit, read_bits, read_exponential_golomb_code,
--                read_se.
--   BitStream    utils/bits/bits.go: read_bits64, write_bits64, flush_bits.
--   Aac          codec/aac/parser.go: parse_config is ParseMPEG4AudioConfigBytes, write_config is
--                WriteMPEG4AudioConfig; Aac/Adts has parse_adts_header and fill_adts_header.
--   Opus         codec/opus/duration.go: packet_duration is PacketDuration.
--   Mp4          format/mp4/mp4io/stts.go and its entries in atoms.go: marshal, len, unmarshal.
--                Mp4/Dref has dref.go and url.go, with walk_round for the body of the loop over
--                children.
--   Common       shared names: lists and machine words, and Common/Run for code that may panic.
-- Files below these hold the proofs, and the Examples files runs at concrete inputs.
--
-- Conventions. A byte slice is the list of its bytes. Go's panic on an index or a slice out of
-- range is `none` in Pio and `panic` of the type Run in Nal, Rtp, Opus and Mp4; the panics of
-- Buffer and Webrtc are `none`, and so is the error of a read in Golomb and BitStream. Other
-- errors are values of a data type. A loop of Nal and Rtp runs on fuel, and `stuck` is the end of
-- the fuel: the AVCC loop has as many rounds as the slice has bytes (each takes four of them), the
-- Annex B loop two more (each round but the first and the last begins behind a start code), the
-- FU-A loop one more than the payload has bytes. The loop of Release has a round for each slot of
-- the ring, and that of shiftSingleGOP one for each packet of the GoP, that of trim one for each
-- packet of the ring; these return what they have when the rounds are over. The loop over the
-- children of a dref atom has as much fuel as is asked for.
--
-- Parameters: `accepts`, whether the connection of a muxer takes a write, `new_codec`,
-- NewCodecDataFromSPSAndPPS of codec/h264, and Muxers, the interface of the segmenter to the muxer
-- of format/mp4 and its files, with the law that a muxer keeps or releases the packets it took.
--
-- Not modelled: RingBudgetBytes and ringByteBudgets (floating point), file names and channels of
-- the segmenter, which error Start of a manager returns, GrowingRingAlloc.Extend, logging, clock
-- readings, the ring allocator behind a demuxer's packets (they are heap slices here), the
-- parameters that an error of NewCodecDataFromMPEG4AudioConfig leaves, the panics of the MP4 muxer
-- after a Flush that failed with some of its packets written, buffers that are only reused memory,
-- and the packages that are not named above.
pub mod Common
pub mod Pio
pub mod Nal
pub mod Rtp
pub mod Buffer
pub mod Webrtc
pub mod Golomb
pub mod Opus
pub mod Mp4
pub mod Segmenter
pub mod Lifecycle
pub mod BitStream
pub mod Aac
