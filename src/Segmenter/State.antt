-- ===== src/Segmenter/State.antt =====
-- The state of a segmenter (activeFile, streamState and segmenter of writer/segmenter/segmenter.go),
-- and what it asks of the files and the MP4 muxers that it writes with.
use gomedia.Common.{ℕ, ◌+◌, ◌≡◌, Bool, Option, none, some, List, ◌++◌, weigh}
use gomedia.Segmenter.{Packet}
use gomedia.Segmenter.Ring.{RingBuffer}

-- mp4.Muxer of format/mp4/muxer.go over a new file. `create` is createFile, NewMuxer and Mux for the
-- codecs of a stream, from a start time and the index of the source; it answers nothing where one
-- of them fails, and the files of a `World` may fail at any call. The muxer answers for the calls
-- on its file: `write_packet` and `flush` may refuse, `write_trailer` answers the file's size. The
-- laws say that a muxer keeps the packets it took, pending or released, also where a flush fails.
-- Every call returns: this leaves out that Flush and WriteTrailer of mp4.Muxer panic after a Flush
-- that failed with some of its packets written (writePendingDirect has set them to nil, and keeps
-- them), so that runs behind such a Flush are not those of the source.
pub record Muxers : Type 1 where
  pub World : Type 0
  pub Muxer : Type 0
  pub create : Option ℕ → Option ℕ → ℕ → ℕ → World → Option Muxer × World
  pub write_packet : Packet → Muxer → Option Muxer
  pub flush : Muxer → Bool × Muxer
  pub write_trailer : Muxer → Option ℕ
  pub pending : Muxer → List Packet
  pub pending_bytes : Muxer → ℕ
  pub released : Muxer → List Packet
  pub create-nothing :
      (v a : Option ℕ) (start idx : ℕ) (w : World) (m : Muxer)
      → (create v a start idx w).0 ≡ some m
      → (f : Packet → ℕ) → weigh f (pending m) + weigh f (released m) ≡ 0
  pub write_packet-keeps :
      (p : Packet) (m m' : Muxer)
      → write_packet p m ≡ some m'
      → (f : Packet → ℕ)
      → weigh f (pending m') + weigh f (released m')
        ≡ weigh f (pending m) + weigh f (released m) + f p
  pub flush-keeps :
      (m : Muxer) (f : Packet → ℕ)
      → weigh f (pending (flush m).1) + weigh f (released (flush m).1)
        ≡ weigh f (pending m) + weigh f (released m)

-- A gomedia.FileInfo.
pub record FileInfo : Type 0 where
  pub start : ℕ
  pub stop : ℕ
  pub size : ℕ
  pub url : ℕ

pub data RecordMode : Type 0 where
  never : RecordMode
  always : RecordMode
  event : RecordMode

pub data Error : Type 0 where
  nil_video_par : Error
  no_such_source : Error
  open_failed : Error
  trailer_failed : Error
  no_active_segment : Error
  packet_refused : Error
  flush_failed : Error
  never_mode : Error

module _ (M : Muxers) where
  pub record ActiveFile : Type 0 where
    pub muxer : M.Muxer
    pub start_time : ℕ
    pub duration : ℕ
    pub last_flush : ℕ
    pub pkt_count : ℕ

  -- streamState. `released` lists the packets that the segmenter, or a muxer of the stream that is
  -- closed, has released; `source_id` and the two codecs are its codecPar.
  pub record StreamState : Type 0 where
    pub active_file : Option ActiveFile
    pub ring_buf : RingBuffer
    pub seen_keyframe : Bool
    pub event_saved : Bool
    pub event_record_start : ℕ
    pub event_session_dur : ℕ
    pub last_record_stop : ℕ
    pub source_id : ℕ
    pub video_par : Option ℕ
    pub audio_par : Option ℕ
    pub released : List Packet

  -- segmenter. `now` is the time at a step, `statuses` what was sent to the channel of the status,
  -- and `others_active` whether a stream other than the one at hand has a file.
  pub record Segmenter : Type 0 where
    pub record_mode : RecordMode
    pub target_duration : ℕ
    pub pre_buffer_duration : ℕ
    pub post_event_duration : ℕ
    pub max_event_duration : ℕ
    pub ring_buffer_byte_cap : ℕ
    pub muxer_flush_byte_cap : ℕ
    pub record_cur_status : Bool
    pub last_event : ℕ
    pub sources : List ℕ
    pub others_active : Bool
    pub now : ℕ
    pub statuses : List Bool
    pub world : M.World

  -- What a handler works on: the segmenter, the stream of the packet, and the files to report.
  pub record Work : Type 0 where
    pub seg : Segmenter
    pub stream : StreamState
    pub infos : List FileInfo

  -- A handler changes these, whether it returns an error or not.
  abbrev pub Handler : Type 0
  Handler = Work → Option Error × Work

  unfoldable pub proceed : Option Error × Work → Handler → Option Error × Work
  proceed (none, w) more = more w
  proceed (some e, w) more = (some e, w)

  unfoldable pub release_all : List Packet → Work → Work
  release_all ps w = record w { stream = record (w.stream) { released = w.stream.released ++ ps } }

  -- `if err != nil { pkt.Release(); return infos, err }`, for the packets at hand.
  unfoldable pub proceed_or_release :
      List Packet → Option Error × Work → Handler → Option Error × Work
  proceed_or_release ps (none, w) more = more w
  proceed_or_release ps (some e, w) more = (some e, release_all ps w)
