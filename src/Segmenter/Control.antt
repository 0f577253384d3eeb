-- ===== src/Segmenter/Control.antt =====
-- The other cases of Step in writer/segmenter/segmenter.go: a trigger, a change of the mode, and the
-- sources, with Release.
pub mod Lossless
use gomedia.Common.{
  ℕ, Bool, true, false, Option, none, some, List, [], ◌∷◌, ◌++◌, ◌==◌, if◌then◌else◌,
}
use gomedia.Segmenter.{Packet}
use gomedia.Segmenter.Ring.{clear}
use gomedia.Segmenter.State.{
  Muxers, ActiveFile, StreamState, Segmenter, Work, FileInfo, Error, RecordMode, never, always,
  event,
}
use gomedia.Segmenter.Files.{close_segment, set_status}
use gomedia.Segmenter.Step.{Archive, find_stream, add_source, remove_url}

unfoldable pub same_mode : RecordMode → RecordMode → Bool
same_mode never never = true
same_mode always always = true
same_mode event event = true
same_mode _ _ = false

module _ (M : Muxers) where
  -- A trigger: an idle stream starts at its next key frame, a recording may go on for longer.
  unfoldable pub trigger_stream : ℕ → Option (ActiveFile M) → StreamState M → StreamState M
  trigger_stream now none st = record st { event_saved = false }
  trigger_stream now (some af) st = record st { event_record_start = now; event_session_dur = 0 }

  unfoldable pub trigger : ℕ → List (ℕ × StreamState M) → List (ℕ × StreamState M)
  trigger now [] = []
  trigger now ((key, st) ∷ streams) =
      (key, trigger_stream now st.active_file st) ∷ trigger now streams

  unfoldable pub step_event : Archive M → Archive M
  step_event a = record a {
    seg = record (a.seg) { last_event = a.seg.now };
    streams = trigger a.seg.now a.streams;
  }

  unfoldable pub set_streams : List (ℕ × StreamState M) → List FileInfo → Archive M → Archive M
  set_streams streams infos a = record a { streams = streams; sent = a.sent ++ infos }

  -- The stream at hand is closed, its ring is cleared, and it waits for a key frame.
  unfoldable pub close_stream : Segmenter M → StreamState M → Option Error × Work M
  close_stream seg st = close_segment M 0 (record { seg = seg; stream = st; infos = [] })

  unfoldable pub cleared : StreamState M → StreamState M
  cleared st = record st { ring_buf = clear st.ring_buf; seen_keyframe = false }

  -- The loop of a change of the mode: it ends at an error, with the streams as they are then.
  unfoldable pub close_next :
      ℕ
      → Option Error × Work M
      → List (ℕ × StreamState M)
      → Option Error × (List (ℕ × StreamState M) × List FileInfo)
      → Option Error × (List (ℕ × StreamState M) × List FileInfo)
  close_next key (some e, w) streams rest = (some e, ((key, w.stream) ∷ streams, []))
  close_next key (none, w) streams (e, (streams', infos)) =
      (e, ((key, cleared w.stream) ∷ streams', w.infos ++ infos))

  unfoldable pub close_streams :
      Segmenter M
      → List (ℕ × StreamState M)
      → Option Error × (List (ℕ × StreamState M) × List FileInfo)
  close_streams seg [] = (none, ([], []))
  close_streams seg ((key, st) ∷ streams) =
      close_next key (close_stream seg st) streams (close_streams seg streams)

  unfoldable pub stop_status : Segmenter M → Segmenter M
  stop_status seg =
      if seg.record_cur_status
      then record seg { record_cur_status = false; statuses = seg.statuses ++ (false ∷ []) }
      else seg

  -- An error leaves the mode as it was, and no file is reported.
  unfoldable pub changed_mode :
      RecordMode
      → Option Error × (List (ℕ × StreamState M) × List FileInfo)
      → Archive M
      → Option Error × Archive M
  changed_mode mode (some e, (streams, infos)) a = (some e, set_streams streams [] a)
  changed_mode mode (none, (streams, infos)) a = (
    none,
    record (set_streams streams infos a) {
      seg = stop_status (record (a.seg) { record_mode = mode });
    },
  )

  unfoldable pub step_record_mode : RecordMode → Archive M → Option Error × Archive M
  step_record_mode mode a =
      let closed = close_streams a.seg a.streams in
      if same_mode mode a.seg.record_mode then (none, a) else changed_mode mode closed a

  unfoldable pub step_add_source : ℕ → Archive M → Archive M
  step_add_source url a = record a {
    seg = record (a.seg) { sources = add_source url a.seg.sources };
  }

  -- removeSource: an error of closing is dropped. The packets that the stream has released by then
  -- are no stream's.
  unfoldable pub delete_stream : ℕ → List (ℕ × StreamState M) → List (ℕ × StreamState M)
  delete_stream url [] = []
  delete_stream url ((key, st) ∷ streams) =
      let rest = delete_stream url streams in if key == url then streams else (key, st) ∷ rest

  unfoldable pub removed : ℕ → Option Error × Work M → Archive M → Archive M
  removed url (e, w) a = record a {
    streams = delete_stream url a.streams;
    released =
        a.released
        ++ (w.stream.released ++ (w.stream.ring_buf.released ++ w.stream.ring_buf.packets));
    sent = a.sent ++ w.infos;
  }

  unfoldable pub remove_stream : ℕ → Option (StreamState M) → Archive M → Archive M
  remove_stream url none a = a
  remove_stream url (some st) a = removed url (close_stream a.seg st) a

  unfoldable pub step_remove_source : ℕ → Archive M → Archive M
  step_remove_source url a =
      let a' = remove_stream url (find_stream M url a.streams) a in
      record a' { seg = record (a'.seg) { sources = remove_url url a'.seg.sources } }

  -- Release, with the packets that are left in the channel. Errors of closing are dropped, and the
  -- streams stay in the map.
  unfoldable pub finish_next :
      ℕ
      → Option Error × Work M
      → List (ℕ × StreamState M) × List FileInfo
      → List (ℕ × StreamState M) × List FileInfo
  finish_next key (e, w) (streams, infos) =
      ((key, record (w.stream) { ring_buf = clear w.stream.ring_buf }) ∷ streams, w.infos ++ infos)

  unfoldable pub finish_streams :
      Segmenter M → List (ℕ × StreamState M) → List (ℕ × StreamState M) × List FileInfo
  finish_streams seg [] = ([], [])
  finish_streams seg ((key, st) ∷ streams) =
      finish_next key (close_stream seg st) (finish_streams seg streams)

  unfoldable pub send_stopped : Segmenter M → Segmenter M
  send_stopped seg =
      if seg.record_cur_status then record seg { statuses = seg.statuses ++ (false ∷ []) } else seg

  unfoldable pub release_segmenter : List Packet → Archive M → Archive M
  release_segmenter queue a =
      let (streams, infos) = finish_streams a.seg a.streams in
      record (set_streams streams infos a) {
        seg = send_stopped a.seg;
        released = a.released ++ queue;
      }
