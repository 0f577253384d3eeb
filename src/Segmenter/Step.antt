-- ===== src/Segmenter/Step.antt =====
-- Step, removeSource and Release of writer/segmenter/segmenter.go. A step is one case of the
-- select; the map of streams is an association list, in whose order its loops run here.
pub mod Lossless
pub mod Invariant
use gomedia.Common.{
  ℕ, ◌+◌, Bool, true, false, ◌&&◌, ◌||◌, not, Option, none, some, List, [], ◌∷◌, ◌++◌, ◌==◌,
  if◌then◌else◌,
}
use gomedia.Segmenter.{Packet}
use gomedia.Segmenter.Ring.{RingBuffer, is_key, new_ring_buffer, ring_hard_cap, clear}
use gomedia.Segmenter.State.{
  Muxers, ActiveFile, StreamState, Segmenter, Work, Handler, FileInfo, Error, never_mode,
  RecordMode, never, always, event, proceed, release_all, proceed_or_release,
}
use gomedia.Segmenter.Files.{is_some, has_source, close_segment, set_status}
use gomedia.Segmenter.Always.{handle_always_mode}
use gomedia.Segmenter.Event.{handle_event_mode, set_ring}

unfoldable pub is_codec : ℕ → Option ℕ → Bool
is_codec codec none = false
is_codec codec (some current) = codec == current

-- addSource
unfoldable pub add_source : ℕ → List ℕ → List ℕ
add_source url sources = if has_source url sources then sources else sources ++ (url ∷ [])

unfoldable pub remove_url : ℕ → List ℕ → List ℕ
remove_url url [] = []
remove_url url (src ∷ sources) =
    let rest = remove_url url sources in if src == url then sources else src ∷ rest

module _ (M : Muxers) where
  -- The state between two steps. `released` lists the packets that no stream had, `sent` the files
  -- that were reported.
  pub record Archive : Type 0 where
    pub seg : Segmenter M
    pub streams : List (ℕ × StreamState M)
    pub released : List Packet
    pub sent : List FileInfo

  unfoldable pub find_stream : ℕ → List (ℕ × StreamState M) → Option (StreamState M)
  find_stream url [] = none
  find_stream url ((key, st) ∷ streams) =
      let rest = find_stream url streams in if key == url then some st else rest

  unfoldable pub put_stream :
      ℕ → StreamState M → List (ℕ × StreamState M) → List (ℕ × StreamState M)
  put_stream url st' [] = (url, st') ∷ []
  put_stream url st' ((key, st) ∷ streams) =
      let rest = put_stream url st' streams in
      if key == url then (url, st') ∷ streams else (key, st) ∷ rest

  -- Whether a stream but that of the source has a file.
  unfoldable pub others_active : ℕ → List (ℕ × StreamState M) → Bool
  others_active url [] = false
  others_active url ((key, st) ∷ streams) =
      (not (key == url) && is_some st.active_file) || others_active url streams

  unfoldable pub new_stream : ℕ → Segmenter M → StreamState M
  new_stream url seg = record {
    active_file = none;
    ring_buf =
        new_ring_buffer seg.pre_buffer_duration (ring_hard_cap seg.pre_buffer_duration)
          seg.ring_buffer_byte_cap;
    seen_keyframe = false;
    event_saved = true;
    event_record_start = 0;
    event_session_dur = 0;
    last_record_stop = 0;
    source_id = url;
    video_par = none;
    audio_par = none;
    released = [];
  }

  -- A change of the codec closes the file: one that is shorter than a second is discarded.
  unfoldable pub close_changed : Handler M
  close_changed w = close_segment M 1000000000 w

  unfoldable pub change_video : Packet → Handler M
  change_video p w =
      if p.is_video && not (is_codec p.codec w.stream.video_par)
      then close_changed (record w { stream = record (w.stream) { video_par = some p.codec } })
      else (none, w)

  unfoldable pub change_audio : Packet → Handler M
  change_audio p w =
      if p.is_audio && not (is_codec p.codec w.stream.audio_par)
      then close_changed (record w { stream = record (w.stream) { audio_par = some p.codec } })
      else (none, w)

  -- An error there ends the step, and no file is reported.
  unfoldable pub unreported : Option Error × Work M → Option Error × Work M
  unreported (none, w) = (none, w)
  unreported (some e, w) = (some e, record w { infos = [] })

  unfoldable pub by_mode : RecordMode → Packet → Handler M
  by_mode never p w = (none, w)
  by_mode always p w = handle_always_mode M p w
  by_mode event p w = handle_event_mode M p w

  unfoldable pub see_keyframe : Packet → Work M → Work M
  see_keyframe p w = record w {
    stream = record (w.stream) { seen_keyframe = w.stream.seen_keyframe || is_key p };
  }

  unfoldable pub admit : RecordMode → Packet → Handler M
  admit mode p w =
      if not w.stream.seen_keyframe && not (is_key p)
      then (none, release_all M (p ∷ []) w)
      else by_mode mode p (see_keyframe p w)

  -- The packet's case of Step, once there is a stream for it.
  unfoldable pub process : RecordMode → Packet → Handler M
  process mode p w =
      proceed_or_release M (p ∷ []) (unreported (change_video p w))
        (λ w1. proceed_or_release M (p ∷ []) (unreported (change_audio p w1)) (admit mode p))

  unfoldable pub stream_or_new : Option (StreamState M) → ℕ → Segmenter M → StreamState M
  stream_or_new none url seg = new_stream url seg
  stream_or_new (some st) url seg = st

  unfoldable pub write_back : ℕ → Archive → Option Error × Work M → Option Error × Archive
  write_back url a (e, w) = (
    e,
    record a { seg = w.seg; streams = put_stream url w.stream a.streams; sent = a.sent ++ w.infos },
  )

  unfoldable pub release_packet : Packet → Archive → Archive
  release_packet p a = record a { released = a.released ++ (p ∷ []) }

  unfoldable pub work_on : ℕ → Archive → Work M
  work_on url a = record {
    seg = record (a.seg) { others_active = others_active url a.streams };
    stream = stream_or_new (find_stream url a.streams) url a.seg;
    infos = [];
  }

  unfoldable pub step_for : RecordMode → Packet → Archive → Option Error × Archive
  step_for never p a = (some never_mode, release_packet p a)
  step_for mode p a =
      if has_source p.source_id a.seg.sources
      then write_back p.source_id a (process mode p (work_on p.source_id a))
      else (none, release_packet p a)

  unfoldable pub step_packet : Packet → Archive → Option Error × Archive
  step_packet p a = step_for a.seg.record_mode p a
