-- ===== src/Segmenter/Event.antt =====
-- handleEventMode of writer/segmenter/segmenter.go, and the functions it calls.
pub mod Lossless
use gomedia.Common.{
  ℕ, zero, suc, ◌+◌, ◌-◌, Bool, true, false, ◌&&◌, ◌||◌, not, Option, none, some, List, [], ◌∷◌,
  ◌++◌, length, take, drop, leb, ltb, ◌==◌, if◌then◌else◌,
}
use gomedia.Segmenter.{Packet}
use gomedia.Segmenter.Ring.{
  RingBuffer, is_key, video_duration, add, trim, drain, first_key, or_next,
}
use gomedia.Segmenter.State.{
  Muxers, ActiveFile, StreamState, Segmenter, Work, Handler, FileInfo, Error, proceed, release_all,
  proceed_or_release,
}
use gomedia.Segmenter.Files.{
  is_some, open_new_segment, close_segment, write_segment, flush_segment, maybe_flush, set_status,
  recording,
}
use gomedia.Segmenter.Always.{file_duration}

-- findFirstKeyframe
unfoldable pub or_zero : Option ℕ → ℕ
or_zero none = 0
or_zero (some i) = i

unfoldable pub find_first_keyframe : List Packet → ℕ
find_first_keyframe ps = or_zero (first_key ps)

-- findKeyframeAtOrAfter: the first key frame of the packets from `start` on that is not before
-- `stop`, or else `start`.
unfoldable pub first_key_after : ℕ → List Packet → Option ℕ
first_key_after stop [] = none
first_key_after stop (p ∷ ps) =
    let rest = first_key_after stop ps in
    if is_key p && leb stop p.start_time then some 0 else or_next rest

unfoldable pub find_keyframe_at_or_after : List Packet → ℕ → ℕ → ℕ
find_keyframe_at_or_after ps start stop = start + or_zero (first_key_after stop (drop start ps))

unfoldable pub start_index : List Packet → ℕ → ℕ
start_index ps last_record_stop =
    if last_record_stop == 0
    then find_first_keyframe ps
    else find_keyframe_at_or_after ps (find_first_keyframe ps) last_record_stop

unfoldable pub add_trimmed : Packet → RingBuffer → RingBuffer
add_trimmed p rb = if is_key p then trim (add p rb) else add p rb

-- The stop time of a file that was reported, if one was.
unfoldable pub stop_of : List FileInfo → ℕ → ℕ
stop_of [] before = before
stop_of (info ∷ infos) before = info.stop

module _ (M : Muxers) where
  -- handleEventModeActiveFile: how long it is since the last event, and whether the recording is
  -- as long as it may get.
  unfoldable pub idle_reached : Work M → Bool
  idle_reached w = leb w.seg.post_event_duration (w.seg.now - w.seg.last_event)

  unfoldable pub max_reached : Work M → Bool
  max_reached w =
      leb w.seg.max_event_duration w.stream.event_session_dur
      || leb w.seg.max_event_duration (w.seg.now - w.stream.event_record_start)

  -- The switch on these, for a file that is at least minEventSegmentDuration long.
  unfoldable pub session_ends : Packet → Work M → Bool
  session_ends p w =
      leb 5000000000 (file_duration M w.stream.active_file)
      && (if idle_reached w then is_key p else max_reached w)

  -- eventSegmentBudgetAllowsRotate: the time left is a signed difference in the source, at least
  -- the target duration where both sums are within the maximum.
  unfoldable pub budget_allows_rotate : Work M → Bool
  budget_allows_rotate w =
      leb (w.stream.event_session_dur + w.seg.target_duration) w.seg.max_event_duration
      && leb (w.seg.now - w.stream.event_record_start + w.seg.target_duration)
          w.seg.max_event_duration

  -- endEventSession
  unfoldable pub stop_recording : Work M → Work M
  stop_recording w =
      if not w.seg.others_active && w.seg.record_cur_status then set_status M false w else w

  unfoldable pub end_session : Packet → ℕ → Work M → Work M
  end_session p reported w = stop_recording (record w {
    stream = record (w.stream) {
      last_record_stop =
          if is_key p
          then p.start_time
          else stop_of (drop reported w.infos) w.stream.last_record_stop;
      event_record_start = 0;
      event_session_dur = 0;
      ring_buf = add_trimmed p w.stream.ring_buf;
    };
  })

  unfoldable pub end_event_session : Packet → Handler M
  end_event_session p w =
      proceed_or_release M (p ∷ []) (close_segment M 0 w)
        (λ w'. (none, end_session p (length w.infos) w'))

  unfoldable pub renew : ℕ → Handler M
  renew start w = proceed M (close_segment M 0 w) (open_new_segment M start)

  unfoldable pub rotate_event : Packet → Handler M
  rotate_event p w =
      if is_key p
        && not (idle_reached w)
        && not (max_reached w)
        && leb w.seg.target_duration (file_duration M w.stream.active_file)
        && budget_allows_rotate w
      then renew p.start_time w
      else (none, w)

  unfoldable pub add_session : Packet → Work M → Work M
  add_session p w = record w {
    stream = record (w.stream) {
      event_session_dur = w.stream.event_session_dur + video_duration p;
    };
  }

  unfoldable pub write_event : Packet → Handler M
  write_event p w = proceed M (write_segment M p w) (λ w'. maybe_flush M (add_session p w'))

  unfoldable pub handle_event_mode_active_file : Packet → Handler M
  handle_event_mode_active_file p w =
      if session_ends p w
      then end_event_session p w
      else proceed_or_release M (p ∷ []) (rotate_event p w) (write_event p)

  -- The loop of startEventRecording, and what follows it. A failed flush leaves the packets behind.
  unfoldable pub rotate_recorded : Packet → Handler M
  rotate_recorded p w =
      if is_key p && leb w.seg.target_duration (file_duration M w.stream.active_file)
      then renew p.start_time w
      else (none, w)

  unfoldable pub event_is_saved : Work M → Work M
  event_is_saved w = record w { stream = record (w.stream) { event_saved = true } }

  unfoldable pub record_packets : List Packet → Handler M
  record_packets [] w = proceed M (flush_segment M w) (λ w'. (none, event_is_saved w'))
  record_packets (p ∷ ps) w = proceed_or_release M (p ∷ ps) (rotate_recorded p w) (λ w1.
      proceed_or_release M ps (write_segment M p w1)
        (λ w2. proceed M (maybe_flush M (add_session p w2)) (record_packets ps)))

  -- startEventRecording, with `bufferedPkts[startIdx:]` for the packets to record.
  unfoldable pub begin_session : Work M → Work M
  begin_session w = recording M (record w {
    stream = record (w.stream) { event_record_start = w.seg.now; event_session_dur = 0 };
  })

  unfoldable pub record_from : List Packet → Handler M
  record_from [] w = (none, w)
  record_from (p ∷ ps) w =
      proceed_or_release M (p ∷ ps) (open_new_segment M p.start_time w)
        (λ w'. record_packets (p ∷ ps) (begin_session w'))

  unfoldable pub set_ring : RingBuffer → Work M → Work M
  set_ring rb w = record w { stream = record (w.stream) { ring_buf = rb } }

  unfoldable pub start_event_recording : Handler M
  start_event_recording w =
      let (ps, rb) = drain w.stream.ring_buf in
      let start = start_index ps w.stream.last_record_stop in
      record_from (drop start ps) (release_all M (take start ps) (set_ring rb w))

  unfoldable pub handle_event_mode_idle : Packet → Handler M
  handle_event_mode_idle p w =
      let added = set_ring (add_trimmed p w.stream.ring_buf) w in
      if not w.stream.event_saved && is_key p then start_event_recording added else (none, added)

  unfoldable pub handle_event_mode : Packet → Handler M
  handle_event_mode p w =
      if is_some w.stream.active_file
      then handle_event_mode_active_file p w
      else handle_event_mode_idle p w
