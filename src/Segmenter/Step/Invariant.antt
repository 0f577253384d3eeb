-- ===== src/Segmenter/Step/Invariant.antt =====
-- The rings of all streams stay sound from step to step.
use gomedia.Common.{
  ℕ, refl, inl, inr, Bool, true, false, ◌&&◌, not, Bool-cases, Option, none, some, List, [], ◌∷◌,
  ◌==◌, if◌then◌else◌, weigh, All,
}
use gomedia.Segmenter.{Packet}
use gomedia.Segmenter.Ring.{is_key, drain}
use gomedia.Segmenter.Ring.Sums.{IsCounting}
use gomedia.Segmenter.State.{
  Muxers, ActiveFile, StreamState, Work, Handler, Error, RecordMode, never, always, event, proceed,
  release_all, proceed_or_release,
}
use gomedia.Segmenter.Files.{
  is_some, has_source, get_source_index, set_active, opened, open_for, open_new_segment,
  close_segment, written, write_to, write_segment, flushed, flush_file, flush_segment, flush_due,
  maybe_flush, set_status, recording,
}
use gomedia.Segmenter.Kept.{close_segment-idle}
use gomedia.Segmenter.Always.{rotate_always, start_always, flush_always, house, handle_always_mode}
use gomedia.Segmenter.Event.{
  add_trimmed, session_ends, stop_recording, end_session, end_event_session, renew, rotate_event,
  add_session, write_event, handle_event_mode_active_file, rotate_recorded, event_is_saved,
  record_packets, begin_session, record_from, set_ring, start_event_recording,
  handle_event_mode_idle, handle_event_mode,
}
use gomedia.Segmenter.Event.Lossless.{add_trimmed-IsCounting}
use gomedia.Segmenter.Step.{
  Archive, put_stream, close_changed, change_video, change_audio, unreported, by_mode, see_keyframe,
  admit, process, write_back, release_packet, work_on, step_for, step_packet,
}
use gomedia.Segmenter.Step.Lossless.{IsCountingAll, stream_or_new-IsCounting}

module _ (M : Muxers) where
  -- The ring of a work that a handler leaves is sound.
  abbrev Sound : Option Error × Work M → Type 0
  Sound (e, w) = IsCounting w.stream.ring_buf

  -- A handler that leaves a sound ring sound.
  abbrev Preserves : Handler M → Type 0
  Preserves handler = (w : Work M) → IsCounting w.stream.ring_buf → Sound (handler w)

  proceed-Preserves :
      (answer : Option Error × Work M) (more : Handler M)
      → Sound answer
      → Preserves more
      → Sound (proceed M answer more)
  unfolding proceed
  proceed-Preserves (none, w) more sound preserves = preserves w sound
  proceed-Preserves (some e, w) more sound preserves = sound

  proceed_or_release-Preserves :
      (ps : List Packet) (answer : Option Error × Work M) (more : Handler M)
      → Sound answer
      → Preserves more
      → Sound (proceed_or_release M ps answer more)
  unfolding proceed_or_release release_all
  proceed_or_release-Preserves ps (none, w) more sound preserves = preserves w sound
  proceed_or_release-Preserves ps (some e, w) more sound preserves = sound

  if-Preserves :
      (test : Bool) (on off : Option Error × Work M)
      → Sound on
      → Sound off
      → Sound (if test then on else off)
  if-Preserves true on off h k = h
  if-Preserves false on off h k = k

  close_segment-Preserves : (min : ℕ) → Preserves (close_segment M min)
  close_segment-Preserves min w sound = rw (close_segment-idle M (λ _. 0) min w).1 sound

  open_new_segment-Preserves : (start : ℕ) → Preserves (open_new_segment M start)
  unfolding open_new_segment
  open_new_segment-Preserves start w sound =
      go w.stream.video_par (get_source_index w.stream.source_id w.seg.sources)
    where
      answered : (answer : Option (M.Muxer) × M.World) → Sound (opened M start w answer)
      answered (none, world) = unfold opened in sound
      answered (some m, world) = unfold opened set_active in sound

      go : (v idx : Option ℕ) → Sound (open_for M v idx start w)
      go none idx = unfold open_for in sound
      go (some v) none = unfold open_for in sound
      go (some v) (some idx) =
          unfold open_for in answered (M.create (some v) w.stream.audio_par start idx w.seg.world)

  write_segment-Preserves : (p : Packet) → Preserves (write_segment M p)
  unfolding write_segment
  write_segment-Preserves p w sound = go w.stream.active_file
    where
      taken : (af : ActiveFile M) (m : Option (M.Muxer)) → Sound (written M p af m w)
      taken af none = unfold written in sound
      taken af (some m) = unfold written set_active in sound

      go : (file : Option (ActiveFile M)) → Sound (write_to M p file w)
      go none = unfold write_to in sound
      go (some af) = unfold write_to in taken af (M.write_packet p af.muxer)

  flush_segment-Preserves : Preserves (flush_segment M)
  unfolding flush_segment
  flush_segment-Preserves w sound = go w.stream.active_file
    where
      answered : (af : ActiveFile M) (ok : Bool) (m : M.Muxer) → Sound (flushed M af (ok, m) w)
      answered af true m = unfold flushed set_active in sound
      answered af false m = unfold flushed set_active in sound

      go : (file : Option (ActiveFile M)) → Sound (flush_file M file w)
      go none = unfold flush_file in sound
      go (some af) = unfold flush_file in answered af (M.flush af.muxer).0 (M.flush af.muxer).1

  maybe_flush-Preserves : Preserves (maybe_flush M)
  unfolding maybe_flush
  maybe_flush-Preserves w sound =
      if-Preserves (flush_due M w.stream.active_file w.seg) _ _ (flush_segment-Preserves w sound)
        sound

  recording_sound :
      (w : Work M) → IsCounting w.stream.ring_buf → IsCounting (recording M w).stream.ring_buf
  unfolding recording set_status
  recording_sound w sound = elim (Bool-cases w.seg.record_cur_status) [
    | inl on ↦ rw on sound
    | inr off ↦ rw off sound
  ]

  -- The mode that always records leaves the ring alone.
  handle_always_mode-Preserves : (p : Packet) → Preserves (handle_always_mode M p)
  unfolding handle_always_mode
  handle_always_mode-Preserves p w sound =
      proceed_or_release-Preserves (p ∷ []) (rotate_always M p w) _
        (unfold rotate_always in if-Preserves _ _ _ (close_segment-Preserves 0 w sound) sound)
        (λ w1 sound1.
          proceed_or_release-Preserves (p ∷ []) (start_always M p w1) _
            (unfold start_always in
              if-Preserves _ _ _
                (proceed-Preserves (open_new_segment M p.start_time w1) _
                  (open_new_segment-Preserves p.start_time w1 sound1) recording_sound)
                sound1)
            (λ w2 sound2. housed w2.stream.active_file w2 sound2))
    where
      late : Preserves (flush_always M)
      late w sound =
          unfold flush_always in if-Preserves _ _ _ (flush_segment-Preserves w sound) sound

      housed : (file : Option (ActiveFile M)) → Preserves (house M p file)
      housed none w sound = unfold house release_all in sound
      housed (some af) w sound =
          unfold house in
          proceed-Preserves (write_segment M p w) (flush_always M)
            (write_segment-Preserves p w sound) late

  renew-Preserves : (start : ℕ) → Preserves (renew M start)
  unfolding renew
  renew-Preserves start w sound =
      proceed-Preserves (close_segment M 0 w) (open_new_segment M start)
        (close_segment-Preserves 0 w sound) (open_new_segment-Preserves start)

  session_sound : (p : Packet) → Preserves (λ w. maybe_flush M (add_session M p w))
  session_sound p w sound = maybe_flush-Preserves (add_session M p w) (unfold add_session in sound)

  record_packets-Preserves : (ps : List Packet) → Preserves (record_packets M ps)
  unfolding record_packets
  record_packets-Preserves [] w sound =
      proceed-Preserves (flush_segment M w) _ (flush_segment-Preserves w sound)
        (λ w' sound'. unfold event_is_saved in sound')
  record_packets-Preserves (p ∷ ps) w sound =
      proceed_or_release-Preserves (p ∷ ps) (rotate_recorded M p w) _
        (unfold rotate_recorded in if-Preserves _ _ _ (renew-Preserves p.start_time w sound) sound)
        (λ w1 sound1.
          proceed_or_release-Preserves ps (write_segment M p w1) _
            (write_segment-Preserves p w1 sound1)
            (λ w2 sound2.
              proceed-Preserves (maybe_flush M (add_session M p w2)) (record_packets M ps)
                (session_sound p w2 sound2) (record_packets-Preserves ps)))

  record_from-Preserves : (ps : List Packet) → Preserves (record_from M ps)
  unfolding record_from
  record_from-Preserves [] w sound = sound
  record_from-Preserves (p ∷ ps) w sound =
      proceed_or_release-Preserves (p ∷ ps) (open_new_segment M p.start_time w) _
        (open_new_segment-Preserves p.start_time w sound)
        (λ w' sound'.
          record_packets-Preserves (p ∷ ps) (begin_session M w')
            (unfold begin_session in recording_sound _ sound'))

  -- A ring that was drained is empty.
  start_event_recording-Preserves : Preserves (start_event_recording M)
  unfolding start_event_recording
  start_event_recording-Preserves w sound =
      record_from-Preserves _ _ (unfold release_all set_ring drain weigh in (refl, refl))

  handle_event_mode-Preserves : (p : Packet) → Preserves (handle_event_mode M p)
  unfolding handle_event_mode
  handle_event_mode-Preserves p w sound =
      if-Preserves (is_some w.stream.active_file) _ _ (live w sound) (idle w sound)
    where
      stopped :
          (w : Work M)
          → IsCounting w.stream.ring_buf
          → IsCounting (stop_recording M w).stream.ring_buf
      stopped w sound =
          unfold stop_recording set_status in
          elim (Bool-cases (not w.seg.others_active && w.seg.record_cur_status)) [
            | inl stops ↦ rw stops sound
            | inr goes ↦ rw goes sound
          ]

      live : Preserves (handle_event_mode_active_file M p)
      live w sound =
          unfold handle_event_mode_active_file in
          if-Preserves (session_ends M p w) _ _
            (unfold end_event_session in
              proceed_or_release-Preserves (p ∷ []) (close_segment M 0 w) _
                (close_segment-Preserves 0 w sound)
                (λ w' sound'.
                  unfold end_session in
                  stopped _ (add_trimmed-IsCounting p w'.stream.ring_buf sound').0))
            (proceed_or_release-Preserves (p ∷ []) (rotate_event M p w) (write_event M p)
              (unfold rotate_event in
                if-Preserves _ _ _ (renew-Preserves p.start_time w sound) sound)
              (λ w' sound'.
                unfold write_event in
                proceed-Preserves (write_segment M p w') _ (write_segment-Preserves p w' sound')
                  (session_sound p)))

      idle : Preserves (handle_event_mode_idle M p)
      idle w sound =
          let added = (add_trimmed-IsCounting p w.stream.ring_buf sound).0 in
          unfold handle_event_mode_idle in
          if-Preserves (not w.stream.event_saved && is_key p) _ _
            (start_event_recording-Preserves (set_ring M (add_trimmed p w.stream.ring_buf) w)
              (unfold set_ring in added))
            (unfold set_ring in added)

  unreported-Preserves :
      (answer : Option Error × Work M) → Sound answer → Sound (unreported M answer)
  unfolding unreported
  unreported-Preserves (none, w) sound = sound
  unreported-Preserves (some e, w) sound = sound

  process-Preserves : (mode : RecordMode) (p : Packet) → Preserves (process M mode p)
  unfolding process
  process-Preserves mode p w sound =
      proceed_or_release-Preserves (p ∷ []) (unreported M (change_video M p w)) _
        (unreported-Preserves (change_video M p w) (
          unfold change_video close_changed in
          if-Preserves _ _ _ (close_segment-Preserves 1000000000 _ sound) sound))
        (λ w1 sound1.
          proceed_or_release-Preserves (p ∷ []) (unreported M (change_audio M p w1))
            (admit M mode p)
            (unreported-Preserves (change_audio M p w1) (
              unfold change_audio close_changed in
              if-Preserves _ _ _ (close_segment-Preserves 1000000000 _ sound1) sound1))
            admitted)
    where
      in_mode : (mode : RecordMode) → Preserves (by_mode M mode p)
      in_mode never w sound = unfold by_mode in sound
      in_mode always w sound = unfold by_mode in handle_always_mode-Preserves p w sound
      in_mode event w sound = unfold by_mode in handle_event_mode-Preserves p w sound

      admitted : Preserves (admit M mode p)
      admitted w sound =
          unfold admit in
          if-Preserves (not w.stream.seen_keyframe && not (is_key p))
            (none, release_all M (p ∷ []) w) _ (unfold release_all in sound)
            (in_mode mode (see_keyframe M p w) (unfold see_keyframe in sound))

  put_stream-All :
      (url : ℕ) (st : StreamState M) (streams : List (ℕ × StreamState M))
      → IsCounting st.ring_buf
      → All (λ (entry : ℕ × StreamState M). IsCounting entry.1.ring_buf) streams
      → All
          (λ (entry : ℕ × StreamState M). IsCounting entry.1.ring_buf)
          (put_stream M url st streams)
  unfolding put_stream
  put_stream-All url st [] sound rest = (sound, tt)
  put_stream-All url st ((key, old) ∷ streams) sound (here, rest) = elim (Bool-cases (key == url)) [
    | inl found ↦ rw found (sound, rest)
    | inr other ↦ rw other (here, put_stream-All url st streams sound rest)
  ]

  -- Whatever a packet does to a segmenter, and with every error, the bytes and the duration that
  -- each ring keeps are again the sums over the packets in it.
  pub step_packet-IsCountingAll :
      (p : Packet) (a : Archive M) → IsCountingAll M a → IsCountingAll M (step_packet M p a).1
  unfolding step_packet
  step_packet-IsCountingAll p a counting = go a.seg.record_mode
    where
      stored :
          (mode : RecordMode)
          → IsCountingAll M
              (write_back M p.source_id a (process M mode p (work_on M p.source_id a))).1
      stored mode =
          unfold write_back in
          put_stream-All p.source_id _ a.streams
            (process-Preserves mode p (work_on M p.source_id a)
              (unfold work_on in stream_or_new-IsCounting M p.source_id a.seg a.streams counting))
            counting

      go : (mode : RecordMode) → IsCountingAll M (step_for M mode p a).1
      go never = unfold step_for release_packet in counting
      go always = elim (Bool-cases (has_source p.source_id a.seg.sources)) [
        | inr unknown ↦ unfold step_for release_packet in rw unknown counting
        | inl known ↦ unfold step_for in rw known (stored always)
      ]
      go event = elim (Bool-cases (has_source p.source_id a.seg.sources)) [
        | inr unknown ↦ unfold step_for release_packet in rw unknown counting
        | inl known ↦ unfold step_for in rw known (stored event)
      ]
