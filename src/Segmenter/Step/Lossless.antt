-- ===== src/Segmenter/Step/Lossless.antt =====
-- A packet that reaches a segmenter: where it is after a step.
use gomedia.Common.{
  ℕ, ◌+◌, ◌≡◌, ◌≢◌, refl, inl, inr, arith, false, ◌&&◌, not, Bool-cases, Option, none, some, List,
  [], ◌∷◌, ◌==◌, weigh, weigh-append, All,
}
use gomedia.Segmenter.{Packet}
use gomedia.Segmenter.Ring.{is_key, new_ring_buffer}
use gomedia.Segmenter.Ring.Sums.{IsCounting}
use gomedia.Segmenter.State.{
  Muxers, StreamState, Segmenter, Work, Handler, Error, RecordMode, never, always, event,
  proceed_or_release,
}
use gomedia.Segmenter.Files.{has_source}
use gomedia.Segmenter.Kept.{
  Takes, kept, close_segment-Takes, close_segment-idle, release_one-Takes, loses, loses-refuses,
}
use gomedia.Segmenter.Always.Lossless.{handle_always_mode-Takes}
use gomedia.Segmenter.Event.Lossless.{handle_event_mode-Takes}
use gomedia.Segmenter.Step.{
  Archive, is_codec, find_stream, put_stream, new_stream, close_changed, change_video, change_audio,
  unreported, by_mode, see_keyframe, admit, process, stream_or_new, write_back, release_packet,
  work_on, step_for, step_packet,
}

module _ (M : Muxers) (f : Packet → ℕ) where
  -- What a change of the codec leaves of a stream.
  abbrev Keeps : Work M → Option Error × Work M → Type 0
  Keeps w (e, w') =
      (kept M f w'.stream ≡ kept M f w.stream) × (w'.stream.ring_buf ≡ w.stream.ring_buf)

  close_changed-Keeps : (w : Work M) → Keeps w (close_changed M w)
  unfolding close_changed
  close_changed-Keeps w =
      (omega (arith, close_segment-Takes M f 1000000000 w), (close_segment-idle M f 1000000000 w).1)

  change_video-Keeps : (p : Packet) (w : Work M) → Keeps w (change_video M p w)
  unfolding change_video
  change_video-Keeps p w =
      elim (Bool-cases (p.is_video && not (is_codec p.codec w.stream.video_par))) [
        | inr same ↦ rw same (refl, refl)
        | inl changed ↦ rw changed (close_changed-Keeps _)
      ]

  change_audio-Keeps : (p : Packet) (w : Work M) → Keeps w (change_audio M p w)
  unfolding change_audio
  change_audio-Keeps p w =
      elim (Bool-cases (p.is_audio && not (is_codec p.codec w.stream.audio_par))) [
        | inr same ↦ rw same (refl, refl)
        | inl changed ↦ rw changed (close_changed-Keeps _)
      ]

  -- The rest of a handler behind such a change.
  changed-Takes :
      (p : Packet) (w : Work M) (answer : Option Error × Work M) (more : Handler M)
      → IsCounting w.stream.ring_buf
      → Keeps w answer
      → loses (proceed_or_release M (p ∷ []) (unreported M answer) more).0 ≡ false
      → ((w' : Work M)
          → IsCounting w'.stream.ring_buf
          → loses (more w').0 ≡ false
          → Takes M f (f p) w' (more w'))
      → Takes M f (f p) w (proceed_or_release M (p ∷ []) (unreported M answer) more)
  unfolding unreported proceed_or_release
  changed-Takes p w (none, w') more counting (same, ring) spared takes =
      omega (arith, same, takes w' (rw ring counting) spared)
  changed-Takes p w (some e, w') more counting (same, ring) spared takes =
      omega (arith, same, release_one-Takes M f p (record w' { infos = [] }))

  by_mode-Takes :
      (mode : RecordMode) (p : Packet) (w : Work M)
      → mode ≢ never
      → IsCounting w.stream.ring_buf
      → loses (by_mode M mode p w).0 ≡ false
      → Takes M f (f p) w (by_mode M mode p w)
  unfolding by_mode
  by_mode-Takes never p w some_mode counting spared = absurd (some_mode refl)
  by_mode-Takes always p w some_mode counting spared =
      handle_always_mode-Takes M f p w (loses-refuses _ spared)
  by_mode-Takes event p w some_mode counting spared =
      handle_event_mode-Takes M f p w counting spared

  admit-Takes :
      (mode : RecordMode) (p : Packet) (w : Work M)
      → mode ≢ never
      → IsCounting w.stream.ring_buf
      → loses (admit M mode p w).0 ≡ false
      → Takes M f (f p) w (admit M mode p w)
  unfolding admit
  admit-Takes mode p w some_mode counting spared =
      elim (Bool-cases (not w.stream.seen_keyframe && not (is_key p))) [
        | inl early ↦ rw early (release_one-Takes M f p w)
        | inr seen ↦ rw seen (
            unfold see_keyframe in
            by_mode-Takes mode p (see_keyframe M p w) some_mode counting (rw seen at spared))
      ]

  process-Takes :
      (mode : RecordMode) (p : Packet) (w : Work M)
      → mode ≢ never
      → IsCounting w.stream.ring_buf
      → loses (process M mode p w).0 ≡ false
      → Takes M f (f p) w (process M mode p w)
  unfolding process
  process-Takes mode p w some_mode counting spared =
      changed-Takes p w (change_video M p w) _ counting (change_video-Keeps p w) spared
        (λ w1 counting1 spared1.
          changed-Takes p w1 (change_audio M p w1) (admit M mode p) counting1
            (change_audio-Keeps p w1) spared1 (λ w2. admit-Takes mode p w2 some_mode))

  -- The packets of all streams, and those that no stream had.
  unfoldable pub in_streams : List (ℕ × StreamState M) → ℕ
  in_streams [] = 0
  in_streams ((key, st) ∷ streams) = kept M f st + in_streams streams

  abbrev pub archived : Archive M → ℕ
  archived a = in_streams a.streams + weigh f a.released

  abbrev pub kept_of : Option (StreamState M) → ℕ
  kept_of none = 0
  kept_of (some st) = kept M f st

  in_streams-put :
      (url : ℕ) (st : StreamState M) (streams : List (ℕ × StreamState M))
      → in_streams (put_stream M url st streams) + kept_of (find_stream M url streams)
        ≡ in_streams streams + kept M f st
  unfolding in_streams put_stream find_stream
  in_streams-put url st [] = omega arith
  in_streams-put url st ((key, old) ∷ streams) = elim (Bool-cases (key == url)) [
    | inl found ↦ rw found (unfold in_streams in omega arith)
    | inr other ↦ rw other (omega (arith, in_streams-put url st streams))
  ]

  kept-stream_or_new :
      (o : Option (StreamState M)) (url : ℕ) (seg : Segmenter M)
      → kept M f (stream_or_new M o url seg) ≡ kept_of o
  unfolding stream_or_new new_stream new_ring_buffer weigh
  kept-stream_or_new none url seg = omega arith
  kept-stream_or_new (some st) url seg = refl

-- Every ring's sums are right.
abbrev pub IsCountingAll : (M : Muxers) → Archive M → Type 0
IsCountingAll M a = All (λ (entry : ℕ × StreamState M). IsCounting entry.1.ring_buf) a.streams

module _ (M : Muxers) where
  pub stream_or_new-IsCounting :
      (url : ℕ) (seg : Segmenter M) (streams : List (ℕ × StreamState M))
      → All (λ (entry : ℕ × StreamState M). IsCounting entry.1.ring_buf) streams
      → IsCounting (stream_or_new M (find_stream M url streams) url seg).ring_buf
  unfolding stream_or_new find_stream
  stream_or_new-IsCounting url seg [] counting =
      unfold new_stream new_ring_buffer weigh in (refl, refl)
  stream_or_new-IsCounting url seg ((key, st) ∷ streams) (here, counting) =
      elim (Bool-cases (key == url)) [
        | inl found ↦ rw found here
        | inr other ↦ rw other (stream_or_new-IsCounting url seg streams counting)
      ]

-- After a step with a packet it is in the file or the ring of a stream or released, whatever the
-- mode and the codecs are and whether opening, closing or writing of a trailer fails. The errors of
-- startEventRecording and of writePacket that leave packets behind are set aside.
pub step_packet-archived :
    (M : Muxers) (f : Packet → ℕ) (p : Packet) (a : Archive M)
    → IsCountingAll M a
    → loses (step_packet M p a).0 ≡ false
    → archived M f (step_packet M p a).1 ≡ archived M f a + f p
unfolding step_packet
step_packet-archived M f p a counting spared = go a.seg.record_mode spared
  where
    released : archived M f (release_packet M p a) ≡ archived M f a + f p
    released = unfold release_packet weigh in omega (arith, weigh-append f a.released (p ∷ []))

    w : Work M
    w = work_on M p.source_id a

    begun : kept M f w.stream ≡ kept_of M f (find_stream M p.source_id a.streams)
    begun =
        unfold work_on in
        kept-stream_or_new M f (find_stream M p.source_id a.streams) p.source_id a.seg

    ready : IsCounting w.stream.ring_buf
    ready = unfold work_on in stream_or_new-IsCounting M p.source_id a.seg a.streams counting

    worked :
        (mode : RecordMode)
        → mode ≢ never
        → loses (write_back M p.source_id a (process M mode p w)).0 ≡ false
        → archived M f (write_back M p.source_id a (process M mode p w)).1 ≡ archived M f a + f p
    worked mode some_mode spared =
        unfold write_back in
        omega (
          arith,
          begun,
          in_streams-put M f p.source_id (process M mode p w).1.stream a.streams,
          process-Takes M f mode p w some_mode ready spared,
        )

    go :
        (mode : RecordMode)
        → loses (step_for M mode p a).0 ≡ false
        → archived M f (step_for M mode p a).1 ≡ archived M f a + f p
    go never spared = unfold step_for in released
    go always spared = elim (Bool-cases (has_source p.source_id a.seg.sources)) [
      | inr unknown ↦ unfold step_for in rw unknown released
      | inl known ↦
          unfold step_for in rw known (worked always (λ e. absurd cc) (rw known at spared))
    ]
    go event spared = elim (Bool-cases (has_source p.source_id a.seg.sources)) [
      | inr unknown ↦ unfold step_for in rw unknown released
      | inl known ↦ unfold step_for in rw known (worked event (λ e. absurd cc) (rw known at spared))
    ]
