-- ===== src/Segmenter/Event/Lossless.antt =====
-- Packets in the mode that records on events.
use gomedia.Common.{
  ℕ, ◌+◌, ◌≡◌, refl, ap, ◌∙◌, inl, inr, arith, false, ◌&&◌, not, Bool-cases, Option, none, some,
  List, [], ◌∷◌, length, take, drop, take-append-drop, leb, weigh, weigh-append,
}
use gomedia.Segmenter.{Packet}
use gomedia.Segmenter.Ring.{RingBuffer, is_key, add, drain}
use gomedia.Segmenter.Ring.Sums.{IsCounting, total, add-IsCounting, trim-Moves}
use gomedia.Segmenter.State.{Muxers, Work, Error, proceed, release_all, proceed_or_release}
use gomedia.Segmenter.Files.{
  is_some, open_new_segment, close_segment, write_segment, flush_segment, maybe_flush, set_status,
}
use gomedia.Segmenter.Kept.{
  Takes, kept, open_new_segment-Takes, close_segment-Takes, close_segment-idle, maybe_flush-error,
  then-Takes, write_segment-Takes, flush_segment-Takes, maybe_flush-Takes, release_all-kept,
  release_one-Takes, recording-kept, loses, loses-none, loses-refuses, proceed-Takes,
  proceed_or_release-Takes, guarded-Takes,
}
use gomedia.Segmenter.Always.{file_duration}
use gomedia.Segmenter.Always.Lossless.{idle_of}
use gomedia.Segmenter.Event.{
  add_trimmed, start_index, session_ends, stop_recording, end_session, end_event_session, renew,
  rotate_event, add_session, write_event, handle_event_mode_active_file, rotate_recorded,
  event_is_saved, record_packets, begin_session, record_from, set_ring, start_event_recording,
  handle_event_mode_idle, handle_event_mode, idle_reached, max_reached, budget_allows_rotate,
}

-- The ring with one more packet.
pub add_trimmed-IsCounting :
    (p : Packet) (rb : RingBuffer)
    → IsCounting rb
    → IsCounting (add_trimmed p rb)
      × ((f : Packet → ℕ) → total f (add_trimmed p rb) ≡ total f rb + f p)
unfolding add_trimmed
add_trimmed-IsCounting p rb counting =
    let (counting', sums) = add-IsCounting p rb counting in
    elim (Bool-cases (is_key p)) [
      | inr no_frame ↦ rw no_frame (counting', sums)
      | inl key ↦
          let (counting'', same) = trim-Moves (add p rb) counting' in
          rw key (counting'', λ f. same f ∙ sums f)
    ]

module _ (M : Muxers) (f : Packet → ℕ) where
  stop_recording-kept : (w : Work M) → kept M f (stop_recording M w).stream ≡ kept M f w.stream
  unfolding stop_recording set_status
  stop_recording-kept w = elim (Bool-cases (not w.seg.others_active && w.seg.record_cur_status)) [
    | inl stops ↦ rw stops refl
    | inr goes ↦ rw goes refl
  ]

  session-Takes : (p : Packet) (w : Work M) → Takes M f 0 w (maybe_flush M (add_session M p w))
  session-Takes p w = unfold add_session in maybe_flush-Takes M f (add_session M p w)

  write_event-Takes :
      (p : Packet) (w : Work M)
      → loses (write_event M p w).0 ≡ false
      → Takes M f (f p) w (write_event M p w)
  unfolding write_event
  write_event-Takes p w spared =
      proceed-Takes M f loses (f p) w (write_segment M p w) _ loses-none spared
        (λ spared'. write_segment-Takes M f p w (loses-refuses _ spared'))
        (λ w' _. session-Takes p w')

  -- A file that is closed is no longer the stream's, so that a new one takes no other's place.
  renew-Takes : (start : ℕ) (w : Work M) → Takes M f 0 w (renew M start w)
  unfolding renew
  renew-Takes start w =
      go (close_segment M 0 w) (close_segment-Takes M f 0 w) (close_segment-idle M f 0 w).0
    where
      go :
          (answer : Option Error × Work M)
          → Takes M f 0 w answer
          → answer.1.stream.active_file ≡ none
          → Takes M f 0 w (proceed M answer (open_new_segment M start))
      go (none, w') keeps idle =
          unfold proceed in omega (arith, keeps, open_new_segment-Takes M f start w' idle)
      go (some e, w') keeps idle = unfold proceed in keeps

  rotate_recorded-Takes : (p : Packet) (w : Work M) → Takes M f 0 w (rotate_recorded M p w)
  unfolding rotate_recorded
  rotate_recorded-Takes p w =
      elim (Bool-cases
        (is_key p && leb w.seg.target_duration (file_duration M w.stream.active_file))) [
          | inl due ↦ rw due (renew-Takes p.start_time w)
          | inr early ↦ rw early (omega arith)
        ]

  rotate_event-Takes : (p : Packet) (w : Work M) → Takes M f 0 w (rotate_event M p w)
  unfolding rotate_event
  rotate_event-Takes p w =
      elim (Bool-cases (
        is_key p
        && not (idle_reached M w)
        && not (max_reached M w)
        && leb w.seg.target_duration (file_duration M w.stream.active_file)
        && budget_allows_rotate M w)) [
          | inl due ↦ rw due (renew-Takes p.start_time w)
          | inr early ↦ rw early (omega arith)
        ]

  record_packets-Takes :
      (ps : List Packet) (w : Work M)
      → loses (record_packets M ps w).0 ≡ false
      → Takes M f (weigh f ps) w (record_packets M ps w)
  unfolding record_packets
  record_packets-Takes [] w spared =
      unfold weigh in
      proceed-Takes M f loses 0 w (flush_segment M w) _ loses-none spared
        (λ _. flush_segment-Takes M f w) (λ w' _. unfold event_is_saved in omega arith)
  record_packets-Takes (p ∷ ps) w spared = omega (
    arith,
    proceed_or_release-Takes M f loses (p ∷ ps) 0 w (rotate_recorded M p w) _ loses-none spared
        (λ _. rotate_recorded-Takes p w)
        (λ w1 spared1. omega (
          arith,
          parts,
          proceed_or_release-Takes M f loses ps (f p) w1 (write_segment M p w1) _ loses-none spared1
              (λ s. write_segment-Takes M f p w1 (loses-refuses _ s))
              (λ w2 spared2.
                then-Takes M f loses (weigh f ps) w2 (maybe_flush M (add_session M p w2)) _
                  (maybe_flush-error M f (add_session M p w2)) spared2 (session-Takes p w2)
                  (λ w3 spared3. record_packets-Takes ps w3 spared3)),
        )),
  )
    where
      parts : weigh f (p ∷ ps) ≡ f p + weigh f ps
      parts = unfold weigh in refl

  record_from-Takes :
      (ps : List Packet) (w : Work M)
      → w.stream.active_file ≡ none
      → loses (record_from M ps w).0 ≡ false
      → Takes M f (weigh f ps) w (record_from M ps w)
  unfolding record_from
  record_from-Takes [] w idle spared = unfold weigh in omega arith
  record_from-Takes (p ∷ ps) w idle spared = omega (
    arith,
    proceed_or_release-Takes M f loses (p ∷ ps) 0 w (open_new_segment M p.start_time w) _ loses-none
        spared (λ _. open_new_segment-Takes M f p.start_time w idle)
        (λ w' spared'.
          omega (arith, begun w', record_packets-Takes (p ∷ ps) (begin_session M w') spared')),
  )
    where
      begun : (w' : Work M) → kept M f (begin_session M w').stream ≡ kept M f w'.stream
      begun w' = unfold begin_session in recording-kept M f _

  start_event_recording-Takes :
      (w : Work M)
      → w.stream.active_file ≡ none
      → loses (start_event_recording M w).0 ≡ false
      → Takes M f 0 w (start_event_recording M w)
  unfolding start_event_recording drain
  start_event_recording-Takes w idle spared =
      let ps = w.stream.ring_buf.packets in
      let start = start_index ps w.stream.last_record_stop in
      omega (
        arith,
        drained,
        release_all-kept M f (take start ps) (set_ring M (drain w.stream.ring_buf).1 w),
        weigh-append f (take start ps) (drop start ps),
        ap (weigh f) (take-append-drop start ps),
        record_from-Takes (drop start ps)
            (release_all M (take start ps) (set_ring M (drain w.stream.ring_buf).1 w))
            (unfold release_all set_ring in idle) spared,
      )
    where
      drained :
          kept M f (set_ring M (drain w.stream.ring_buf).1 w).stream
            + weigh f w.stream.ring_buf.packets
          ≡ kept M f w.stream
      drained = unfold set_ring weigh in omega arith

  end_event_session-Takes :
      (p : Packet) (w : Work M)
      → IsCounting w.stream.ring_buf
      → loses (end_event_session M p w).0 ≡ false
      → Takes M f (f p) w (end_event_session M p w)
  unfolding end_event_session
  end_event_session-Takes p w counting spared =
      go (close_segment M 0 w) (close_segment-Takes M f 0 w) (close_segment-idle M f 0 w).1
    where
      go :
          (answer : Option Error × Work M)
          → Takes M f 0 w answer
          → answer.1.stream.ring_buf ≡ w.stream.ring_buf
          → Takes M f (f p) w (
              proceed_or_release M
                (p ∷ [])
                answer
                (λ w'. (none, end_session M p (length w.infos) w')))
      go (none, w') keeps same =
          unfold proceed_or_release end_session in
          omega (
            arith,
            keeps,
            stop_recording-kept _,
            (add_trimmed-IsCounting p w'.stream.ring_buf (rw same counting)).1 f,
          )
      go (some e, w') keeps same =
          unfold proceed_or_release in omega (arith, keeps, release_one-Takes M f p w')

  handle_event_mode_active_file-Takes :
      (p : Packet) (w : Work M)
      → IsCounting w.stream.ring_buf
      → loses (handle_event_mode_active_file M p w).0 ≡ false
      → Takes M f (f p) w (handle_event_mode_active_file M p w)
  unfolding handle_event_mode_active_file
  handle_event_mode_active_file-Takes p w counting spared = elim (Bool-cases (session_ends M p w)) [
    | inl ends ↦ rw ends (end_event_session-Takes p w counting (rw ends at spared))
    | inr goes ↦ rw goes (
        guarded-Takes M f loses p w (rotate_event M p w) (write_event M p) loses-none
          (rw goes at spared) (λ _. rotate_event-Takes p w) (write_event-Takes p))
  ]

  handle_event_mode_idle-Takes :
      (p : Packet) (w : Work M)
      → IsCounting w.stream.ring_buf
      → w.stream.active_file ≡ none
      → loses (handle_event_mode_idle M p w).0 ≡ false
      → Takes M f (f p) w (handle_event_mode_idle M p w)
  unfolding handle_event_mode_idle
  handle_event_mode_idle-Takes p w counting idle spared =
      let added = set_ring M (add_trimmed p w.stream.ring_buf) w in
      elim (Bool-cases (not w.stream.event_saved && is_key p)) [
        | inr waits ↦ rw waits (stored p w counting)
        | inl starts ↦ rw starts (
            omega (
              arith,
              stored p w counting,
              start_event_recording-Takes added (unfold set_ring in idle) (rw starts at spared),
            ))
      ]
    where
      stored :
          (p : Packet) (w : Work M)
          → IsCounting w.stream.ring_buf
          → kept M f (set_ring M (add_trimmed p w.stream.ring_buf) w).stream
            ≡ kept M f w.stream + f p
      stored p w counting =
          unfold set_ring in
          omega (arith, (add_trimmed-IsCounting p w.stream.ring_buf counting).1 f)

  -- In the mode that records on events, a packet is in the file, in the ring or released when the
  -- handler returns, unless the muxer refuses a packet or a flush failed.
  pub handle_event_mode-Takes :
      (p : Packet) (w : Work M)
      → IsCounting w.stream.ring_buf
      → loses (handle_event_mode M p w).0 ≡ false
      → Takes M f (f p) w (handle_event_mode M p w)
  unfolding handle_event_mode
  handle_event_mode-Takes p w counting spared = elim (Bool-cases (is_some w.stream.active_file)) [
    | inl active ↦
        rw active (handle_event_mode_active_file-Takes p w counting (rw active at spared))
    | inr idle ↦ rw idle (
        handle_event_mode_idle-Takes p w counting (idle_of M w.stream.active_file idle)
          (rw idle at spared))
  ]
