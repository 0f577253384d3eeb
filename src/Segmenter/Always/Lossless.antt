-- ===== src/Segmenter/Always/Lossless.antt =====
-- Packets in the mode that always records.
use gomedia.Common.{
  ℕ, ◌+◌, ◌≡◌, refl, inl, inr, arith, false, ◌&&◌, Bool-cases, Option, none, some, leb,
}
use gomedia.Segmenter.{Packet}
use gomedia.Segmenter.Ring.{is_key}
use gomedia.Segmenter.State.{Muxers, ActiveFile, Work, Error, proceed}
use gomedia.Segmenter.Files.{is_some, open_new_segment, write_segment, recording}
use gomedia.Segmenter.Kept.{
  Takes, kept, open_new_segment-Takes, close_segment-Takes, write_segment-Takes,
  flush_segment-Takes, refuses, refuses-none, proceed-Takes, release_one-Takes, recording-kept,
  guarded-Takes,
}
use gomedia.Segmenter.Always.{
  file_duration, unflushed, rotate_always, start_always, flush_always, house, handle_always_mode,
}

module _ (M : Muxers) where
  -- Without a file, nothing is opened over one that is still in use.
  pub idle_of : (file : Option (ActiveFile M)) → is_some file ≡ false → file ≡ none
  unfolding is_some
  idle_of none e = refl
  idle_of (some af) e = absurd cc

module _ (M : Muxers) (f : Packet → ℕ) where
  rotate_always-Takes : (p : Packet) (w : Work M) → Takes M f 0 w (rotate_always M p w)
  unfolding rotate_always
  rotate_always-Takes p w =
      elim (Bool-cases (
        is_key p
        && is_some w.stream.active_file
        && leb w.seg.target_duration (file_duration M w.stream.active_file))) [
          | inl due ↦ rw due (close_segment-Takes M f 0 w)
          | inr early ↦ rw early (omega arith)
        ]

  -- A handler that opens a file, and starts the recording.
  pub open_then-Takes :
      (w : Work M) (answer : Option Error × Work M) (more : Work M → Work M)
      → Takes M f 0 w answer
      → ((w' : Work M) → kept M f (more w').stream ≡ kept M f w'.stream)
      → Takes M f 0 w (proceed M answer (λ w'. (none, more w')))
  unfolding proceed
  open_then-Takes w (none, w') more keeps same = omega (arith, keeps, same w')
  open_then-Takes w (some e, w') more keeps same = keeps

  start_always-Takes : (p : Packet) (w : Work M) → Takes M f 0 w (start_always M p w)
  unfolding start_always
  start_always-Takes p w = elim (Bool-cases (is_some w.stream.active_file)) [
    | inl active ↦ rw active (omega arith)
    | inr idle ↦ elim (Bool-cases (is_key p)) [
      | inr no_frame ↦ rw (idle, no_frame) (omega arith)
      | inl key ↦
          rw (idle, key)
            (open_then-Takes w (open_new_segment M p.start_time w) (recording M)
              (open_new_segment-Takes M f p.start_time w (idle_of M w.stream.active_file idle))
              (recording-kept M f))
    ]
  ]

  flush_always-Takes : (w : Work M) → Takes M f 0 w (flush_always M w)
  unfolding flush_always
  flush_always-Takes w =
      elim (Bool-cases
        (leb (w.seg.target_duration + 1000000000) (unflushed M w.stream.active_file))) [
          | inl due ↦ rw due (flush_segment-Takes M f w)
          | inr early ↦ rw early (omega arith)
        ]

  house-Takes :
      (p : Packet) (w : Work M)
      → refuses (house M p w.stream.active_file w).0 ≡ false
      → Takes M f (f p) w (house M p w.stream.active_file w)
  house-Takes p w accepted = go w.stream.active_file accepted
    where
      go :
          (file : Option (ActiveFile M))
          → refuses (house M p file w).0 ≡ false
          → Takes M f (f p) w (house M p file w)
      go none accepted = unfold house in release_one-Takes M f p w
      go (some af) accepted =
          unfold house in
          proceed-Takes M f refuses (f p) w (write_segment M p w) (flush_always M) refuses-none
            accepted (write_segment-Takes M f p w) (λ w' _. flush_always-Takes w')

  -- The handler takes over the packet, over a muxer whose calls return: it is in the file, in the
  -- ring or released as often as before, and once more.
  pub handle_always_mode-Takes :
      (p : Packet) (w : Work M)
      → refuses (handle_always_mode M p w).0 ≡ false
      → Takes M f (f p) w (handle_always_mode M p w)
  unfolding handle_always_mode
  handle_always_mode-Takes p w accepted =
      guarded-Takes M f refuses p w (rotate_always M p w) _ refuses-none accepted
        (λ _. rotate_always-Takes p w)
        (λ w1 accepted1.
          guarded-Takes M f refuses p w1 (start_always M p w1) _ refuses-none accepted1
            (λ _. start_always-Takes p w1) (λ w2 accepted2. house-Takes p w2 accepted2))
