-- ===== src/Segmenter/Kept.antt =====
-- Where the packets of a stream are, and the handlers that keep them.
use gomedia.Common.{
  ℕ, ◌+◌, ◌≡◌, refl, ap, inl, inr, arith, Bool, true, false, ◌&&◌, Bool-cases, Option, none, some,
  List, [], ◌∷◌, ◌++◌, ltb, ◌==◌, weigh, weigh-append,
}
use gomedia.Segmenter.{Packet}
use gomedia.Segmenter.Ring.Sums.{total}
use gomedia.Segmenter.State.{
  Muxers, ActiveFile, StreamState, Work, Handler, Error, nil_video_par, no_such_source, open_failed,
  trailer_failed, no_active_segment, packet_refused, flush_failed, never_mode, proceed, release_all,
  proceed_or_release,
}
use gomedia.Segmenter.Files.{
  set_active, opened, open_for, open_new_segment, let_go, report, close_file, close_segment,
  written, write_to, write_segment, flushed, flush_file, flush_segment, maybe_flush, flush_due,
  set_status, recording, get_source_index,
}

-- The errors of writePacket: the packet is then neither in the muxer nor released.
unfoldable pub refuses : Option Error → Bool
refuses (some packet_refused) = true
refuses (some no_active_segment) = true
refuses _ = false

-- These, and a failed flush, with which startEventRecording leaves the rest of its packets.
unfoldable pub loses : Option Error → Bool
loses (some packet_refused) = true
loses (some no_active_segment) = true
loses (some flush_failed) = true
loses _ = false

pub refuses-none : refuses none ≡ false
unfolding refuses
refuses-none = refl

pub loses-none : loses none ≡ false
unfolding loses
loses-none = refl

pub loses-refuses : (e : Option Error) → loses e ≡ false → refuses e ≡ false
unfolding loses refuses
loses-refuses none h = refl
loses-refuses (some nil_video_par) h = refl
loses-refuses (some no_such_source) h = refl
loses-refuses (some open_failed) h = refl
loses-refuses (some trailer_failed) h = refl
loses-refuses (some no_active_segment) h = absurd cc
loses-refuses (some packet_refused) h = absurd cc
loses-refuses (some flush_failed) h = absurd cc
loses-refuses (some never_mode) h = refl

module _ (M : Muxers) (f : Packet → ℕ) where
  abbrev pub in_muxer : M.Muxer → ℕ
  in_muxer m = weigh f (M.pending m) + weigh f (M.released m)

  abbrev pub in_file : Option (ActiveFile M) → ℕ
  in_file none = 0
  in_file (some af) = in_muxer af.muxer

  -- The packets that a stream has, in its file, in its ring, or released.
  abbrev pub kept : StreamState M → ℕ
  kept st = in_file st.active_file + total f st.ring_buf + weigh f st.released

  -- What a handler does to the packets of the stream: it takes over packets of a weight.
  abbrev pub Takes : ℕ → Work M → Option Error × Work M → Type 0
  Takes n w (e, w') = kept w'.stream ≡ kept w.stream + n

  opened-Takes :
      (start : ℕ) (w : Work M) (answer : Option (M.Muxer) × M.World)
      → w.stream.active_file ≡ none
      → ((m : M.Muxer) → answer.0 ≡ some m → in_muxer m ≡ 0)
      → Takes 0 w (opened M start w answer)
  unfolding opened set_active
  opened-Takes start w (none, world) idle empty = omega arith
  opened-Takes start w (some m, world) idle empty = omega (arith, empty m refl, ap in_file idle)

  pub open_new_segment-Takes :
      (start : ℕ) (w : Work M)
      → w.stream.active_file ≡ none
      → Takes 0 w (open_new_segment M start w)
  unfolding open_new_segment
  open_new_segment-Takes start w idle =
      go w.stream.video_par (get_source_index w.stream.source_id w.seg.sources)
    where
      go : (v idx : Option ℕ) → Takes 0 w (open_for M v idx start w)
      go none idx = unfold open_for in omega arith
      go (some v) none = unfold open_for in omega arith
      go (some v) (some idx) =
          unfold open_for in
          opened-Takes start w (M.create (some v) w.stream.audio_par start idx w.seg.world) idle
            (λ m e. M.create-nothing (some v) w.stream.audio_par start idx w.seg.world m e f)

  let_go-Takes :
      (w : Work M) (af : ActiveFile M)
      → w.stream.active_file ≡ some af
      → kept (let_go M af w).stream ≡ kept w.stream
  unfolding let_go
  let_go-Takes w af here = omega (
    arith,
    ap in_file here,
    weigh-append f w.stream.released (M.pending af.muxer ++ M.released af.muxer),
    weigh-append f (M.pending af.muxer) (M.released af.muxer),
  )

  pub close_segment-Takes : (min : ℕ) (w : Work M) → Takes 0 w (close_segment M min w)
  unfolding close_segment
  close_segment-Takes min w = go w.stream.active_file refl
    where
      reported : (size : Option ℕ) (af : ActiveFile M) (w : Work M) → Takes 0 w (report M size af w)
      reported none af w = unfold report in omega arith
      reported (some size) af w = unfold report in omega arith

      go :
          (file : Option (ActiveFile M))
          → w.stream.active_file ≡ file
          → Takes 0 w (close_file M min file w)
      go none here = unfold close_file in omega arith
      go (some af) here =
          let closed = let_go M af w in
          let same = let_go-Takes w af here in
          unfold close_file in
          elim (Bool-cases (af.pkt_count == 0)) [
            | inl empty ↦ rw empty (omega arith)
            | inr some_packet ↦ elim (Bool-cases (ltb 0 min && ltb af.duration min)) [
              | inl short ↦ rw (some_packet, short) (omega arith)
              | inr long ↦
                  rw (some_packet, long)
                    (omega (arith, reported (M.write_trailer af.muxer) af closed))
            ]
          ]

  -- A file that is closed is no longer the stream's, and its ring stays.
  pub close_segment-idle :
      (min : ℕ) (w : Work M)
      → ((close_segment M min w).1.stream.active_file ≡ none)
        × ((close_segment M min w).1.stream.ring_buf ≡ w.stream.ring_buf)
  unfolding close_segment
  close_segment-idle min w = go w.stream.active_file refl
    where
      reported :
          (size : Option ℕ) (af : ActiveFile M) (w : Work M)
          → (report M size af w).1.stream ≡ w.stream
      reported none af w = unfold report in refl
      reported (some size) af w = unfold report in refl

      go :
          (file : Option (ActiveFile M))
          → w.stream.active_file ≡ file
          → ((close_file M min file w).1.stream.active_file ≡ none)
            × ((close_file M min file w).1.stream.ring_buf ≡ w.stream.ring_buf)
      go none here = unfold close_file in (here, refl)
      go (some af) here =
          let closed = let_go M af w in
          unfold close_file in
          elim (Bool-cases (af.pkt_count == 0)) [
            | inl empty ↦ rw empty (unfold let_go in (refl, refl))
            | inr some_packet ↦ elim (Bool-cases (ltb 0 min && ltb af.duration min)) [
              | inl short ↦ rw (some_packet, short) (unfold let_go in (refl, refl))
              | inr long ↦
                  rw (some_packet, long)
                    (rw (reported (M.write_trailer af.muxer) af closed)
                      (unfold let_go in (refl, refl)))
            ]
          ]

  pub write_segment-Takes :
      (p : Packet) (w : Work M)
      → refuses (write_segment M p w).0 ≡ false
      → Takes (f p) w (write_segment M p w)
  unfolding write_segment
  write_segment-Takes p w accepted = go w.stream.active_file refl accepted
    where
      put :
          (af : ActiveFile M) (answer : Option M.Muxer)
          → w.stream.active_file ≡ some af
          → M.write_packet p af.muxer ≡ answer
          → refuses (written M p af answer w).0 ≡ false
          → Takes (f p) w (written M p af answer w)
      put af none here e accepted = absurd (unfold written refuses in cc)
      put af (some m) here e accepted =
          unfold written set_active in
          omega (arith, ap in_file here, M.write_packet-keeps p af.muxer m e f)

      go :
          (file : Option (ActiveFile M))
          → w.stream.active_file ≡ file
          → refuses (write_to M p file w).0 ≡ false
          → Takes (f p) w (write_to M p file w)
      go none here accepted = absurd (unfold write_to refuses in cc)
      go (some af) here accepted =
          unfold write_to in put af (M.write_packet p af.muxer) here refl accepted

  pub flush_segment-Takes : (w : Work M) → Takes 0 w (flush_segment M w)
  unfolding flush_segment
  flush_segment-Takes w = go w.stream.active_file refl
    where
      done_with :
          (af : ActiveFile M) (ok : Bool) (m : M.Muxer)
          → w.stream.active_file ≡ some af
          → in_muxer m ≡ in_muxer af.muxer
          → Takes 0 w (flushed M af (ok, m) w)
      done_with af true m here same = unfold flushed set_active in omega (arith, ap in_file here)
      done_with af false m here same = unfold flushed set_active in omega (arith, ap in_file here)

      go :
          (file : Option (ActiveFile M))
          → w.stream.active_file ≡ file
          → Takes 0 w (flush_file M file w)
      go none here = unfold flush_file in omega arith
      go (some af) here =
          unfold flush_file in
          done_with af (M.flush af.muxer).0 (M.flush af.muxer).1 here (M.flush-keeps af.muxer f)

  pub maybe_flush-Takes : (w : Work M) → Takes 0 w (maybe_flush M w)
  unfolding maybe_flush
  maybe_flush-Takes w = elim (Bool-cases (flush_due M w.stream.active_file w.seg)) [
    | inl due ↦ rw due (flush_segment-Takes w)
    | inr early ↦ rw early (omega arith)
  ]

  -- A flush fails with its own error only.
  pub flush_segment-error :
      (w : Work M) → loses (flush_segment M w).0 ≡ false → (flush_segment M w).0 ≡ none
  unfolding flush_segment
  flush_segment-error w spared = go w.stream.active_file spared
    where
      answered :
          (af : ActiveFile M) (ok : Bool) (m : M.Muxer)
          → loses (flushed M af (ok, m) w).0 ≡ false
          → (flushed M af (ok, m) w).0 ≡ none
      answered af true m spared = unfold flushed in refl
      answered af false m spared = absurd (unfold flushed loses in cc)

      go :
          (file : Option (ActiveFile M))
          → loses (flush_file M file w).0 ≡ false
          → (flush_file M file w).0 ≡ none
      go none spared = unfold flush_file in refl
      go (some af) spared =
          unfold flush_file in answered af (M.flush af.muxer).0 (M.flush af.muxer).1 spared

  pub maybe_flush-error :
      (w : Work M) → loses (maybe_flush M w).0 ≡ false → (maybe_flush M w).0 ≡ none
  unfolding maybe_flush
  maybe_flush-error w spared = elim (Bool-cases (flush_due M w.stream.active_file w.seg)) [
    | inl due ↦ rw due (flush_segment-error w (rw due at spared))
    | inr early ↦ rw early refl
  ]

  pub release_all-kept :
      (ps : List Packet) (w : Work M)
      → kept (release_all M ps w).stream ≡ kept w.stream + weigh f ps
  unfolding release_all
  release_all-kept ps w = omega (arith, weigh-append f w.stream.released ps)

  pub release_one-Takes : (p : Packet) (w : Work M) → Takes (f p) w (none, release_all M (p ∷ []) w)
  release_one-Takes p w = unfold weigh in omega (arith, release_all-kept (p ∷ []) w)

  pub recording-kept : (w : Work M) → kept (recording M w).stream ≡ kept w.stream
  unfolding recording set_status
  recording-kept w = elim (Bool-cases w.seg.record_cur_status) [
    | inl on ↦ rw on refl
    | inr off ↦ rw off refl
  ]

  -- Handlers in sequence, where errors of some kinds are left aside.
  module _ (lost : Option Error → Bool) where
    pub proceed-Takes :
        (n : ℕ) (w : Work M) (answer : Option Error × Work M) (more : Handler M)
        → lost none ≡ false
        → lost (proceed M answer more).0 ≡ false
        → (lost answer.0 ≡ false → Takes n w answer)
        → ((w' : Work M) → lost (more w').0 ≡ false → Takes 0 w' (more w'))
        → Takes n w (proceed M answer more)
    unfolding proceed
    proceed-Takes n w (none, w') more fine spared takes keeps =
        omega (arith, takes fine, keeps w' spared)
    proceed-Takes n w (some e, w') more fine spared takes keeps = takes spared

    -- Where the first handler's errors are all among them.
    pub then-Takes :
        (n : ℕ) (w : Work M) (answer : Option Error × Work M) (more : Handler M)
        → (lost answer.0 ≡ false → answer.0 ≡ none)
        → lost (proceed M answer more).0 ≡ false
        → Takes 0 w answer
        → ((w' : Work M) → lost (more w').0 ≡ false → Takes n w' (more w'))
        → Takes n w (proceed M answer more)
    unfolding proceed
    then-Takes n w (none, w') more fine spared keeps takes = omega (arith, takes w' spared, keeps)
    then-Takes n w (some e, w') more fine spared keeps takes = let never = fine spared in absurd cc

    pub proceed_or_release-Takes :
        (ps : List Packet) (n : ℕ) (w : Work M) (answer : Option Error × Work M) (more : Handler M)
        → lost none ≡ false
        → lost (proceed_or_release M ps answer more).0 ≡ false
        → (lost answer.0 ≡ false → Takes n w answer)
        → ((w' : Work M) → lost (more w').0 ≡ false → Takes (weigh f ps) w' (more w'))
        → Takes (n + weigh f ps) w (proceed_or_release M ps answer more)
    unfolding proceed_or_release
    proceed_or_release-Takes ps n w (none, w') more fine spared keeps takes =
        omega (arith, takes w' spared, keeps fine)
    proceed_or_release-Takes ps n w (some e, w') more fine spared keeps takes =
        omega (arith, release_all-kept ps w', keeps spared)

    -- The packet at hand alone.
    pub guarded-Takes :
        (p : Packet) (w : Work M) (answer : Option Error × Work M) (more : Handler M)
        → lost none ≡ false
        → lost (proceed_or_release M (p ∷ []) answer more).0 ≡ false
        → (lost answer.0 ≡ false → Takes 0 w answer)
        → ((w' : Work M) → lost (more w').0 ≡ false → Takes (f p) w' (more w'))
        → Takes (f p) w (proceed_or_release M (p ∷ []) answer more)
    guarded-Takes p w answer more fine spared keeps takes = omega (
      arith,
      alone,
      proceed_or_release-Takes (p ∷ []) 0 w answer more fine spared keeps
          (λ w' spared'. omega (arith, alone, takes w' spared')),
    )
      where
        alone : weigh f (p ∷ []) ≡ f p
        alone = unfold weigh in omega arith
