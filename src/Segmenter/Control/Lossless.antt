-- ===== src/Segmenter/Control/Lossless.antt =====
-- Packets while a segmenter is controlled, and over a whole run of it.
use gomedia.Common.{
  ℕ, ◌+◌, ◌≡◌, refl, ap, inl, inr, arith, Bool-cases, Option, none, some, List, [], ◌∷◌, ◌++◌, ◌==◌,
  weigh, weigh-append, All,
}
use gomedia.Segmenter.{Packet}
use gomedia.Segmenter.Ring.{RingBuffer, clear}
use gomedia.Segmenter.Ring.Sums.{IsCounting, total}
use gomedia.Segmenter.State.{Muxers, ActiveFile, StreamState, Segmenter, Work, FileInfo, Error}
use gomedia.Segmenter.Kept.{kept, in_file, close_segment-Takes, close_segment-idle}
use gomedia.Segmenter.Step.{Archive, find_stream}
use gomedia.Segmenter.Step.Lossless.{archived, in_streams, kept_of}
use gomedia.Segmenter.Control.{
  trigger_stream, trigger, close_stream, cleared, close_next, close_streams, delete_stream, removed,
  remove_stream,
}

-- The streams of an archive with sound rings.
abbrev pub IsSound : (M : Muxers) → List (ℕ × StreamState M) → Type 0
IsSound M streams = All (λ (entry : ℕ × StreamState M). IsCounting entry.1.ring_buf) streams

module _ (M : Muxers) where
  clear-IsCounting : (rb : RingBuffer) → IsCounting (clear rb)
  unfolding clear weigh
  clear-IsCounting rb = (refl, refl)

  pub trigger-IsSound :
      (now : ℕ) (streams : List (ℕ × StreamState M))
      → IsSound M streams
      → IsSound M (trigger M now streams)
  unfolding trigger
  trigger-IsSound now [] sound = tt
  trigger-IsSound now ((key, st) ∷ streams) (here, sound) =
      (one_stream st.active_file here, trigger-IsSound now streams sound)
    where
      one_stream :
          (file : Option (ActiveFile M))
          → IsCounting st.ring_buf
          → IsCounting (trigger_stream M now file st).ring_buf
      one_stream none here = unfold trigger_stream in here
      one_stream (some af) here = unfold trigger_stream in here

  pub close_streams-IsSound :
      (seg : Segmenter M) (streams : List (ℕ × StreamState M))
      → IsSound M streams
      → IsSound M (close_streams M seg streams).1.0
  unfolding close_streams
  close_streams-IsSound seg [] sound = tt
  close_streams-IsSound seg ((key, st) ∷ streams) (here, sound) =
      go (close_stream M seg st) closed sound (close_streams M seg streams)
        (close_streams-IsSound seg streams sound)
    where
      closed : IsCounting (close_stream M seg st).1.stream.ring_buf
      closed =
          unfold close_stream in
          rw (close_segment-idle M (λ _. 0) 0 (record { seg = seg; stream = st; infos = [] })).1
            here

      go :
          (answer : Option Error × Work M)
          → IsCounting answer.1.stream.ring_buf
          → IsSound M streams
          → (rest : Option Error × (List (ℕ × StreamState M) × List FileInfo)) → IsSound M rest.1.0
          → IsSound M (close_next M key answer streams rest).1.0
      go (some e, w) closed sound rest sound' = unfold close_next in (closed, sound)
      go (none, w) closed sound (e, (streams', infos)) sound' =
          unfold close_next cleared in (clear-IsCounting w.stream.ring_buf, sound')

  pub delete_stream-IsSound :
      (url : ℕ) (streams : List (ℕ × StreamState M))
      → IsSound M streams
      → IsSound M (delete_stream M url streams)
  unfolding delete_stream
  delete_stream-IsSound url [] sound = tt
  delete_stream-IsSound url ((key, st) ∷ streams) (here, sound) = elim (Bool-cases (key == url)) [
    | inl found ↦ rw found sound
    | inr other ↦ rw other (here, delete_stream-IsSound url streams sound)
  ]

module _ (M : Muxers) (f : Packet → ℕ) where
  pub trigger-in_streams :
      (now : ℕ) (streams : List (ℕ × StreamState M))
      → in_streams M f (trigger M now streams) ≡ in_streams M f streams
  unfolding trigger in_streams
  trigger-in_streams now [] = refl
  trigger-in_streams now ((key, st) ∷ streams) =
      omega (arith, one_stream st.active_file, trigger-in_streams now streams)
    where
      one_stream :
          (file : Option (ActiveFile M)) → kept M f (trigger_stream M now file st) ≡ kept M f st
      one_stream none = unfold trigger_stream in refl
      one_stream (some af) = unfold trigger_stream in refl

  total-clear : (rb : RingBuffer) → total f (clear rb) ≡ total f rb
  unfolding clear weigh
  total-clear rb = omega (arith, weigh-append f rb.released rb.packets)

  close_stream-kept :
      (seg : Segmenter M) (st : StreamState M)
      → kept M f (close_stream M seg st).1.stream ≡ kept M f st
  unfolding close_stream
  close_stream-kept seg st =
      omega (arith, close_segment-Takes M f 0 (record { seg = seg; stream = st; infos = [] }))

  pub close_streams-in_streams :
      (seg : Segmenter M) (streams : List (ℕ × StreamState M))
      → in_streams M f (close_streams M seg streams).1.0 ≡ in_streams M f streams
  unfolding close_streams in_streams
  close_streams-in_streams seg [] = refl
  close_streams-in_streams seg ((key, st) ∷ streams) =
      ends (close_stream M seg st) (close_streams M seg streams) (close_stream-kept seg st)
        (close_streams-in_streams seg streams)
    where
      ends :
          (answer : Option Error × Work M)
          (rest : Option Error × (List (ℕ × StreamState M) × List FileInfo))
          → kept M f answer.1.stream ≡ kept M f st
          → in_streams M f rest.1.0 ≡ in_streams M f streams
          → in_streams M f (close_next M key answer streams rest).1.0
            ≡ kept M f st + in_streams M f streams
      ends (some e, w) rest same others = unfold close_next in_streams in omega arith
      ends (none, w) (e, (streams', infos)) same others =
          unfold close_next in_streams cleared in omega (arith, total-clear w.stream.ring_buf)

  delete_stream-in_streams :
      (url : ℕ) (streams : List (ℕ × StreamState M))
      → in_streams M f (delete_stream M url streams) + kept_of M f (find_stream M url streams)
        ≡ in_streams M f streams
  unfolding delete_stream in_streams find_stream
  delete_stream-in_streams url [] = refl
  delete_stream-in_streams url ((key, st) ∷ streams) = elim (Bool-cases (key == url)) [
    | inl found ↦ rw found (omega arith)
    | inr other ↦
        rw other (unfold in_streams in omega (arith, delete_stream-in_streams url streams))
  ]

  close_stream-idle :
      (seg : Segmenter M) (st : StreamState M)
      → in_file M f (close_stream M seg st).1.stream.active_file ≡ 0
  unfolding close_stream
  close_stream-idle seg st =
      ap (in_file M f) (close_segment-idle M f 0 (record { seg = seg; stream = st; infos = [] })).0

  pub remove_stream-archived :
      (url : ℕ) (a : Archive M)
      → archived M f (remove_stream M url (find_stream M url a.streams) a) ≡ archived M f a
  remove_stream-archived url a =
      go (find_stream M url a.streams) (delete_stream-in_streams url a.streams)
    where
      go :
          (found : Option (StreamState M))
          → in_streams M f (delete_stream M url a.streams) + kept_of M f found
            ≡ in_streams M f a.streams
          → archived M f (remove_stream M url found a) ≡ archived M f a
      go none sum = unfold remove_stream in refl
      go (some st) sum =
          let w = (close_stream M a.seg st).1 in
          unfold remove_stream removed in
          omega (
            arith,
            sum,
            close_stream-kept a.seg st,
            close_stream-idle a.seg st,
            weigh-append f a.released
                (w.stream.released ++ (w.stream.ring_buf.released ++ w.stream.ring_buf.packets)),
            weigh-append f w.stream.released
                (w.stream.ring_buf.released ++ w.stream.ring_buf.packets),
            weigh-append f w.stream.ring_buf.released w.stream.ring_buf.packets,
          )
