-- ===== src/Segmenter/Runs.antt =====
-- The runs of a segmenter: sequences of steps, whichever cases the select takes.
use gomedia.Common.{
  ℕ, ◌+◌, ◌≡◌, refl, inl, inr, arith, Bool, true, false, Bool-cases, Option, none, some, List, [],
  ◌∷◌, weigh, All,
}
use gomedia.Segmenter.{Packet}
use gomedia.Segmenter.Ring.Sums.{IsCounting}
use gomedia.Segmenter.State.{Muxers, StreamState, FileInfo, Error, RecordMode}
use gomedia.Segmenter.Kept.{loses}
use gomedia.Segmenter.Step.{Archive, find_stream, step_packet}
use gomedia.Segmenter.Step.Lossless.{archived, in_streams, IsCountingAll, step_packet-archived}
use gomedia.Segmenter.Step.Invariant.{step_packet-IsCountingAll}
use gomedia.Segmenter.Control.{
  same_mode, step_event, set_streams, close_streams, changed_mode, step_record_mode,
  step_add_source, remove_stream, removed, step_remove_source,
}
use gomedia.Segmenter.Control.Lossless.{
  trigger-IsSound, trigger-in_streams, close_streams-IsSound, close_streams-in_streams,
  delete_stream-IsSound, remove_stream-archived,
}

-- What a step receives.
pub data Input : Type 0 where
  packet : Packet → Input
  trigger_event : Input
  new_mode : RecordMode → Input
  new_source : ℕ → Input
  old_source : ℕ → Input

-- The time at which a step runs.
unfoldable pub at_time : {M : Muxers} → ℕ → Archive M → Archive M
at_time now a = record a { seg = record (a.seg) { now = now } }

unfoldable pub step_input : (M : Muxers) → Input → Archive M → Option Error × Archive M
step_input M (packet p) a = step_packet M p a
step_input M trigger_event a = (none, step_event M a)
step_input M (new_mode mode) a = step_record_mode M mode a
step_input M (new_source url) a = (none, step_add_source M url a)
step_input M (old_source url) a = (none, step_remove_source M url a)

unfoldable pub is_control : Input → Bool
is_control (packet p) = false
is_control _ = true

-- A run ends in `b` with the packets it received. Its steps may fail, but not in the ways that leave
-- packets behind.
pub data Runs (M : Muxers) : Archive M → List Packet → Archive M → Type 0 where
  stop : {a : Archive M} → Runs M a [] a
  receive :
      {a b : Archive M} {ps : List Packet} (now : ℕ) (p : Packet)
      → loses (step_packet M p (at_time now a)).0 ≡ false
      → Runs M (step_packet M p (at_time now a)).1 ps b
      → Runs M a (p ∷ ps) b
  control :
      {a b : Archive M} {ps : List Packet} (now : ℕ) (input : Input)
      → is_control input ≡ true
      → Runs M (step_input M input (at_time now a)).1 ps b
      → Runs M a ps b

module _ (M : Muxers) where
  step_remove_source-IsCountingAll :
      (url : ℕ) (a : Archive M) → IsCountingAll M a → IsCountingAll M (step_remove_source M url a)
  unfolding step_remove_source
  step_remove_source-IsCountingAll url a counting = go (find_stream M url a.streams)
    where
      go : (found : Option (StreamState M)) → IsCountingAll M (remove_stream M url found a)
      go none = unfold remove_stream in counting
      go (some st) = unfold remove_stream removed in delete_stream-IsSound M url a.streams counting

  step_record_mode-IsCountingAll :
      (mode : RecordMode) (a : Archive M)
      → IsCountingAll M a
      → IsCountingAll M (step_record_mode M mode a).1
  unfolding step_record_mode
  step_record_mode-IsCountingAll mode a counting =
      elim (Bool-cases (same_mode mode a.seg.record_mode)) [
        | inl same ↦ rw same counting
        | inr other ↦ rw other (
            go (close_streams M a.seg a.streams) (close_streams-IsSound M a.seg a.streams counting))
      ]
    where
      go :
          (closed : Option Error × (List (ℕ × StreamState M) × List FileInfo))
          → All (λ (entry : ℕ × StreamState M). IsCounting entry.1.ring_buf) closed.1.0
          → IsCountingAll M (changed_mode M mode closed a).1
      go (none, (streams, infos)) sound = unfold changed_mode set_streams in sound
      go (some e, (streams, infos)) sound = unfold changed_mode set_streams in sound

  step_record_mode-archived :
      (f : Packet → ℕ) (mode : RecordMode) (a : Archive M)
      → archived M f (step_record_mode M mode a).1 ≡ archived M f a
  unfolding step_record_mode
  step_record_mode-archived f mode a = elim (Bool-cases (same_mode mode a.seg.record_mode)) [
    | inl same ↦ rw same refl
    | inr other ↦
        rw other
          (go (close_streams M a.seg a.streams) (close_streams-in_streams M f a.seg a.streams))
  ]
    where
      go :
          (closed : Option Error × (List (ℕ × StreamState M) × List FileInfo))
          → in_streams M f closed.1.0 ≡ in_streams M f a.streams
          → archived M f (changed_mode M mode closed a).1 ≡ archived M f a
      go (none, (streams, infos)) sum = unfold changed_mode set_streams in omega (arith, sum)
      go (some e, (streams, infos)) sum = unfold changed_mode set_streams in omega (arith, sum)

  control_lem :
      (input : Input) (a : Archive M)
      → is_control input ≡ true
      → IsCountingAll M a
      → IsCountingAll M (step_input M input a).1
        × ((f : Packet → ℕ) → archived M f (step_input M input a).1 ≡ archived M f a)
  unfolding step_input is_control
  control_lem (packet p) a is_one counting = absurd cc
  control_lem trigger_event a is_one counting =
      unfold step_event in
      (
        trigger-IsSound M a.seg.now a.streams counting,
        λ f. omega (arith, trigger-in_streams M f a.seg.now a.streams),
      )
  control_lem (new_mode mode) a is_one counting =
      (step_record_mode-IsCountingAll mode a counting, λ f. step_record_mode-archived f mode a)
  control_lem (new_source url) a is_one counting = unfold step_add_source in (counting, λ f. refl)
  control_lem (old_source url) a is_one counting = (
    step_remove_source-IsCountingAll url a counting,
    λ f. unfold step_remove_source in remove_stream-archived M f url a,
  )

  at_time_lem :
      (now : ℕ) (a : Archive M)
      → IsCountingAll M a
      → IsCountingAll M (at_time now a)
        × ((f : Packet → ℕ) → archived M f (at_time now a) ≡ archived M f a)
  unfolding at_time
  at_time_lem now a counting = (counting, λ f. refl)

  received :
      (f : Packet → ℕ) (p : Packet) (ps : List Packet) {x y z t : ℕ}
      → x ≡ y + weigh f ps
      → y ≡ z + f p
      → z ≡ t
      → x ≡ t + weigh f (p ∷ ps)
  received f p ps rest first same = unfold weigh in omega arith

  -- Over a run, the segmenter has the packets that it had and those that it received, each as often
  -- as it came in: in a file, in a ring, or released. And the sums of every ring are right at the end.
  pub Runs-archived :
      {a b : Archive M} {ps : List Packet}
      → Runs M a ps b
      → IsCountingAll M a
      → IsCountingAll M b × ((f : Packet → ℕ) → archived M f b ≡ archived M f a + weigh f ps)
  Runs-archived stop counting = (counting, λ f. unfold weigh in omega arith)
  Runs-archived {a} {b} (receive {ps = ps} now p spared run) counting =
      let ready = at_time_lem now a counting in
      let (counting', sums) =
        Runs-archived run (step_packet-IsCountingAll M p (at_time now a) ready.0) in
      (
        counting',
        λ f.
            received f p ps (sums f) (step_packet-archived M f p (at_time now a) ready.0 spared)
              (ready.1 f),
      )
  Runs-archived {a} (control now input is_one run) counting =
      let ready = at_time_lem now a counting in
      let (counting1, same) = control_lem input (at_time now a) is_one ready.0 in
      let (counting', sums) = Runs-archived run counting1 in
      (counting', λ f. omega (arith, sums f, same f, ready.1 f))
