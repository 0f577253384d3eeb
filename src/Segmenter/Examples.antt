-- ===== src/Segmenter/Examples.antt =====
-- The theorems on the segmenter at concrete inputs.
use gomedia.Common.{
  ℕ, ◌+◌, ◌≡◌, refl, arith, true, false, Option, none, some, List, [], ◌∷◌, ◌++◌, ltb, get_elem?,
  Bool-cases, sym, if◌then◌else◌, weigh, weigh-append, inl, inr, ◌⊎◌,
}
use mathlib.Core.Option.{some-injective}
use gomedia.Segmenter.{Packet}
use gomedia.Segmenter.Ring.{
  RingBuffer, ring_max_packets, smaller, at_least_128, new_ring_buffer, ring_hard_cap,
  video_duration, drop_tail, over_bytes, over_duration, over_packets, drop_while, enforce_limits,
  add, is_key, or_next, first_key, trim_round, trim_more, trim_loop, trim, drain,
}
use gomedia.Segmenter.Ring.Limits.{IsLimited, add-IsLimited}
use gomedia.Segmenter.Ring.Trim.{IsTrimmed, starts_with_key, trim-IsTrimmed}
use gomedia.Segmenter.State.{
  Muxers, Segmenter, StreamState, Work, RecordMode, always, event, proceed, release_all,
  proceed_or_release,
}
use gomedia.Segmenter.Kept.{refuses, loses}
use gomedia.Segmenter.Always.{
  file_duration, unflushed, rotate_always, start_always, flush_always, house, handle_always_mode,
}
use gomedia.Segmenter.Step.{
  Archive, find_stream, put_stream, new_stream, close_changed, change_video, change_audio,
  unreported, is_codec, by_mode, see_keyframe, admit, process, stream_or_new, write_back, work_on,
  step_for, step_packet,
}
use gomedia.Segmenter.Files.{
  is_some, has_source, after_one, get_source_index, set_active, opened, open_for, open_new_segment,
  close_file, close_segment, written, write_to, write_segment, flushed, flush_file, flush_segment,
  within, event_flush_interval, flush_due, maybe_flush, set_status, recording,
}
use gomedia.Segmenter.Event.{
  or_zero, find_first_keyframe, start_index, add_trimmed, add_session, rotate_recorded,
  event_is_saved, record_packets, begin_session, record_from, set_ring, start_event_recording,
  handle_event_mode_idle, handle_event_mode,
}
use gomedia.Segmenter.Control.{trigger_stream, trigger, step_event}
use gomedia.Segmenter.Step.Lossless.{archived, IsCountingAll}
use gomedia.Segmenter.Step.Invariant.{step_packet-IsCountingAll}
use gomedia.Segmenter.Runs.{
  step_input, is_control, Runs, stop, receive, control, trigger_event, at_time, Runs-archived,
}

-- A muxer that has two streams: it lists the packets that are pending and those that are released.
abbrev ListMuxer : Type 0
ListMuxer = List Packet × List Packet

abbrev take_packet : Packet → ListMuxer → Option ListMuxer
take_packet p (ps, qs) = if ltb p.stream_index 2 then some (ps ++ (p ∷ []), qs) else none

take_packet-keeps :
    (p : Packet) (m m' : ListMuxer)
    → take_packet p m ≡ some m'
    → (f : Packet → ℕ) → weigh f m'.0 + weigh f m'.1 ≡ weigh f m.0 + weigh f m.1 + f p
take_packet-keeps p (ps, qs) m' e f = elim (Bool-cases (ltb p.stream_index 2)) [
  | inr strange ↦ let e' = (rw strange at e) in absurd cc
  | inl known ↦
      rw (sym (some-injective _ _ (rw known at e)))
        (unfold weigh in omega (arith, weigh-append f ps (p ∷ [])))
]

flush_all-keeps :
    (m : ListMuxer) (f : Packet → ℕ) → weigh f [] + weigh f (m.1 ++ m.0) ≡ weigh f m.0 + weigh f m.1
flush_all-keeps (ps, qs) f = unfold weigh in omega (arith, weigh-append f qs ps)

-- Files that can always be written.
abbrev disk : Muxers
disk = record {
  World = Unit;
  Muxer = ListMuxer;
  create = λ v a start idx w. (some ([], []), tt);
  write_packet = take_packet;
  flush = λ m. (true, ([], m.1 ++ m.0));
  write_trailer = λ m. some 1000;
  pending = λ m. m.0;
  pending_bytes = λ m. weigh (λ p. p.len) m.0;
  released = λ m. m.1;
  create-nothing = λ v a start idx w m e f. rw (sym (some-injective _ _ e)) (unfold weigh in refl);
  write_packet-keeps = take_packet-keeps;
  flush-keeps = λ m f. flush_all-keeps m f;
}

abbrev key_frame : ℕ → Packet
key_frame start = record {
  source_id = 7;
  is_video = true;
  is_audio = false;
  is_key_frame = true;
  len = 900;
  duration = 40000000;
  start_time = start;
  stream_index = 0;
  codec = 5;
}

abbrev sound : ℕ → Packet
sound start = record {
  source_id = 7;
  is_video = false;
  is_audio = true;
  is_key_frame = false;
  len = 90;
  duration = 20000000;
  start_time = start;
  stream_index = 1;
  codec = 6;
}

abbrev settings : RecordMode → Segmenter disk
settings mode = record {
  record_mode = mode;
  target_duration = 10000000000;
  pre_buffer_duration = 5000000000;
  post_event_duration = 60000000000;
  max_event_duration = 60000000000;
  ring_buffer_byte_cap = 1000000;
  muxer_flush_byte_cap = 2000000;
  record_cur_status = false;
  last_event = 0;
  sources = 7 ∷ [];
  others_active = false;
  now = 100;
  statuses = [];
  world = tt;
}

abbrev idle : RecordMode → Archive disk
idle mode = record { seg = settings mode; streams = []; released = []; sent = [] }

-- A key frame goes to the ring, a trigger follows, and the next key frame starts the recording.
abbrev after_one_frame : Archive disk
after_one_frame = (step_packet disk (key_frame 100) (at_time 100 (idle event))).1

abbrev triggered : Archive disk
triggered = (step_input disk trigger_event (at_time 200 after_one_frame)).1

abbrev recording_on : Archive disk
recording_on = (step_packet disk (key_frame 300) (at_time 300 triggered)).1

-- The packets of the first file that is open.
abbrev written_so_far : List (ℕ × StreamState disk) → List Packet
written_so_far [] = []
written_so_far ((url, st) ∷ streams) = elim st.active_file [
  | none ↦ []
  | some af ↦ af.muxer.1 ++ af.muxer.0
]

-- The second key frame starts a file with the first one.
recorded : written_so_far recording_on.streams ≡ key_frame 100 ∷ key_frame 300 ∷ []
unfolding step_packet step_for has_source process change_video change_audio unreported is_codec
    proceed_or_release proceed close_changed close_segment close_file admit see_keyframe by_mode
    handle_event_mode handle_event_mode_idle is_some is_key video_duration add_trimmed add trim
    trim_loop trim_round trim_more enforce_limits drop_while drop_tail over_bytes over_duration
    over_packets work_on stream_or_new find_stream put_stream new_stream new_ring_buffer
    ring_hard_cap ring_max_packets smaller at_least_128 write_back at_time step_input step_event
    trigger trigger_stream set_ring start_event_recording drain start_index find_first_keyframe
    or_zero first_key or_next record_from release_all open_new_segment open_for opened
    get_source_index after_one set_active begin_session recording set_status record_packets
    rotate_recorded file_duration write_segment write_to written add_session maybe_flush flush_due
    event_flush_interval within flush_segment flush_file flushed event_is_saved weigh
recorded = refl

no_loss :
    (loses (step_packet disk (key_frame 100) (at_time 100 (idle event))).0 ≡ false)
    × (loses (step_packet disk (key_frame 300) (at_time 300 triggered)).0 ≡ false)
unfolding loses step_packet step_for has_source process change_video change_audio unreported
    is_codec proceed_or_release proceed close_changed close_segment close_file admit see_keyframe
    by_mode handle_event_mode handle_event_mode_idle is_some is_key video_duration add_trimmed add
    trim trim_loop trim_round trim_more enforce_limits drop_while drop_tail over_bytes over_duration
    over_packets work_on stream_or_new find_stream put_stream new_stream new_ring_buffer
    ring_hard_cap ring_max_packets smaller at_least_128 write_back at_time step_input step_event
    trigger trigger_stream set_ring start_event_recording drain start_index find_first_keyframe
    or_zero first_key or_next record_from release_all open_new_segment open_for opened
    get_source_index after_one set_active begin_session recording set_status record_packets
    rotate_recorded file_duration write_segment write_to written add_session maybe_flush flush_due
    event_flush_interval within flush_segment flush_file flushed event_is_saved weigh
no_loss = (refl, refl)

run : Runs disk (idle event) (key_frame 100 ∷ key_frame 300 ∷ []) recording_on
unfolding is_control
run =
    receive 100 (key_frame 100) no_loss.0
      (control 200 trigger_event refl (receive 300 (key_frame 300) no_loss.1 stop))

Runs-archived_example :
    IsCountingAll disk recording_on
    × ((f : Packet → ℕ)
        → archived disk f recording_on
          ≡ archived disk f (idle event) + weigh f (key_frame 100 ∷ key_frame 300 ∷ []))
Runs-archived_example = Runs-archived disk run tt

step_packet-IsCountingAll_example : IsCountingAll disk after_one_frame
unfolding at_time
step_packet-IsCountingAll_example =
    step_packet-IsCountingAll disk (key_frame 100) (at_time 100 (idle event)) tt

-- A stream that has no file yet.
abbrev idle_stream : Work disk
idle_stream = record {
  seg = settings always;
  stream = record (new_stream disk 7 (settings always)) { video_par = some 5 };
  infos = [];
}

taken : refuses (handle_always_mode disk (key_frame 100) idle_stream).0 ≡ false
unfolding refuses handle_always_mode rotate_always start_always house flush_always unflushed
    step_packet step_for has_source process change_video change_audio unreported is_codec
    proceed_or_release proceed close_changed close_segment close_file admit see_keyframe by_mode
    handle_event_mode handle_event_mode_idle is_some is_key video_duration add_trimmed add trim
    trim_loop trim_round trim_more enforce_limits drop_while drop_tail over_bytes over_duration
    over_packets work_on stream_or_new find_stream put_stream new_stream new_ring_buffer
    ring_hard_cap ring_max_packets smaller at_least_128 write_back at_time step_input step_event
    trigger trigger_stream set_ring start_event_recording drain start_index find_first_keyframe
    or_zero first_key or_next record_from release_all open_new_segment open_for opened
    get_source_index after_one set_active begin_session recording set_status record_packets
    rotate_recorded file_duration write_segment write_to written add_session maybe_flush flush_due
    event_flush_interval within flush_segment flush_file flushed event_is_saved weigh
taken = refl

-- A ring for a thousand bytes, which a second key frame is too much for.
abbrev full_ring : RingBuffer
full_ring = record {
  packets = key_frame 100 ∷ sound 110 ∷ [];
  duration = 40000000;
  bytes = 990;
  max_dur = 30000000;
  hard_cap = 60000000;
  max_packets = 128;
  max_bytes = 1000;
  released = [];
}

add-IsLimited_example :
    IsLimited (add (key_frame 200) full_ring)
    × (get_elem? (add (key_frame 200) full_ring).packets 0
        ≡ get_elem? (full_ring.packets ++ (key_frame 200 ∷ [])) 0)
add-IsLimited_example = add-IsLimited (key_frame 200) full_ring

-- A ring that can be cut at its second key frame.
abbrev long_ring : RingBuffer
long_ring = record full_ring { packets = key_frame 100 ∷ sound 110 ∷ key_frame 200 ∷ [] }

trim-IsTrimmed_example :
    IsTrimmed (trim long_ring)
    × ((starts_with_key (trim long_ring).packets ≡ true)
        ⊎ (get_elem? (trim long_ring).packets 0 ≡ get_elem? long_ring.packets 0))
trim-IsTrimmed_example = trim-IsTrimmed long_ring
