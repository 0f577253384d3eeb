-- ===== src/Segmenter/Files.antt =====
-- The files of a stream, in writer/segmenter/segmenter.go: openNewSegment, closeSegment,
-- writePacket and the flushes.
use gomedia.Common.{
  ℕ, suc, ◌+◌, ◌-◌, ◌/◌, Bool, true, false, ◌&&◌, not, Option, none, some, List, [], ◌∷◌, ◌++◌, ltb,
  ◌==◌, if◌then◌else◌,
}
use gomedia.Segmenter.{Packet}
use gomedia.Segmenter.Ring.{video_duration}
use gomedia.Segmenter.State.{
  Muxers, ActiveFile, Segmenter, Work, Handler, Error, nil_video_par, no_such_source, open_failed,
  trailer_failed, no_active_segment, packet_refused, flush_failed,
}

unfoldable pub is_some {ℓ} : {A : Type ℓ} → Option A → Bool
is_some none = false
is_some (some a) = true

-- hasSource, and getSourceIndex with `none` for -1
unfoldable pub has_source : ℕ → List ℕ → Bool
has_source url [] = false
has_source url (src ∷ sources) =
    let rest = has_source url sources in if src == url then true else rest

unfoldable pub after_one : Option ℕ → Option ℕ
after_one none = none
after_one (some i) = some (suc i)

unfoldable pub get_source_index : ℕ → List ℕ → Option ℕ
get_source_index url [] = none
get_source_index url (src ∷ sources) =
    let rest = get_source_index url sources in if src == url then some 0 else after_one rest

module _ (M : Muxers) where
  unfoldable pub set_active : Option (ActiveFile M) → Work M → Work M
  set_active file w = record w { stream = record (w.stream) { active_file = file } }

  -- openNewSegment
  unfoldable pub opened : ℕ → Work M → Option (M.Muxer) × M.World → Option Error × Work M
  opened start w (none, world) =
      (some open_failed, record w { seg = record (w.seg) { world = world } })
  opened start w (some m, world) = (
    none,
    set_active
        (some
          (record { muxer = m; start_time = start; duration = 0; last_flush = 0; pkt_count = 0 }))
        (record w { seg = record (w.seg) { world = world } }),
  )

  unfoldable pub open_for : Option ℕ → Option ℕ → ℕ → Handler M
  open_for none idx start w = (some nil_video_par, w)
  open_for (some v) none start w = (some no_such_source, w)
  open_for (some v) (some idx) start w =
      opened start w (M.create (some v) w.stream.audio_par start idx w.seg.world)

  unfoldable pub open_new_segment : ℕ → Handler M
  open_new_segment start w =
      open_for w.stream.video_par (get_source_index w.stream.source_id w.seg.sources) start w

  -- closeSegment: the muxer releases what it holds whether the file is kept or removed.
  unfoldable pub let_go : ActiveFile M → Work M → Work M
  let_go af w = record w {
    stream = record (w.stream) {
      active_file = none;
      released = w.stream.released ++ (M.pending af.muxer ++ M.released af.muxer);
    };
  }

  unfoldable pub report : Option ℕ → ActiveFile M → Handler M
  report none af w = (some trailer_failed, w)
  report (some size) af w = (
    none,
    record w {
      infos =
          w.infos
          ++ (record {
            start = af.start_time;
            stop = af.start_time + af.duration;
            size = size;
            url = w.stream.source_id;
          }
              ∷ []);
    },
  )

  unfoldable pub close_file : ℕ → Option (ActiveFile M) → Handler M
  close_file min_duration none w = (none, w)
  close_file min_duration (some af) w =
      if af.pkt_count == 0
      then (none, let_go af w)
      else if ltb 0 min_duration && ltb af.duration min_duration
      then (none, let_go af w)
      else report (M.write_trailer af.muxer) af (let_go af w)

  unfoldable pub close_segment : ℕ → Handler M
  close_segment min_duration w = close_file min_duration w.stream.active_file w

  -- writePacket
  unfoldable pub written : Packet → ActiveFile M → Option (M.Muxer) → Handler M
  written p af none w = (some packet_refused, w)
  written p af (some m) w = (
    none,
    set_active
        (some (record af {
          muxer = m;
          pkt_count = suc af.pkt_count;
          duration = af.duration + video_duration p;
        }))
        w,
  )

  unfoldable pub write_to : Packet → Option (ActiveFile M) → Handler M
  write_to p none w = (some no_active_segment, w)
  write_to p (some af) w = written p af (M.write_packet p af.muxer) w

  unfoldable pub write_segment : Packet → Handler M
  write_segment p w = write_to p w.stream.active_file w

  -- A flush that notes how far the file is on disk: flushEventSegment.
  unfoldable pub flushed : ActiveFile M → Bool × M.Muxer → Handler M
  flushed af (true, m) w =
      (none, set_active (some (record af { muxer = m; last_flush = af.duration })) w)
  flushed af (false, m) w = (some flush_failed, set_active (some (record af { muxer = m })) w)

  unfoldable pub flush_file : Option (ActiveFile M) → Handler M
  flush_file none w = (none, w)
  flush_file (some af) w = flushed af (M.flush af.muxer) w

  unfoldable pub flush_segment : Handler M
  flush_segment w = flush_file w.stream.active_file w

  -- eventFlushInterval and maybeFlushEventSegment
  unfoldable pub within : ℕ → ℕ → ℕ → ℕ
  within low high n = if ltb n low then low else if ltb high n then high else n

  unfoldable pub event_flush_interval : Segmenter M → ℕ
  event_flush_interval seg = within 2000000000 8000000000 (seg.pre_buffer_duration / 4)

  unfoldable pub flush_due : Option (ActiveFile M) → Segmenter M → Bool
  flush_due none seg = false
  flush_due (some af) seg = not (
      ltb (af.duration - af.last_flush) (event_flush_interval seg)
      && ltb (M.pending_bytes af.muxer) seg.muxer_flush_byte_cap)

  unfoldable pub maybe_flush : Handler M
  maybe_flush w = if flush_due w.stream.active_file w.seg then flush_segment w else (none, w)

  -- recordCurStatus and what sendRecordStatus sends
  unfoldable pub set_status : Bool → Work M → Work M
  set_status status w = record w {
    seg = record (w.seg) { record_cur_status = status; statuses = w.seg.statuses ++ (status ∷ []) };
  }

  unfoldable pub recording : Work M → Work M
  recording w = if w.seg.record_cur_status then w else set_status true w
