-- ===== src/Segmenter/Always.antt =====
-- handleAlwaysMode of writer/segmenter/segmenter.go.
pub mod Lossless
use gomedia.Common.{
  ℕ, ◌+◌, ◌-◌, Bool, ◌&&◌, not, Option, none, some, List, [], ◌∷◌, leb, if◌then◌else◌,
}
use gomedia.Segmenter.{Packet}
use gomedia.Segmenter.Ring.{is_key}
use gomedia.Segmenter.State.{
  Muxers, ActiveFile, StreamState, Segmenter, Work, Handler, Error, proceed, release_all,
  proceed_or_release,
}
use gomedia.Segmenter.Files.{
  is_some, open_new_segment, close_segment, write_segment, flush_segment, recording,
}

module _ (M : Muxers) where
  -- activeFile.duration, and 0 where there is no file, which every use rules out.
  unfoldable pub file_duration : Option (ActiveFile M) → ℕ
  file_duration none = 0
  file_duration (some af) = af.duration

  unfoldable pub unflushed : Option (ActiveFile M) → ℕ
  unflushed none = 0
  unflushed (some af) = af.duration - af.last_flush

  -- The file is closed at a key frame past the target duration,
  unfoldable pub rotate_always : Packet → Handler M
  rotate_always p w =
      if is_key p
        && is_some w.stream.active_file
        && leb w.seg.target_duration (file_duration w.stream.active_file)
      then close_segment M 0 w
      else (none, w)

  -- a new one is opened at a key frame,
  unfoldable pub start_always : Packet → Handler M
  start_always p w =
      if not (is_some w.stream.active_file) && is_key p
      then proceed M (open_new_segment M p.start_time w) (λ w'. (none, recording M w'))
      else (none, w)

  -- and a file that has not been flushed for a second more than that is flushed.
  unfoldable pub flush_always : Handler M
  flush_always w =
      if leb (w.seg.target_duration + 1000000000) (unflushed w.stream.active_file)
      then flush_segment M w
      else (none, w)

  unfoldable pub house : Packet → Option (ActiveFile M) → Handler M
  house p none w = (none, release_all M (p ∷ []) w)
  house p (some af) w = proceed M (write_segment M p w) flush_always

  unfoldable pub handle_always_mode : Packet → Handler M
  handle_always_mode p w = proceed_or_release M (p ∷ []) (rotate_always p w) (λ w1.
      proceed_or_release M (p ∷ []) (start_always p w1) (λ w2. house p w2.stream.active_file w2))
