-- ===== src/Rtp/H264/Fragments.antt =====
-- The FU-A fragments of a NAL unit, sent and read back.
use gomedia.Common.{
  ℕ, zero, suc, ◌+◌, ◌-◌, ◌^◌, ◌<◌, ◌≡◌, inl, inr, refl, ◌∙◌, arith, Bool, true, false, ◌&&◌,
  Option, none, some, List, [], ◌∷◌, ◌++◌, length, ltb, lt→ltb, u16, leb, All, IsByte, Bool-cases,
}
use gomedia.Common.Run.{Run, ret, loop, loop-next, loop-done, Round, next, done}
use gomedia.Pio.{Bytes}
use gomedia.Rtp.Packet.{BaseMuxer, rtp_frame, write_rtp}
use gomedia.Rtp.H264.Mux.{Fragmenter, fragment, frag_size, is_end, fragment_round, write_fragments}
use gomedia.Rtp.H264.Demux
use gomedia.Rtp.H264.Demux.{H264Demuxer, Packet, Status, fine, nalu_type}
use gomedia.Rtp.H264.Receive.{Ready}
use mathlib.Core.List.{flatten, append_assoc}
use gomedia.Rtp.H264.Reads.{SendsData, reads, packet_of}
use gomedia.Rtp.H264.Pieces.{read_inner, read_last}

pub flatten_first :
    (x : Bytes) (xs : List Bytes) (tail : Bytes)
    → flatten (x ∷ xs) ++ tail ≡ x ++ (flatten xs ++ tail)
unfolding flatten
flatten_first x xs tail = append_assoc x (flatten xs) tail

module _ {Codec : Type 0} (new_codec : Bytes → Bytes → Option Codec) where
  abbrev pub State : Type 0
  State = H264Demuxer Codec

  -- `k` reads return the packet and nothing else, and take all the bytes before `tail`.
  abbrev pub Delivers : ℕ → State → Packet → Bytes → Type 0
  Delivers k d p tail =
      (d' : State) × (reads new_codec k d ≡ ret (p ∷ [], fine, d'))
      × (d'.packets ≡ [])
      × (d'.base.unread ≡ tail)

  reads_on :
      (k : ℕ) (d d₁ : State) (p : Packet) (tail : Bytes)
      → Demux.read_h264 new_codec d ≡ ret (none, fine, d₁)
      → Delivers k d₁ p tail
      → Delivers (suc k) d p tail
  reads_on k d d₁ p tail e (d', r, empty, unread) =
      (d', (unfold reads in rw e (rw r refl)), empty, unread)

  pub reads_packet :
      (d d₁ : State) (p : Packet) (tail : Bytes)
      → Demux.read_h264 new_codec d ≡ ret (some p, fine, d₁)
      → d₁.packets ≡ []
      → d₁.base.unread ≡ tail
      → Delivers 1 d p tail
  reads_packet d d₁ p tail e empty unread = (d₁, (unfold reads in rw e refl), empty, unread)

  -- The frames of one unit: they go out, and a demuxer that is ready for them delivers it.
  abbrev pub Carries : Run (Option BaseMuxer) → BaseMuxer → (State → Type 0) → Packet → Type 0
  Carries sending m ready p =
      (m' : BaseMuxer) × (frames : List Bytes) × (sending ≡ ret (some m'))
      × (m'.sent ≡ m.sent ++ frames)
      × ((tail : Bytes) (d : State)
          → ready d
          → d.packets ≡ []
          → d.base.unread ≡ flatten frames ++ tail
          → Delivers (length frames) d p tail)

  module _ (ts hdr : ℕ) (payload : Bytes) (max_frag : ℕ) (is_last : Bool)
      (bytes : All IsByte (hdr ∷ payload))
      (slice_type : leb 1 (nalu_type hdr) && leb (nalu_type hdr) 5 ≡ true)
      (some_room : 0 < max_frag) (fits : max_frag + 14 < 2 ^ 16) where
    abbrev round : Fragmenter → Run (Round Fragmenter (Option BaseMuxer))
    round = fragment_round (λ _. true) ts hdr payload max_frag is_last

    module _ (offset : ℕ) (m : BaseMuxer) (data_packets : SendsData m)
        (inside : offset < length payload) where
      abbrev end : Bool
      end = is_end payload max_frag offset

      abbrev marker : Bool
      marker = is_last && end

      abbrev sent_frame : Bytes
      sent_frame = rtp_frame m (fragment hdr payload max_frag offset) ts marker

      -- The muxer once the fragment is out, and the offset of the next one.
      abbrev after : BaseMuxer
      after = record m { sequence = u16 (m.sequence + 1); sent = m.sent ++ (sent_frame ∷ []) }

      abbrev next_offset : ℕ
      next_offset = offset + frag_size payload max_frag offset

      sends :
          round (record { offset = offset; mux = m })
          ≡ ret (next (record { offset = next_offset; mux = after }))
      unfolding fragment_round write_rtp
      sends = rw (lt→ltb offset (length payload) inside) refl

      last_sent : end ≡ true → next_offset ≡ length payload
      unfolding is_end frag_size
      last_sent h = ground arith

      more_to_send : end ≡ false → (next_offset < length payload) × (offset < next_offset)
      unfolding is_end frag_size
      more_to_send h = ground arith

      stops :
          end ≡ true
          → round (record { offset = next_offset; mux = after }) ≡ ret (done (some after))
      unfolding fragment_round
      stops h =
          let e : ltb next_offset (length payload) ≡ false = ground (arith, last_sent h) in
          rw e refl

      last-Carries :
          (fuel : ℕ)
          → 0 < fuel
          → end ≡ true
          → Carries
              (loop round (suc fuel) (record { offset = offset; mux = m }))
              m
              (Ready new_codec hdr payload max_frag offset)
              (packet_of m ts hdr payload)
      unfolding flatten
      last-Carries zero h at_end = absurd (omega arith)
      last-Carries (suc fuel) h at_end = (
        after,
        sent_frame ∷ [],
        loop-next round (suc fuel) _ sends ∙ loop-done round fuel _ (stops at_end),
        refl,
        λ tail d ready empty unread.
            reads_packet d _ (packet_of m ts hdr payload) tail
              (read_last new_codec ts hdr payload max_frag bytes slice_type fits m marker tail
                offset d (data_packets marker) ready empty
                (unread ∙ flatten_first sent_frame [] tail) at_end)
              refl refl,
      )

      inner-Carries :
          (fuel : ℕ)
          → end ≡ false
          → Carries
              (loop round fuel (record { offset = next_offset; mux = after }))
              after
              (Ready new_codec hdr payload max_frag next_offset)
              (packet_of m ts hdr payload)
          → Carries
              (loop round (suc fuel) (record { offset = offset; mux = m }))
              m
              (Ready new_codec hdr payload max_frag offset)
              (packet_of m ts hdr payload)
      inner-Carries fuel h (m', frames, e, sent, delivers) = (
        m',
        sent_frame ∷ frames,
        loop-next round fuel _ sends ∙ e,
        sent ∙ append_assoc m.sent (sent_frame ∷ []) frames,
        λ tail d ready empty unread.
            reads_on (length frames) d _ (packet_of m ts hdr payload) tail
              (read_inner new_codec ts hdr payload max_frag bytes slice_type fits m marker
                (flatten frames ++ tail) offset d (data_packets marker) ready empty
                (unread ∙ flatten_first sent_frame frames tail) h)
              (delivers tail _ (inr (refl, refl)) empty refl),
      )

    fragments_carry :
        (fuel offset : ℕ) (m : BaseMuxer)
        → SendsData m
        → offset < length payload
        → length payload - offset < fuel
        → Carries
            (loop round fuel (record { offset = offset; mux = m }))
            m
            (Ready new_codec hdr payload max_frag offset)
            (packet_of m ts hdr payload)
    fragments_carry zero offset m data_packets inside enough = absurd (omega arith)
    fragments_carry (suc fuel) offset m data_packets inside enough =
        elim (Bool-cases (is_end payload max_frag offset)) [
          | inl h ↦ last-Carries offset m data_packets inside fuel (omega arith) h
          | inr h ↦
              let (more, on) = more_to_send offset m data_packets inside h in
              inner-Carries offset m data_packets inside fuel h (
                fragments_carry fuel (offset + frag_size payload max_frag offset)
                  (after offset m data_packets inside) data_packets more (omega arith))
        ]

    -- The whole of a unit that is too long for one packet.
    pub write_fragments_carry :
        (m : BaseMuxer)
        → SendsData m
        → 0 < length payload
        → Carries
            (write_fragments (λ _. true) ts hdr payload max_frag is_last m)
            m
            (λ _. Unit)
            (packet_of m ts hdr payload)
    unfolding write_fragments
    write_fragments_carry m data_packets h =
        let (m', frames, e, sent, delivers) =
          fragments_carry (length payload + 1) 0 m data_packets h (omega arith) in
        (m', frames, e, sent, λ tail d _. delivers tail d (inl refl))
