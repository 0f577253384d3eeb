-- ===== src/Rtp/H264/Receive.antt =====
-- The demuxer on one payload of the muxer.
use gomedia.Common.{
  ℕ, zero, suc, ◌+◌, ◌^◌, ◌<◌, ◌≡◌, ◌≢◌, ◌⊎◌, inl, inr, refl, ap, ◌∙◌, arith, Bool, true, false,
  ◌&&◌, ◌||◌, not, Option, some, ◌∷◌, ◌++◌, length, get_elem?, take, drop, leb, ◌==◌, All, IsByte,
  length-append, get_elem?-append, get_elem?-append_next, suc-ne-zero, take-add, take-length,
}
use gomedia.Common.Run.{Run, ret, panic, stuck, ◌>>=◌, slice, slice_suffix}
use gomedia.Pio.{Bytes}
use gomedia.Nal.Raw.{split_nalus-raw}
use gomedia.Rtp.Packet.{BaseDemuxer, ok}
use gomedia.Rtp.H264.Mux.{fu_indicator, fu_header, frag_size, is_end}
use gomedia.Rtp.H264.Demux
use gomedia.Rtp.H264.Demux.{H264Demuxer, Packet, Status, fine, nalu_type}
use native.Mathlib.Decide.{ℕ_discrete}
use gomedia.Rtp.H264.Header.{IsFragmentHeader, fragment_header}

-- A base demuxer whose payload begins behind `front`.
abbrev pub holding : Bytes → Bytes → Bytes → ℕ → BaseDemuxer
holding front payload unread timestamp = record {
  unread = unread;
  payload = front ++ payload;
  offset = length front;
  end = length (front ++ payload);
  timestamp = timestamp;
}

nonzero : (x : ℕ) → leb 1 (nalu_type x) && leb (nalu_type x) 5 ≡ true → 0 < x
unfolding nalu_type
nonzero zero h = cc
nonzero (suc x) h = omega arith

module _ {Codec : Type 0} (new_codec : Bytes → Bytes → Option Codec) where
  abbrev State : Type 0
  State = H264Demuxer Codec

  or_return_fine :
      (r : Run (Status × State)) → (r >>= Demux.or_return new_codec (λ d. ret (fine, d))) ≡ r
  or_return_fine (ret (fine, d)) = refl
  or_return_fine (ret (Status.codec_error, d)) = refl
  or_return_fine (ret (Status.fu_too_short, d)) = refl
  or_return_fine (ret (Status.empty_nal, d)) = refl
  or_return_fine (ret (Status.read_error e, d)) = refl
  or_return_fine panic = refl
  or_return_fine stuck = refl

  module _ (front unread : Bytes) (timestamp : ℕ) (d : State) where
    -- A payload with a header byte is one unit for processNALUnit.
    pub units_raw :
        (x : ℕ) (t : Bytes)
        → 0 < x
        → All IsByte (x ∷ t)
        → length (x ∷ t) < 2 ^ 24
        → let b = holding front (x ∷ t) unread timestamp in
          Demux.units_of_payload new_codec (ok, b) d
          ≡ Demux.unit_of_type new_codec (nalu_type x) (x ∷ t) (record d { base = b })
    units_raw x t h bytes fits =
        (unfold Demux.units_of_payload Demux.process_nals Demux.process_nal_unit in
          rw (slice_suffix front (x ∷ t)) (
            rw (split_nalus-raw x t h bytes fits) (rw (suc-ne-zero (length t)) (or_return_fine _))))

    -- A slice of a picture that came whole becomes a packet.
    pub whole_slice :
        (x : ℕ) (t : Bytes)
        → All IsByte (x ∷ t)
        → length (x ∷ t) < 2 ^ 24
        → leb 1 (nalu_type x) && leb (nalu_type x) 5 ≡ true
        → let b = holding front (x ∷ t) unread timestamp in
          Demux.units_of_payload new_codec (ok, b) d
          ≡ ret
              (fine, Demux.add_packet new_codec (x ∷ t) (nalu_type x == 5) (record d { base = b }))
    whole_slice x t bytes fits slice_type =
        units_raw x t (nonzero x slice_type) bytes fits
        ∙ (unfold Demux.unit_of_type in rw slice_type)

    -- A FU-A payload is handed to processLFUA, which reads its two header bytes.
    pub fragment_unit :
        (indicator header : ℕ) (part : Bytes)
        → nalu_type indicator ≡ 28
        → 0 < indicator
        → All IsByte (indicator ∷ header ∷ part)
        → length (indicator ∷ header ∷ part) < 2 ^ 24
        → let b = holding front (indicator ∷ header ∷ part) unread timestamp in
          Demux.units_of_payload new_codec (ok, b) d
          ≡ Demux.append_fragment new_codec header
              (Demux.start_fragment new_codec indicator header (record d { base = b }))
    fragment_unit indicator header part fu h bytes fits =
        units_raw indicator (header ∷ part) h bytes fits
        ∙ (unfold Demux.unit_of_type Demux.process_lfua in
            rw fu (
              rw (get_elem?-append front indicator (header ∷ part))
                (rw second (ground (arith, length-append front (indicator ∷ header ∷ part))))))
      where
        whole : Bytes
        whole = front ++ (indicator ∷ header ∷ part)

        second : get_elem? whole (length front + 1) ≡ some header
        second = get_elem?-append_next front indicator header part (length front + 1) refl

picture_slice : (type : ℕ) → leb 1 type && leb type 5 ≡ true → (type == 7 || type == 9) ≡ false
picture_slice type h = ground arith

-- The fragments of a unit with header `hdr` and body `payload`, of `max_frag` bytes at most.
module _ {Codec : Type 0} (new_codec : Bytes → Bytes → Option Codec) (hdr : ℕ) (payload : Bytes)
    (max_frag : ℕ) where
  -- The demuxer waits for the fragment at `offset`.
  abbrev pub Ready : ℕ → H264Demuxer Codec → Type 0
  Ready offset d = (offset ≡ 0) ⊎ ((d.fu_started ≡ true) × (d.buffer ≡ hdr ∷ take offset payload))

  -- The demuxer once it has the bytes of the body up to `upto`.
  abbrev pub collected : ℕ → H264Demuxer Codec → H264Demuxer Codec
  collected upto d = record d { fu_started = true; buffer = hdr ∷ take upto payload }

  module _ (offset : ℕ) (d : H264Demuxer Codec) (byte : IsByte hdr) (ready : Ready offset d) where
    abbrev upto : ℕ
    upto = offset + frag_size payload max_frag offset

    abbrev start : Bool
    start = offset == 0

    abbrev end : Bool
    end = is_end payload max_frag offset

    abbrev part : Bytes
    part = take (frag_size payload max_frag offset) (drop offset payload)

    facts : IsFragmentHeader hdr start end
    facts = fragment_header hdr start end byte

    begins :
        offset ≡ 0
        → Demux.start_fragment new_codec (fu_indicator hdr) (fu_header hdr start end) d
          ≡ record d { fu_started = true; buffer = hdr ∷ take offset payload }
    unfolding Demux.start_fragment
    begins z =
        let e : not start ≡ false = ground arith in
        rw (facts.start_bit ∙ e) (rw facts.rebuilt (rw z refl))

    goes_on :
        offset ≢ 0
        → d.fu_started ≡ true
        → d.buffer ≡ hdr ∷ take offset payload
        → Demux.start_fragment new_codec (fu_indicator hdr) (fu_header hdr start end) d
          ≡ record d { fu_started = true; buffer = hdr ∷ take offset payload }
    unfolding Demux.start_fragment
    goes_on nz fs b =
        let e : not start ≡ true = ground arith in
        rw (facts.start_bit ∙ e) λ i. record d { fu_started = fs i; buffer = b i }

    begun :
        Demux.start_fragment new_codec (fu_indicator hdr) (fu_header hdr start end) d
        ≡ record d { fu_started = true; buffer = hdr ∷ take offset payload }
    begun = elim ready [
      | inl z ↦ begins z
      | inr (fs, b) ↦ elim (ℕ_discrete offset 0) [ yes z ↦ begins z | no nz ↦ goes_on nz fs b ]
    ]

    -- A fragment that is not the last is appended to what was collected.
    pub inner_fragment :
        end ≡ false
        → slice d.base.payload (d.base.offset + 2) d.base.end ≡ ret part
        → Demux.append_fragment new_codec
            (fu_header hdr start end)
            (Demux.start_fragment new_codec (fu_indicator hdr) (fu_header hdr start end) d)
          ≡ ret (fine, collected upto d)
    unfolding Demux.append_fragment
    inner_fragment not_end here =
        rw begun
          (rw here (rw (facts.end_bit ∙ ap not not_end) (rw (take-add offset _ payload) refl)))

    covers : end ≡ true → take upto payload ≡ payload
    unfolding is_end frag_size
    covers h = take-length payload upto (ground arith)

    -- The last fragment completes the unit, which becomes a packet.
    pub last_fragment :
        end ≡ true
        → leb 1 (nalu_type hdr) && leb (nalu_type hdr) 5 ≡ true
        → slice d.base.payload (d.base.offset + 2) d.base.end ≡ ret part
        → Demux.append_fragment new_codec
            (fu_header hdr start end)
            (Demux.start_fragment new_codec (fu_indicator hdr) (fu_header hdr start end) d)
          ≡ ret (
            fine,
            Demux.add_packet new_codec
                (hdr ∷ payload)
                (nalu_type hdr == 5)
                (record d { fu_started = false; buffer = hdr ∷ payload }),
          )
    unfolding Demux.append_fragment Demux.finalize_fua_packet
    last_fragment at_end slice_type here = rw begun (
        rw here (
          rw (facts.end_bit ∙ ap not at_end) (
            rw (take-add offset _ payload)
              (rw (covers at_end) (rw (picture_slice (nalu_type hdr) slice_type) refl)))))
