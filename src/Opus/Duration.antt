-- ===== src/Opus/Duration.antt =====
-- The durations that PacketDuration returns.
use gomedia.Common.{
  ℕ, ◌*◌, ◌/◌, ◌%◌, ◌^◌, ◌≤◌, ◌<◌, ◌≡◌, ◌⊎◌, inl, inr, refl, ap, arith, Bool-cases, Bool, true,
  false, ◌||◌, bit_and, ◌>>>◌, Option, none, some, [], ◌∷◌, length, get_elem?, All, IsByte, ltb,
  ◌==◌, ==_iff, if◌then◌else◌, passes_below, passes_below_lem,
}
use gomedia.Common.Run.{ret}
use gomedia.Pio.{Bytes}
use gomedia.Opus.{
  Answer, lasts, fails, empty_packet, invalid_packet, invalid_frame_count, opus_frame_times,
  millisecond, times_frames, many_frames, frames_of_code, packet_duration,
}

-- The frame time of a configuration (RFC 6716, 3.1): SILK has 10, 20, 40 and 60 ms, the hybrid
-- modes 10 and 20, CELT 2.5 doubled up to three times.
unfoldable pub frame_time : ℕ → ℕ
frame_time config =
    if ltb config 12
    then (if config % 4 == 3 then 60 * millisecond else 10 * millisecond * 2 ^ (config % 4))
    else if ltb config 16
    then 10 * millisecond * 2 ^ (config % 2)
    else 2500000 * 2 ^ (config % 4)

holds : Option ℕ → ℕ → Bool
holds none t = false
holds (some t') t = t' == t

table_test : ℕ → Bool
unfolding holds
table_test config = holds (get_elem? opus_frame_times config) (frame_time config)

table : passes_below table_test 32 ≡ true
unfolding passes_below table_test frame_time
table = refl

code_test : ℕ → Bool
code_test toc = bit_and toc 3 == toc % 4

codes : passes_below code_test 256 ≡ true
unfolding passes_below code_test
codes = refl

code_lem : (toc : ℕ) → IsByte toc → bit_and toc 3 ≡ toc % 4
unfolding code_test
code_lem toc byte = (==_iff _ _).0 (passes_below_lem code_test 256 toc byte codes)

count_test : ℕ → Bool
count_test second = bit_and second 0x3f == second % 64

counts : passes_below count_test 256 ≡ true
unfolding passes_below count_test
counts = refl

count_lem : (second : ℕ) → IsByte second → bit_and second 0x3f ≡ second % 64
unfolding count_test
count_lem second byte = (==_iff _ _).0 (passes_below_lem count_test 256 second byte counts)

found : (answer : Option ℕ) (t : ℕ) → holds answer t ≡ true → answer ≡ some t
unfolding holds
found none t h = absurd cc
found (some t') t h = ap some ((==_iff t' t).0 h)

table_entry :
    (config : ℕ) → config < 32 → get_elem? opus_frame_times config ≡ some (frame_time config)
unfolding table_test
table_entry config h =
    found (get_elem? opus_frame_times config) (frame_time config)
      (passes_below_lem table_test 32 config h table)

-- The answer by the count of frames (RFC 6716, 3.2.2 to 3.2.5): the two low bits of the first byte
-- say how many there are, or that the second byte does. It has no limit on the duration: the 120 ms
-- of requirement R5 are not tested, and 48 frames of 60 ms are told to last 2.88 s.
pub data Described : Bytes → Answer → Type 0 where
  no_byte : Described [] (fails empty_packet)
  one :
      (toc : ℕ) (rest : Bytes)
      → toc % 4 ≡ 0
      → Described (toc ∷ rest) (lasts (1 * frame_time (toc / 8)))
  two :
      (toc : ℕ) (rest : Bytes)
      → 1 ≤ toc % 4
      → toc % 4 ≤ 2
      → Described (toc ∷ rest) (lasts (2 * frame_time (toc / 8)))
  no_count : (toc : ℕ) → toc % 4 ≡ 3 → Described (toc ∷ []) (fails invalid_packet)
  bad_count :
      (toc second : ℕ) (rest : Bytes)
      → toc % 4 ≡ 3
      → (second % 64 ≡ 0) ⊎ (48 < second % 64)
      → Described (toc ∷ second ∷ rest) (fails invalid_frame_count)
  many :
      (toc second : ℕ) (rest : Bytes)
      → toc % 4 ≡ 3
      → 1 ≤ second % 64
      → second % 64 ≤ 48
      → Described (toc ∷ second ∷ rest) (lasts (second % 64 * frame_time (toc / 8)))

times_frames_lem :
    (toc n : ℕ) → IsByte toc → times_frames (toc >>> 3) n ≡ ret (lasts (n * frame_time (toc / 8)))
unfolding times_frames
times_frames_lem toc n byte = rw (table_entry (toc / 8) (omega arith)) refl

many_frames-Described :
    (toc : ℕ) (rest : Bytes)
    → All IsByte (toc ∷ rest)
    → toc % 4 ≡ 3
    → (answer : Answer) × (many_frames (toc >>> 3) (toc ∷ rest) ≡ ret answer)
      × Described (toc ∷ rest) answer
unfolding many_frames
many_frames-Described toc [] bytes code = (_, refl, no_count toc code)
many_frames-Described toc (second ∷ rest) (byte, (byte', _)) code =
    let long : ltb (length (toc ∷ second ∷ rest)) 2 ≡ false = ground arith in
    elim (Bool-cases (ltb (second % 64) 1 || ltb 48 (second % 64))) [
      | inl bad ↦ (
        fails invalid_frame_count,
        rw (long, count_lem second byte', bad) refl,
        bad_count toc second rest code (ground arith),
      )
      | inr good ↦ (
        lasts (second % 64 * frame_time (toc / 8)),
        rw (long, count_lem second byte', good) (times_frames_lem toc (second % 64) byte),
        many toc second rest code (ground arith) (ground arith),
      )
    ]

-- PacketDuration returns on every packet of bytes, without an index out of range, and gives the
-- frame time of the configuration (the upper five bits of the first byte) times the count of frames:
-- one, two, or that of the second byte, from 1 to 48. Its errors are no byte, no second byte where
-- one is asked for, and any other count. How long a packet may last in all is not tested.
pub packet_duration-Described :
    (pkt : Bytes)
    → All IsByte pkt
    → (answer : Answer) × (packet_duration pkt ≡ ret answer) × Described pkt answer
unfolding packet_duration frames_of_code
packet_duration-Described [] bytes = (_, refl, no_byte)
packet_duration-Described (toc ∷ rest) bytes =
    let some_byte : ltb (length (toc ∷ rest)) 1 ≡ false = ground arith in
    let code = code_lem toc bytes.0 in
    elim (Bool-cases (toc % 4 == 0)) [
      | inl zero_code ↦ (
        _,
        rw (some_byte, code, zero_code) (times_frames_lem toc 1 bytes.0),
        one toc rest (ground arith),
      )
      | inr other ↦ elim (Bool-cases (toc % 4 == 1 || toc % 4 == 2)) [
        | inl two_code ↦ (
          _,
          rw (some_byte, code, other, two_code) (times_frames_lem toc 2 bytes.0),
          two toc rest (ground arith) (ground arith),
        )
        | inr last ↦
            let three : toc % 4 ≡ 3 = ground arith in
            let is_three : toc % 4 == 3 ≡ true = ground arith in
            let (answer, e, d) = many_frames-Described toc rest bytes three in
            (answer, rw (some_byte, code, other, last, is_three) e, d)
      ]
    ]
