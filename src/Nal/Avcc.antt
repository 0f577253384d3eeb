-- ===== src/Nal/Avcc.antt =====
-- SplitNALUs on AVCC data, and on data that begins with a four-byte start code.
use gomedia.Common.{
  ℕ, zero, suc, ◌+◌, ◌≤◌, ◌<◌, ◌≡◌, refl, ap, ◌∙◌, arith, List, [], ◌∷◌, ◌++◌, some, length, drop,
  All, IsU32, length-append, take-length_append, drop-length_append,
}
use gomedia.Common.Run.{ret, next, done, loop, loop-next, loop-done}
use gomedia.Pio.{Bytes, u32be}
use gomedia.Pio.Laws.{be, u32be-be}
use gomedia.Nal.Plain.{plain_round, avcc_round-plain}
use gomedia.Nal.{avcc, Prefixed, avcc_round, split_avcc, split_nalus}
use native.Mathlib.Nat.{mod-eq_of_lt}
use mathlib.Core.List.{append_assoc}

-- Length-prefixed NAL units, as ISO/IEC 14496-15 lays them out.
unfoldable pub avcc_join : List Bytes → Bytes
avcc_join [] = []
avcc_join (nal ∷ nals) = be 4 (length nal) ++ (nal ++ avcc_join nals)

abbrev pub IsNal : Bytes → Type 0
IsNal nal = 0 < length nal

drop_prefix : (v : ℕ) (t : Bytes) → drop 4 (be 4 v ++ t) ≡ t
unfolding be
drop_prefix v t = refl

length_prefix : (v : ℕ) (t : Bytes) → length (be 4 v ++ t) ≡ length t + 4
unfolding be
length_prefix v t = omega arith

u32be_prefix : (v : ℕ) (t : Bytes) → IsU32 v → u32be (be 4 v ++ t) ≡ some v
u32be_prefix v t h = rw (u32be-be v t) (ap some (mod-eq_of_lt h))

length-avcc_join : (nals : List Bytes) → length nals ≤ length (avcc_join nals)
unfolding avcc_join
length-avcc_join [] = omega arith
length-avcc_join (nal ∷ nals) = omega (
  arith,
  length_prefix (length nal) (nal ++ avcc_join nals),
  length-append nal (avcc_join nals),
  length-avcc_join nals,
)

at : Bytes → Bytes → List Bytes → Prefixed
at nal rest nalus = record { val4 = length nal; rest = nal ++ rest; nalus = nalus }

-- The last unit ends the loop, and any other is followed by a length and the next unit.
last_round :
    (nal : Bytes) (nalus : List Bytes)
    → IsNal nal
    → IsU32 (length (nal ++ []))
    → avcc_round (at nal [] nalus) ≡ ret (done ([], nalus ++ (nal ∷ [])))
unfolding plain_round at
last_round nal nalus h fits =
    avcc_round-plain (at nal [] nalus)
    ∙ simp (drop-length_append, take-length_append)
        (ground (arith, mod-eq_of_lt fits, length-append nal []))

next_round :
    (nal unit tail : Bytes) (nalus : List Bytes)
    → IsNal nal
    → IsU32 (length (nal ++ (be 4 (length unit) ++ (unit ++ tail))))
    → avcc_round (at nal (be 4 (length unit) ++ (unit ++ tail)) nalus)
      ≡ ret (next (at unit tail (nalus ++ (nal ∷ []))))
unfolding plain_round at
next_round nal unit tail nalus h fits =
    avcc_round-plain (at nal (be 4 (length unit) ++ (unit ++ tail)) nalus)
    ∙ simp (drop-length_append, take-length_append, drop_prefix)
        (rw (u32be_prefix (length unit) (unit ++ tail) short) (
          ground (
            arith,
            mod-eq_of_lt fits,
            mod-eq_of_lt rest_fits,
            length-append nal (be 4 (length unit) ++ (unit ++ tail)),
            length_prefix (length unit) (unit ++ tail),
            length-append unit tail,
          )))
  where
    rest_fits : IsU32 (length (unit ++ tail))
    rest_fits = omega (
      arith,
      length-append nal (be 4 (length unit) ++ (unit ++ tail)),
      length_prefix (length unit) (unit ++ tail),
    )

    short : IsU32 (length unit)
    short = omega (arith, rest_fits, length-append unit tail)

avcc_units :
    (fuel : ℕ) (nal : Bytes) (nals nalus : List Bytes)
    → length nals < fuel
    → IsNal nal
    → All IsNal nals
    → IsU32 (length (nal ++ avcc_join nals))
    → loop avcc_round fuel (at nal (avcc_join nals) nalus) ≡ ret ([], nalus ++ (nal ∷ nals))
unfolding avcc_join
avcc_units zero nal nals nalus f h hs fits = absurd (omega arith)
avcc_units (suc fuel) nal [] nalus f h hs fits =
    loop-done avcc_round fuel _ (last_round nal nalus h fits)
avcc_units (suc fuel) nal (unit ∷ nals) nalus f h (h', hs) fits =
    loop-next avcc_round fuel _ (next_round nal unit (avcc_join nals) nalus h fits)
    ∙ avcc_units fuel unit nals (nalus ++ (nal ∷ [])) (omega arith) h' hs rest_fits
    ∙ ap (λ t. ret ([], t)) (append_assoc nalus (nal ∷ []) (unit ∷ nals))
  where
    rest_fits : IsU32 (length (unit ++ avcc_join nals))
    rest_fits = omega (
      arith,
      length-append nal (be 4 (length unit) ++ (unit ++ avcc_join nals)),
      length_prefix (length unit) (unit ++ avcc_join nals),
    )

-- SplitNALUs takes AVCC data of less than 4 GiB, made of non-empty units, apart into exactly
-- these units, and reports the AVCC framing.
pub split_nalus-avcc_join :
    (nal : Bytes) (nals : List Bytes)
    → All IsNal (nal ∷ nals)
    → IsU32 (length (avcc_join (nal ∷ nals)))
    → split_nalus (avcc_join (nal ∷ nals)) ≡ ret (nal ∷ nals, avcc)
unfolding split_nalus split_avcc avcc_join at
split_nalus-avcc_join nal nals (h, hs) fits =
    let body = nal ++ avcc_join nals in
    rw (u32be_prefix (length nal) body short) (
      rw (drop_prefix (length nal) body) (
        rw (avcc_units (length (be 4 (length nal) ++ body)) nal nals [] enough h hs body_fits) (
          ground (
            arith,
            mod-eq_of_lt fits,
            length_prefix (length nal) body,
            length-append nal (avcc_join nals),
          ))))
  where
    body_fits : IsU32 (length (nal ++ avcc_join nals))
    body_fits = omega (arith, length_prefix (length nal) (nal ++ avcc_join nals))

    short : IsU32 (length nal)
    short = omega (arith, body_fits, length-append nal (avcc_join nals))

    enough : length nals < length (be 4 (length nal) ++ (nal ++ avcc_join nals))
    enough = omega (
      arith,
      length_prefix (length nal) (nal ++ avcc_join nals),
      length-append nal (avcc_join nals),
      length-avcc_join nals,
    )
