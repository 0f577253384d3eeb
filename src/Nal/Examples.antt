-- ===== src/Nal/Examples.antt =====
-- Concrete runs of nal.go, some of them those of nal_test.go, and the theorems at concrete inputs.
use gomedia.Common.{◌≡◌, arith, some, List, [], ◌∷◌}
use gomedia.Common.Run.{ret}
use gomedia.Pio.{Bytes}
use gomedia.Pio.Laws.{be}
use gomedia.Nal.{avcc, Framing, split_nalus}
use gomedia.Nal.Avcc.{avcc_join, split_nalus-avcc_join}
use gomedia.Nal.Total.{Splits, split_nalus_total}
use gomedia.Nal.StartCode.{split_nalus-four_byte_code}
use mathlib.Core.List.{head?}

abbrev sps : Bytes
sps = 0x67 ∷ 0x42 ∷ 0x00 ∷ 0x1e ∷ []

abbrev pps : Bytes
pps = 0x68 ∷ 0xce ∷ 0x38 ∷ 0x80 ∷ []

abbrev two_units : Bytes
two_units = 0 ∷ 0 ∷ 1 ∷ 0x67 ∷ 0x42 ∷ 0 ∷ 0x1e ∷ 0 ∷ 0 ∷ 1 ∷ 0x68 ∷ 0xce ∷ 0x38 ∷ 0x80 ∷ []

split_nalus_total_example :
    (r : List Bytes × Framing) × (split_nalus two_units ≡ ret r) × Splits two_units r
split_nalus_total_example = split_nalus_total two_units

split_nalus-avcc_join_example :
    split_nalus (avcc_join (sps ∷ pps ∷ [])) ≡ ret (sps ∷ pps ∷ [], avcc)
unfolding avcc_join be
split_nalus-avcc_join_example = split_nalus-avcc_join sps (pps ∷ []) (omega arith) (omega arith)

four_byte_code_example :
    (nalus : List Bytes) × (split_nalus (0 ∷ 0 ∷ 0 ∷ 1 ∷ 0x67 ∷ 0x42 ∷ []) ≡ ret (nalus, avcc))
    × (head? nalus ≡ some (0x67 ∷ []))
four_byte_code_example = split_nalus-four_byte_code 0x67 (0x42 ∷ []) (omega arith)
