-- ===== src/Mp4/Examples.antt =====
-- The theorems on the atoms at concrete inputs.
use gomedia.Common.{◌≡◌, refl, some, arith, [], ◌∷◌, ◌++◌, length}
use gomedia.Common.Run.{ret, panic, stuck}
use gomedia.Pio.{Bytes}
use gomedia.Mp4.{TimeToSample, parsed, marshal, len, unmarshal}
use gomedia.Pio.Laws.{be, u32be-be}
use gomedia.Mp4.Dref.{DataRefer, marshal_dref, len_dref, unmarshal_dref}
use gomedia.Mp4.Dref.Children.{unmarshal_dref-marshal_dref, unmarshal_dref-stuck}
use gomedia.Mp4.Stts.{unmarshal-marshal, unmarshal_cut}

abbrev two_entries : TimeToSample
two_entries = record {
  version = 0;
  flags = 0;
  entries = record { count = 300; duration = 3000 } ∷ record { count = 1; duration = 70000 } ∷ [];
}

unmarshal-marshal_example :
    (unmarshal (marshal two_entries ++ (1 ∷ [])) ≡ ret (parsed (len two_entries) two_entries))
    × (length (marshal two_entries) ≡ len two_entries)
unmarshal-marshal_example =
    unmarshal-marshal two_entries (1 ∷ []) (omega arith) (omega arith) (omega arith)
      ((omega arith, omega arith), ((omega arith, omega arith), tt))

abbrev cut_atom : Bytes
cut_atom = 0 ∷ 0 ∷ 0 ∷ 14 ∷ 0x73 ∷ 0x74 ∷ 0x74 ∷ 0x73 ∷ 0 ∷ 0 ∷ 0 ∷ 0 ∷ 0 ∷ 0 ∷ []

unmarshal_cut_example : unmarshal cut_atom ≡ panic
unmarshal_cut_example = unmarshal_cut cut_atom (omega arith) (omega arith)

abbrev local_data : DataRefer
local_data = record { version = 0; flags = 0; url = some (record { version = 0; flags = 1 }) }

unmarshal_dref-marshal_dref_example :
    (unmarshal_dref 2 (marshal_dref local_data) ≡ ret (parsed (len_dref local_data) local_data))
    × (length (marshal_dref local_data) ≡ len_dref local_data)
unmarshal_dref-marshal_dref_example =
    unmarshal_dref-marshal_dref local_data (omega arith) (omega arith) (omega arith, omega arith) 0

-- A child "free" that says it has no bytes, and one byte behind its header.
abbrev endless : Bytes
endless =
    0 ∷ 0 ∷ 0 ∷ 25 ∷ 0x64 ∷ 0x72 ∷ 0x65 ∷ 0x66 ∷ 0 ∷ 0 ∷ 0 ∷ 0 ∷ 0 ∷ 0 ∷ 0 ∷ 1 ∷ 0 ∷ 0 ∷ 0 ∷ 0
    ∷ 0x66 ∷ 0x72 ∷ 0x65 ∷ 0x65 ∷ 0 ∷ []

unmarshal_dref-stuck_example : unmarshal_dref 1000 endless ≡ stuck
unfolding be
unmarshal_dref-stuck_example =
    unmarshal_dref-stuck endless 0x66726565 (omega arith) (u32be-be 0x66726565 (0 ∷ [])) refl
      (u32be-be 0 (0x66 ∷ 0x72 ∷ 0x65 ∷ 0x65 ∷ 0 ∷ [])) 1000
