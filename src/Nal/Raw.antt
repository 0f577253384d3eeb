-- ===== src/Nal/Raw.antt =====
-- SplitNALUs on a single unit with no framing.
use gomedia.Common.{ℕ, ◌^◌, ◌<◌, ◌≡◌, refl, arith, [], ◌∷◌, length, All, IsByte}
use gomedia.Common.Run.{ret}
use gomedia.Pio.{Bytes}
use gomedia.Pio.Laws.{u24be_value, u32be_value}
use gomedia.Nal.{raw, split_nalus, split_annexb}

-- A NAL unit whose header byte is not zero, shorter than 16 MiB, is one raw unit.
pub split_nalus-raw :
    (x : ℕ) (t : Bytes)
    → 0 < x
    → All IsByte (x ∷ t)
    → length (x ∷ t) < 2 ^ 24
    → split_nalus (x ∷ t) ≡ ret ((x ∷ t) ∷ [], raw)
unfolding split_nalus split_annexb
split_nalus-raw x [] h bytes fits = refl
split_nalus-raw x (a ∷ []) h bytes fits = refl
split_nalus-raw x (a ∷ b ∷ []) h bytes fits = refl
split_nalus-raw x (a ∷ b ∷ c ∷ t) h (hx, (ha, (hb, (hc, bytes)))) fits =
    ground (arith, u32be_value x a b c t hx ha hb hc, u24be_value x a b (c ∷ t) hx ha hb)
