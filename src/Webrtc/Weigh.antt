-- ===== src/Webrtc/Weigh.antt =====
-- Sums over the packets of a buffer, and the buffers whose durations are such sums.
use gomedia.Common.{ℕ, ◌+◌, ◌≡◌, refl, arith, List, [], ◌∷◌, ◌++◌, All, weigh, weigh-append}
use gomedia.Webrtc.{Packet, Gop, Buffer, counted, held, append_last}

module _ (f : Packet → ℕ) where
  -- A GoP more at the end, without packets, holds nothing more.
  pub held-begin :
      (gops : List Gop)
      → weigh f (held (gops ++ (record { packets = []; duration = 0 } ∷ []))) ≡ weigh f (held gops)
  unfolding held weigh
  held-begin [] = refl
  held-begin (gop ∷ gops) = omega (
    arith,
    weigh-append f gop.packets (held (gops ++ (record { packets = []; duration = 0 } ∷ []))),
    weigh-append f gop.packets (held gops),
    held-begin gops,
  )

  pub held-append_last :
      (p : Packet) (gop : Gop) (gops : List Gop)
      → weigh f (held (append_last p (gop ∷ gops))) ≡ weigh f (held (gop ∷ gops)) + f p
  unfolding held append_last weigh
  held-append_last p gop [] = omega (
    arith,
    weigh-append f (gop.packets ++ (p ∷ [])) [],
    weigh-append f gop.packets (p ∷ []),
    weigh-append f gop.packets [],
  )
  held-append_last p gop (next ∷ gops) = omega (
    arith,
    weigh-append f gop.packets (held (append_last p (next ∷ gops))),
    weigh-append f gop.packets (held (next ∷ gops)),
    held-append_last p next gops,
  )

-- The duration of a GoP is that of its video packets.
abbrev pub IsCounted : Gop → Type 0
IsCounted gop = gop.duration ≡ weigh counted gop.packets

-- So it is for every GoP, and for the buffer.
abbrev pub IsCounting : Buffer → Type 0
IsCounting b = All IsCounted b.gops × (b.duration ≡ weigh counted (held b.gops))

-- Every packet of `b` is in `b'` as often as it was in `b`, held or released: the sums of every
-- measure of packets are the same.
abbrev pub Conserves : Buffer → Buffer → Type 0
Conserves b b' =
    (f : Packet → ℕ)
    → weigh f (held b'.gops) + weigh f b'.released ≡ weigh f (held b.gops) + weigh f b.released

abbrev pub Moves : Buffer → Buffer → Type 0
Moves b b' = IsCounting b' × Conserves b b'
