-- ===== src/Buffer/Moves.antt =====
-- What the operations of a ring do to the layout of its slots.
use gomedia.Common.{ℕ, suc, ◌≤◌, ◌<◌, ◌≡◌, inl, inr, arith, Bool-cases, ltb}
use gomedia.Buffer.{Slot}
use gomedia.Buffer.Layout.{
  Inside, Old, Layout, straight, wrapped, Keeps, Keeps-Inside, Keeps-Old, Keeps-Ordered, before,
  behind, last_or_before, Each-snoc, Ordered-snoc, Inside-wider, Old-from,
}

module _ (s : ℕ → Slot) (h t w c : ℕ) where
  -- The oldest slot is given back.
  pub drop-Layout : h < t → Layout s h t w c → Layout s (suc h) t w c
  drop-Layout lt (straight a b e o) =
      straight lt b (λ i p q. e i (omega arith) q) (λ i j p q r. o i j (omega arith) q r)
  drop-Layout lt (wrapped k a b d e o e' o') = elim (last_or_before (suc h) k (omega arith)) [
    | inl more ↦
        wrapped k more b d (λ i p q. e i (omega arith) q) (λ i j p q r. o i j (omega arith) q r) e'
          o'
    | inr last ↦
        straight lt d (λ i p q. e' i (omega arith) q) (λ i j p q r. o' i j (omega arith) q r)
  ]

  -- The slot that ends at the write cursor and is in use is the last one.
  module _ (idx : ℕ) (from : h ≤ idx) (below : idx < t) (at_write : (s idx).end ≡ w) where
    pub last_slot : 0 < (s idx).refs → Layout s h t w c → suc idx ≡ t
    last_slot used (straight a b e o) = elim (last_or_before (suc idx) t (omega arith)) [
      | inl more ↦
          let (x, y, z) = e (suc idx) (omega arith) more in
          absurd (omega (arith, o idx (suc idx) from (omega arith) more))
      | inr last ↦ last
    ]
    last_slot used (wrapped k a b d e o e' o') = elim (Bool-cases (ltb idx k)) [
      | inl old ↦
          let (x, y, z, live) = e idx from (ground arith) in absurd (omega (arith, live used))
      | inr new ↦ elim (last_or_before (suc idx) t (omega arith)) [
        | inl more ↦
            let (x, y, z) = e' (suc idx) (ground arith) more in
            absurd (omega (arith, o' idx (suc idx) (ground arith) (omega arith) more))
        | inr last ↦ last
      ]
    ]

    pub used_bytes : 0 < (s idx).refs → Layout s h t w c → (s idx).start < (s idx).end
    used_bytes used (straight a b e o) = let (x, y, z) = e idx from below in y
    used_bytes used (wrapped k a b d e o e' o') = elim (Bool-cases (ltb idx k)) [
      | inl old ↦ let (x, y, z, live) = e idx from (ground arith) in live used
      | inr new ↦ let (x, y, z) = e' idx (ground arith) below in y
    ]

    pub oldest_above : h < idx → (s idx).start ≤ (s h).start → Layout s h t w c → w ≤ (s h).start
    oldest_above lt le (straight a b e o) =
        let (x, y, z) = e h (omega arith) (omega arith) in
        absurd (omega (arith, o h idx (omega arith) lt below))
    oldest_above lt le (wrapped k a b d e o e' o') = let (x, y, z, live) = e h (omega arith) a in x

    -- Without it, the slots still lie well.
    pub pop-Layout :
        0 < (s idx).refs → suc idx ≡ t → Layout s h t w c → Layout s h idx (s idx).start c
    pop-Layout used last (straight a b e o) =
        let (x, y, z) = e idx from below in
        straight from (omega arith)
          (λ i p q. let (x, y, z) = e i p (omega arith) in (x, y, o i idx p q below))
          (λ i j p q r. o i j p q (omega arith))
    pop-Layout used last (wrapped k a b d e o e' o') = elim (Bool-cases (ltb idx k)) [
      | inl old ↦
          let (x, y, z, live) = e idx from (ground arith) in absurd (omega (arith, live used))
      | inr new ↦
          let (x, y, z) = e' idx (ground arith) below in
          wrapped k a (ground arith) (omega arith)
            (λ i p q. let (x', y', z', live) = e i p q in (omega arith, y', z', live)) o
            (λ i p q. let (x, y, z) = e' i p (omega arith) in (x, y, o' i idx p q below))
            (λ i j p q r. o' i j p q (omega arith))
    ]

  module _ (s' : ℕ → Slot) (keeps : Keeps s s' h t) where
    -- A new slot from `w` to `w'`, which does not reach the oldest one if that lies above.
    pub take-Layout :
        (w' : ℕ)
        → w < w'
        → w' ≤ c
        → (s' t).start ≡ w
        → (s' t).end ≡ w'
        → (h < t → w ≤ (s h).start → w' ≤ (s h).start)
        → Layout s h t w c
        → Layout s' h (suc t) w' c
    take-Layout w' some_bytes fits start end room (straight a b e o) =
        let inside = Keeps-Inside keeps e in
        straight (omega arith) fits
          (Each-snoc s' h t (Inside 0 w') (Inside-wider s' h t w w' (omega arith) inside)
            (omega arith, omega arith, omega arith))
          (Ordered-snoc s' h t (Keeps-Ordered keeps o)
            (λ i p q. let (x, y, z) = inside i p q in omega arith))
    take-Layout w' some_bytes fits start end room (wrapped k a b d e o e' o') =
        let k_old = before b keeps in
        let inside = Keeps-Inside (behind (omega arith) keeps) e' in
        let kept = keeps h (omega arith) (omega arith) in
        let first = e h (omega arith) a in
        wrapped k a (omega arith) fits
          (Old-from s' h k w w' c a (Keeps-Old k_old e) (Keeps-Ordered k_old o)
            (omega (arith, kept.0, room (omega arith) first.0)))
          (Keeps-Ordered k_old o)
          (Each-snoc s' k t (Inside 0 w') (Inside-wider s' k t w w' (omega arith) inside)
            (omega arith, omega arith, omega arith))
          (Ordered-snoc s' k t (Keeps-Ordered (behind (omega arith) keeps) o')
            (λ i p q. let (x, y, z) = inside i p q in omega arith))

    -- The tail of the slab is wasted, while the oldest slot lies below the write cursor.
    pub waste-Layout :
        (s' t).start ≡ w
        → (s' t).end ≡ c
        → (s' t).refs ≡ 0
        → (h < t → (s h).start < w)
        → Layout s h t w c
        → Layout s' h (suc t) 0 c
    waste-Layout start end unused low (straight a b e o) =
        let inside = Keeps-Inside keeps e in
        wrapped (suc t) (omega arith) (omega arith) (omega arith)
          (Each-snoc s' h t (Old 0 c)
            (λ i p q. let (x, y, z) = inside i p q in (x, omega arith, omega arith, λ _. y))
            (omega arith, omega arith, omega arith, λ u. absurd (omega arith)))
          (Ordered-snoc s' h t (Keeps-Ordered keeps o)
            (λ i p q. let (x, y, z) = inside i p q in omega arith))
          (λ i p q. absurd (omega arith)) (λ i j p q r. absurd (omega arith))
    waste-Layout start end unused low (wrapped k a b d e o e' o') =
        let (x, y, z, live) = e h (omega arith) a in absurd (omega (arith, low (omega arith)))
