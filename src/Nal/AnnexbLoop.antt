-- ===== src/Nal/AnnexbLoop.antt =====
-- The loops of parseANNEXB end, keep inside their slice and cut off non-empty units.
use gomedia.Common.{
  ℕ, zero, suc, ◌+◌, ◌-◌, ◌≤◌, ◌<◌, ◌≡◌, ◌⊎◌, inl, inr, refl, arith, Bool, true, false, ◌&&◌, not,
  List, [], ◌∷◌, some, length, get_elem?, take, drop, ltb, leb, ◌==◌, All, length-drop, length-take,
  total_length, total_length-append, get_elem?_total, Bool-cases,
}
use gomedia.Common.Run.{ret, loop_total, Progress}
use gomedia.Pio.{Bytes, u24be}
use gomedia.Pio.Laws.{u24be_total}
use gomedia.Nal.{is_start_code, next_start_code, Cursor, skip_code, annexb_round, parse_annexb}
use gomedia.Nal.Plain.{plain_cut, cut_unit-plain}
use gomedia.Nal.Avcc.{IsNal}
use gomedia.Nal.AvccLoop.{All-add}

-- isStartCode returns, and finds a start code only where it lies in the slice.
abbrev StartCode : Bytes → ℕ → Type 0
StartCode b pos =
    (n : ℕ) × (found : Bool) × (is_start_code b pos ≡ ret (n, found))
    × (found ≡ true → ((n ≡ 3) × (pos + 3 ≤ length b)) ⊎ ((n ≡ 4) × (pos + 4 ≤ length b)))

module _ (b : Bytes) (pos : ℕ) (room : leb (length b) (pos + 2) ≡ false) where
  code_at_zero_total :
      (x v : ℕ)
      → get_elem? b pos ≡ some x
      → u24be (drop pos b) ≡ some v
      → not (x == 0) ≡ false
      → StartCode b pos
  code_at_zero_total x v e ev z = elim (Bool-cases (v == 1)) [
    | inl one ↦
        (3, true, (unfold is_start_code in rw (room, e, z, ev, one)), λ _. inl (refl, ground arith))
    | inr more ↦ elim (Bool-cases (v == 0 && ltb (pos + 3) (length b))) [
      | inl four ↦
          let (y, ey) = get_elem?_total b (pos + 3) (ground arith) in
          elim (Bool-cases (y == 1)) [
            | inl one ↦ (
              4,
              true,
              (unfold is_start_code in rw (room, e, z, ev, more, four, ey, one)),
              λ _. inr (refl, ground arith),
            )
            | inr other ↦ (
              0,
              false,
              (unfold is_start_code in rw (room, e, z, ev, more, four, ey, other)),
              λ e. cc,
            )
          ]
      | inr other ↦ (0, false, (unfold is_start_code in rw (room, e, z, ev, more, other)), λ e. cc)
    ]
  ]

code_found : (b : Bytes) (pos : ℕ) → StartCode b pos
code_found b pos = elim (Bool-cases (leb (length b) (pos + 2))) [
  | inl out ↦ (0, false, (unfold is_start_code in rw out), λ e. cc)
  | inr room ↦
      let (x, e) = get_elem?_total b pos (ground arith) in
      let (v, ev) = u24be_total (drop pos b) (ground (arith, length-drop pos b)) in
      elim (Bool-cases (not (x == 0))) [
        | inl nz ↦ (0, false, (unfold is_start_code in rw (room, e, nz)), λ e. cc)
        | inr z ↦ code_at_zero_total b pos room x v e ev z
      ]
]

-- Where the cursor stands, a start code or the end follows.
abbrev pub AtCode : Bytes → Cursor → Type 0
AtCode b c =
    (c.pos ≤ skip_code c)
    × (skip_code c ≤ length b)
    × ((c.pos < skip_code c) ⊎ (skip_code c ≡ length b))

abbrev pub cursor : ℕ → ℕ → ℕ → ℕ → List Bytes → Cursor
cursor val3 val4 start pos nalus = record {
  val3 = val3;
  val4 = val4;
  start = start;
  pos = pos;
  nalus = nalus;
}

next_start_code_total :
    (n : ℕ) (b : Bytes) (pos start : ℕ) (nalus : List Bytes)
    → pos + n ≡ length b
    → (p : ℕ) × (val3 : ℕ) × (val4 : ℕ) × (next_start_code n b pos ≡ ret (p, val3, val4))
      × (pos ≤ p)
      × AtCode b (cursor val3 val4 start p nalus)
unfolding next_start_code skip_code
next_start_code_total zero b pos start nalus h = (pos, 0, 0, refl, omega arith, ground arith)
next_start_code_total (suc n) b pos start nalus h =
    let (k, found, e, inside) = code_found b pos in
    let (p, val3, val4, e', le, at) =
      next_start_code_total n b (pos + 1) start nalus (omega arith) in
    elim (Bool-cases found) [
      | inl yes_found ↦ elim (inside yes_found) [
        | inl (three, room) ↦ (pos, 1, 0, rw (e, yes_found, three), omega arith, ground arith)
        | inr (four, room) ↦ (pos, 0, 1, rw (e, yes_found, four), omega arith, ground arith)
      ]
      | inr none_found ↦ (p, val3, val4, rw (e, none_found, e'), omega arith, at)
    ]

module _ (b : Bytes) (c : Cursor) (before : c.start ≤ c.pos) (inside : c.pos ≤ length b) where
  unit_length : length (take (c.pos - c.start) (drop c.start b)) ≡ c.pos - c.start
  unit_length = omega (arith, length-take (c.pos - c.start) (drop c.start b), length-drop c.start b)

  All-plain_cut : All IsNal c.nalus → All IsNal (plain_cut b c)
  unfolding plain_cut
  All-plain_cut h = elim (Bool-cases (c.start == c.pos)) [
    | inl empty ↦ rw empty h
    | inr more ↦
        rw more (
          All-add c.nalus (take (c.pos - c.start) (drop c.start b)) (ground (arith, unit_length)) h)
  ]

  total_length-plain_cut : total_length c.nalus ≤ c.start → total_length (plain_cut b c) ≤ c.pos
  unfolding plain_cut
  total_length-plain_cut h = ground (
    arith,
    unit_length,
    total_length-append c.nalus (take (c.pos - c.start) (drop c.start b) ∷ []),
  )

module _ (b : Bytes) where
  abbrev Ready : Cursor → Type 0
  Ready c = (c.start ≤ c.pos) × AtCode b c × All IsNal c.nalus × (total_length c.nalus ≤ c.start)

  abbrev pub Units : List Bytes → Type 0
  Units nalus = All IsNal nalus × (total_length nalus ≤ length b)

  abbrev to_go : Cursor → ℕ
  to_go c = length b - c.pos

  annexb-Progress : (c : Cursor) → Ready c → Progress (annexb_round b) Ready Units to_go c
  annexb-Progress c (before, at, all, room) =
      let all' = All-plain_cut b c before (omega arith) all in
      let cut = cut_unit-plain b c before (omega arith) in
      let room' = total_length-plain_cut b c before (omega arith) room in
      elim (Bool-cases (skip_code c == length b)) [
        | inl end ↦ inl (plain_cut b c, (unfold annexb_round in rw (cut, end)), (all', omega arith))
        | inr more ↦
            let (p, val3, val4, e, le, at') =
              next_start_code_total (length b - skip_code c) b (skip_code c) (skip_code c)
                (plain_cut b c) (omega arith) in
            inr (
              cursor val3 val4 (skip_code c) p (plain_cut b c),
              (unfold annexb_round in rw (cut, more, e)),
              (le, at', all', omega arith),
              ground arith,
            )
      ]

pub parse_annexb_total :
    (b : Bytes) (val3 val4 : ℕ)
    → AtCode b (cursor val3 val4 0 0 [])
    → (nalus : List Bytes) × (parse_annexb b val3 val4 [] ≡ ret nalus) × Units b nalus
unfolding parse_annexb
parse_annexb_total b val3 val4 at =
    loop_total (annexb_round b) (Ready b) (Units b) (to_go b) (annexb-Progress b) (length b + 2)
      (cursor val3 val4 0 0 []) (omega arith) (omega arith, at, tt, omega arith)
