-- ===== src/Mp4/Stts.antt =====
-- The time-to-sample atom is read as it was written.
use gomedia.Common.{
  ℕ, ◌+◌, ◌*◌, ◌^◌, ◌≤◌, ◌<◌, ◌≡◌, refl, ap, ◌∙◌, arith, false, u32, some, List, [], ◌∷◌, ◌++◌,
  length, length-append, length-drop, drop, ltb, All, IsByte, IsU32,
}
use native.Mathlib.Nat.{mod-eq_of_lt}
use gomedia.Common.Run.{ret, panic}
use gomedia.Pio.{Bytes, u8_at, u24be, u32be}
use gomedia.Pio.Laws.{be, u8_at-be, u8_at_total, u32be-short, u24be_total, u24be-be, u32be-be}
use gomedia.Mp4.{
  TimeToSampleEntry, TimeToSample, parsed, put_entries, marshal_body, marshal, len, get_entry,
  get_entries, unmarshal_entries, unmarshal,
}

abbrev pub IsEntry : TimeToSampleEntry → Type 0
IsEntry e = IsU32 e.count × IsU32 e.duration

length-put_entries : (es : List TimeToSampleEntry) → length (put_entries es) ≡ 8 * length es
unfolding put_entries be
length-put_entries [] = refl
length-put_entries (e ∷ es) = omega (arith, length-put_entries es)

drop-be : (v : ℕ) (t : Bytes) → drop 4 (be 4 v ++ t) ≡ t
unfolding be
drop-be v t = refl

drop_entry : (c d : ℕ) (t : Bytes) → drop 8 (be 4 c ++ (be 4 d ++ t)) ≡ t
unfolding be
drop_entry c d t = refl

put_entries-append :
    (e : TimeToSampleEntry) (es : List TimeToSampleEntry) (t : Bytes)
    → put_entries (e ∷ es) ++ t ≡ be 4 e.count ++ (be 4 e.duration ++ (put_entries es ++ t))
unfolding be put_entries
put_entries-append e es t = refl

get_entry-put :
    (e : TimeToSampleEntry) (tail : Bytes)
    → IsEntry e
    → get_entry (be 4 e.count ++ (be 4 e.duration ++ tail)) ≡ ret e
unfolding get_entry
get_entry-put e tail (c, d) =
    rw (u32be-be e.count (be 4 e.duration ++ tail), mod-eq_of_lt c)
      (rw (drop-be e.count (be 4 e.duration ++ tail), u32be-be e.duration tail, mod-eq_of_lt d)
        refl)

get_entries-put :
    (es : List TimeToSampleEntry) (tail : Bytes)
    → All IsEntry es
    → get_entries (length es) (put_entries es ++ tail) ≡ ret es
unfolding get_entries
get_entries-put [] tail _ = refl
get_entries-put (e ∷ es) tail (ok, oks) =
    let rest = put_entries es ++ tail in
    rw
      (
        put_entries-append e es tail,
        get_entry-put e rest ok,
        drop_entry e.count e.duration rest,
        get_entries-put es tail oks,
      )
      refl

-- What Unmarshal meets behind the size and the tag.
module _ (a : TimeToSample) (tail : Bytes) where
  abbrev atom : Bytes
  atom = marshal a ++ tail

  version_there : drop 8 atom ≡ be 1 a.version ++ drop 9 atom
  unfolding marshal marshal_body be
  version_there = refl

  flags_there : drop 9 atom ≡ be 3 a.flags ++ drop 12 atom
  unfolding marshal marshal_body be
  flags_there = refl

  count_there : drop 12 atom ≡ be 4 (u32 (length a.entries)) ++ (put_entries a.entries ++ tail)
  unfolding marshal marshal_body be
  count_there = refl

  entries_there : drop 16 atom ≡ put_entries a.entries ++ tail
  unfolding marshal marshal_body be
  entries_there = refl

  length-marshal : length (marshal a) ≡ len a
  length-marshal = unfold marshal marshal_body be len in omega (arith, length-put_entries a.entries)

  length-atom : length atom ≡ 16 + 8 * length a.entries + length tail
  length-atom =
      unfold marshal marshal_body be in
      omega (arith, length-append (put_entries a.entries) tail, length-put_entries a.entries)

  -- Unmarshal reads the atom that Marshal wrote, and nothing of what stands behind it, and Len is
  -- the length of both: for a version of a byte, flags of 24 bits, and less than 2 ^ 32 entries of
  -- 32-bit numbers.
  pub unmarshal-marshal :
      IsByte a.version
      → a.flags < 2 ^ 24
      → IsU32 (length a.entries)
      → All IsEntry a.entries
      → (unmarshal (marshal a ++ tail) ≡ ret (parsed (len a) a)) × (length (marshal a) ≡ len a)
  unfolding unmarshal unmarshal_entries
  unmarshal-marshal byte bits few entries = (
    rw
        (
          some_version,
          version,
          some_flags,
          flags,
          count,
          all_there,
          entries_there,
          get_entries-put a.entries tail entries,
        )
        (unfold len in refl),
    length-marshal,
  )
    where
      some_version : ltb (length atom) 9 ≡ false
      some_version = ground (arith, length-atom)

      some_flags : ltb (length atom) 12 ≡ false
      some_flags = ground (arith, length-atom)

      all_there : ltb (length atom) (16 + 8 * length a.entries) ≡ false
      all_there = ground (arith, length-atom)

      version : u8_at (drop 8 atom) ≡ some a.version
      version = rw version_there (u8_at-be a.version (drop 9 atom) ∙ ap some (mod-eq_of_lt byte))

      flags : u24be (drop 9 atom) ≡ some a.flags
      flags = rw flags_there (u24be-be a.flags (drop 12 atom) ∙ ap some (mod-eq_of_lt bits))

      count : u32be (drop 12 atom) ≡ some (length a.entries)
      count = rw count_there (
          u32be-be (u32 (length a.entries)) (put_entries a.entries ++ tail)
          ∙ ap some (omega (arith, few)))

-- An atom that is cut off in its entry count, after 12 to 15 bytes, makes Unmarshal panic: the
-- count is read without a test of the length.
pub unmarshal_cut : (b : Bytes) → 12 ≤ length b → length b < 16 → unmarshal b ≡ panic
unfolding unmarshal unmarshal_entries
unmarshal_cut b long short =
    let (version, v) = u8_at_total (drop 8 b) (omega (arith, length-drop 8 b)) in
    let (flags, f) = u24be_total (drop 9 b) (omega (arith, length-drop 9 b)) in
    let some_version : ltb (length b) 9 ≡ false = ground arith in
    let some_flags : ltb (length b) 12 ≡ false = ground arith in
    let cut = u32be-short (drop 12 b) (omega (arith, length-drop 12 b)) in
    rw (some_version, v, some_flags, f, cut) refl
