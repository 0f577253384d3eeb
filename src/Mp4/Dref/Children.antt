-- ===== src/Mp4/Dref/Children.antt =====
-- The loop over the children of a data reference atom: a round trip, and a child of size 0.
use gomedia.Common.{
  ℕ, zero, suc, ◌+◌, ◌^◌, ◌<◌, ◌≡◌, refl, ap, ◌∙◌, arith, true, false, Option, none, some, [], ◌++◌,
  length, length-drop, drop, take, ltb, ◌==◌, IsByte,
}
use native.Mathlib.Nat.{mod-eq_of_lt}
use gomedia.Common.Run.{ret, stuck, next, loop, loop-zero, loop-next, loop-done}
use gomedia.Pio.{Bytes, u8_at, u24be, u32be}
use gomedia.Pio.Laws.{be, u8_at-be, u8_at_total, u24be_total, u24be-be, u32be-be}
use gomedia.Mp4.{parsed}
use gomedia.Mp4.Dref.{
  DataReferUrl, DataRefer, url_tag, url_body, marshal_url, child_bytes, dref_body, marshal_dref,
  len_child, len_dref, unmarshal_url, keep_url, walk_child, walk_round, dref_of, unmarshal_dref,
}

-- A child that says it has no bytes, and is no url atom, leaves the loop where it is.
walk_forever :
    (b : Bytes) (tag : ℕ) (url : Option DataReferUrl)
    → 24 < length b
    → u32be (drop 20 b) ≡ some tag
    → tag == url_tag ≡ false
    → u32be (drop 16 b) ≡ some 0
    → (fuel : ℕ) → loop (walk_round b) fuel (16, url) ≡ stuck
walk_forever b tag url long tagged other empty zero = loop-zero (walk_round b) (16, url)
walk_forever b tag url long tagged other empty (suc fuel) =
    loop-next (walk_round b) fuel (16, url) stays
    ∙ walk_forever b tag url long tagged other empty fuel
  where
    stays : walk_round b (16, url) ≡ ret (next (16, url))
    stays =
        unfold walk_round walk_child in
        let more : ltb 24 (length b) ≡ true = ground (arith, long) in
        let fits : ltb (length b) 16 ≡ false = ground (arith, long) in
        rw (more, tagged, empty, fits, other) refl

-- Unmarshal of a data reference atom never returns where its first child says that it has no bytes,
-- and is no url atom, and anything stands behind the eight bytes of its header: no count of rounds
-- of the loop is enough.
pub unmarshal_dref-stuck :
    (b : Bytes) (tag : ℕ)
    → 24 < length b
    → u32be (drop 20 b) ≡ some tag
    → tag == url_tag ≡ false
    → u32be (drop 16 b) ≡ some 0
    → (fuel : ℕ) → unmarshal_dref fuel b ≡ stuck
unfolding unmarshal_dref
unmarshal_dref-stuck b tag long tagged other empty fuel =
    let (version, v) = u8_at_total (drop 8 b) (omega (arith, length-drop 8 b)) in
    let (flags, f) = u24be_total (drop 9 b) (omega (arith, length-drop 9 b)) in
    let some_version : ltb (length b) 9 ≡ false = ground (arith, long) in
    let some_flags : ltb (length b) 12 ≡ false = ground (arith, long) in
    rw (some_version, v, some_flags, f, walk_forever b tag none long tagged other empty fuel) refl

-- Unmarshal reads back what Marshal wrote.
abbrev pub IsUrl : DataReferUrl → Type 0
IsUrl u = IsByte u.version × (u.flags < 2 ^ 24)

abbrev pub HasUrl : Option DataReferUrl → Type 0
HasUrl none = Unit
HasUrl (some u) = IsUrl u

unmarshal_url-marshal_url :
    (u : DataReferUrl) → IsUrl u → unmarshal_url (marshal_url u) ≡ ret (parsed 12 u)
unfolding unmarshal_url marshal_url url_body be
unmarshal_url-marshal_url u (byte, bits) =
    rw
      (u8_at-be u.version (be 3 u.flags), mod-eq_of_lt byte, u24be-be u.flags [], mod-eq_of_lt bits)
      refl

-- The two rounds at most over the children that Marshal wrote.
walk-child_bytes :
    (v f : ℕ) (url : Option DataReferUrl)
    → HasUrl url
    → (fuel : ℕ)
    → loop
        (walk_round (marshal_dref (record { version = v; flags = f; url = url })))
        (suc (suc fuel))
        (16, none)
      ≡ ret (parsed (16 + len_child url) url)
walk-child_bytes v f none _ fuel =
    loop-done (walk_round _) (suc fuel) (16, none)
      (unfold walk_round marshal_dref dref_body child_bytes len_child be in refl)
walk-child_bytes v f (some u) ok fuel =
    loop-next (walk_round bytes) (suc fuel) (16, none) child
    ∙ loop-done (walk_round bytes) fuel (28, some u)
        (unfold walk_round marshal_dref dref_body child_bytes marshal_url url_body len_child be in
          refl)
  where
    bytes : Bytes
    bytes = marshal_dref (record { version = v; flags = f; url = some u })

    cut : take 12 (drop 16 bytes) ≡ marshal_url u
    cut = unfold marshal_dref dref_body child_bytes marshal_url url_body be in refl

    tagged : u32be (drop 20 bytes) ≡ some url_tag
    tagged =
        unfold marshal_dref dref_body child_bytes marshal_url be in u32be-be url_tag (url_body u)

    sized : u32be (drop 16 bytes) ≡ some 12
    sized =
        unfold marshal_dref dref_body child_bytes marshal_url url_body be in
        u32be-be 12 (be 4 url_tag ++ url_body u)

    long : length bytes ≡ 28
    long = unfold marshal_dref dref_body child_bytes marshal_url url_body be in refl

    child : walk_round bytes (16, none) ≡ ret (next (28, some u))
    child =
        unfold walk_round walk_child keep_url in
        rw (long, tagged, sized, cut, unmarshal_url-marshal_url u ok) refl

-- Unmarshal reads the data reference atom that Marshal wrote, with or without a url atom, in two
-- rounds of its loop at most, and Len is the number of bytes: for versions of a byte and flags of 24
-- bits.
pub unmarshal_dref-marshal_dref :
    (a : DataRefer)
    → IsByte a.version
    → a.flags < 2 ^ 24
    → HasUrl a.url
    → (fuel : ℕ)
    → (unmarshal_dref (suc (suc fuel)) (marshal_dref a) ≡ ret (parsed (len_dref a) a))
      × (length (marshal_dref a) ≡ len_dref a)
unmarshal_dref-marshal_dref a byte bits ok fuel =
    (read, (unfold marshal_dref len_dref in size a.url))
  where
    size :
        (url : Option DataReferUrl)
        → length (marshal_dref (record { version = a.version; flags = a.flags; url = url }))
          ≡ 16 + len_child url
    size none = unfold marshal_dref dref_body child_bytes len_child be in refl
    size (some u) =
        unfold marshal_dref dref_body child_bytes marshal_url url_body len_child be in refl

    version : u8_at (drop 8 (marshal_dref a)) ≡ some a.version
    version =
        unfold marshal_dref dref_body be in
        u8_at-be a.version (drop 9 (marshal_dref a)) ∙ ap some (mod-eq_of_lt byte)

    flags : u24be (drop 9 (marshal_dref a)) ≡ some a.flags
    flags =
        unfold marshal_dref dref_body be in
        u24be-be a.flags (drop 12 (marshal_dref a)) ∙ ap some (mod-eq_of_lt bits)

    read : unmarshal_dref (suc (suc fuel)) (marshal_dref a) ≡ ret (parsed (len_dref a) a)
    read =
        unfold unmarshal_dref dref_of len_dref in
        let some_version : ltb (length (marshal_dref a)) 9 ≡ false = ground (arith, size a.url) in
        let some_flags : ltb (length (marshal_dref a)) 12 ≡ false = ground (arith, size a.url) in
        rw
          (
            some_version,
            version,
            some_flags,
            flags,
            walk-child_bytes a.version a.flags a.url ok fuel,
          )
          refl
