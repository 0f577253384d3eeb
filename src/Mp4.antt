-- ===== src/Mp4.antt =====
-- format/mp4/mp4io: the time-to-sample atom of stts.go, and its entries in atoms.go. The bytes that
-- Marshal writes stand for the writes to a buffer of Len bytes; AtomPos is left out. Mp4/Dref has the data reference atom.
pub mod Stts
pub mod Dref
mod Examples
use gomedia.Common.{
  ℕ, zero, suc, ◌+◌, ◌*◌, u8, u32, List, [], ◌∷◌, ◌++◌, length, drop, ltb, if◌then◌else◌,
}
use gomedia.Common.Run.{Run, ret, ◌>>=◌, index}
use gomedia.Pio.{Bytes, u8_at, u24be, u32be}
use gomedia.Pio.Laws.{be}

pub record TimeToSampleEntry : Type 0 where
  pub count : ℕ
  pub duration : ℕ

abbrev pub len_time_to_sample_entry : ℕ
len_time_to_sample_entry = 8

pub record TimeToSample : Type 0 where
  pub version : ℕ
  pub flags : ℕ
  pub entries : List TimeToSampleEntry

-- The parse error of the named part, of the size of a child, or around that of a child.
pub data ParseError : Type 0 where
  in_version in_flags in_entry in_size : ParseError
  in_child : ParseError → ParseError

pub data Parsed (A : Type 0) : Type 0 where
  parsed : ℕ → A → Parsed A
  failed : ParseError → Parsed A

unfoldable pub put_entries : List TimeToSampleEntry → Bytes
put_entries [] = []
put_entries (e ∷ es) = be 4 e.count ++ (be 4 e.duration ++ put_entries es)

-- `marshal`, and Marshal with the size and the tag before it
unfoldable pub marshal_body : TimeToSample → Bytes
marshal_body a =
    be 1 a.version ++ (be 3 a.flags ++ (be 4 (u32 (length a.entries)) ++ put_entries a.entries))

unfoldable pub marshal : TimeToSample → Bytes
marshal a = be 4 (u32 (length (marshal_body a) + 8)) ++ (be 4 0x73747473 ++ marshal_body a)

unfoldable pub len : TimeToSample → ℕ
len a = 8 + 1 + 3 + 4 + len_time_to_sample_entry * length a.entries

unfoldable pub get_entry : Bytes → Run TimeToSampleEntry
get_entry b = do
  count ← index (u32be b)
  duration ← index (u32be (drop 4 b))
  ret (record { count = count; duration = duration })

unfoldable pub get_entries : ℕ → Bytes → Run (List TimeToSampleEntry)
get_entries zero b = ret []
get_entries (suc k) b = do
  e ← get_entry b
  es ← get_entries k (drop len_time_to_sample_entry b)
  ret (e ∷ es)

-- The rest of Unmarshal, behind the flags. The source makes room for all entries that the count
-- names before it tests the length, and may run out of memory there.
unfoldable pub unmarshal_entries : ℕ → ℕ → Bytes → Run (Parsed TimeToSample)
unmarshal_entries version flags b = do
  count ← index (u32be (drop 12 b))
  if ltb (length b) (16 + len_time_to_sample_entry * count) then ret (failed in_entry) else (do
    entries ← get_entries count (drop 16 b)
    ret (
        parsed (16 + len_time_to_sample_entry * count)
          (record { version = version; flags = flags; entries = entries })))

unfoldable pub unmarshal : Bytes → Run (Parsed TimeToSample)
unmarshal b = if ltb (length b) 9 then ret (failed in_version) else (do
  version ← index (u8_at (drop 8 b))
  if ltb (length b) 12
      then ret (failed in_flags)
      else (do flags ← index (u24be (drop 9 b)); unmarshal_entries version flags b))
