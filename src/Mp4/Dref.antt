-- ===== src/Mp4/Dref.antt =====
-- format/mp4/mp4io/dref.go and url.go: the data reference atom and the child that it may hold.
pub mod Children
use gomedia.Common.{
  ℕ, zero, suc, ◌+◌, ◌*◌, u32, Option, none, some, List, [], ◌∷◌, ◌++◌, length, take, drop, ltb,
  ◌==◌, if◌then◌else◌,
}
use gomedia.Common.Run.{Run, ret, ◌>>=◌, index, Round, next, done, loop}
use gomedia.Pio.{Bytes, u8_at, u24be, u32be}
use gomedia.Pio.Laws.{be}
use gomedia.Mp4.{ParseError, in_version, in_flags, in_size, in_child, Parsed, parsed, failed}

pub record DataReferUrl : Type 0 where
  pub version : ℕ
  pub flags : ℕ

pub record DataRefer : Type 0 where
  pub version : ℕ
  pub flags : ℕ
  pub url : Option DataReferUrl

abbrev pub url_tag : ℕ
url_tag = 0x75726c20

unfoldable pub url_body : DataReferUrl → Bytes
url_body u = be 1 u.version ++ be 3 u.flags

unfoldable pub marshal_url : DataReferUrl → Bytes
marshal_url u = be 4 (u32 (length (url_body u) + 8)) ++ (be 4 url_tag ++ url_body u)

-- What the optional child adds: its bytes, and itself to the count of children.
unfoldable pub child_bytes : Option DataReferUrl → Bytes
child_bytes none = []
child_bytes (some u) = marshal_url u

unfoldable pub children_nr : Option DataReferUrl → ℕ
children_nr none = 0
children_nr (some u) = 1

unfoldable pub dref_body : DataRefer → Bytes
dref_body a = be 1 a.version ++ (be 3 a.flags ++ (be 4 (children_nr a.url) ++ child_bytes a.url))

unfoldable pub marshal_dref : DataRefer → Bytes
marshal_dref a = be 4 (u32 (length (dref_body a) + 8)) ++ (be 4 0x64726566 ++ dref_body a)

abbrev pub len_url : ℕ
len_url = 8 + 1 + 3

unfoldable pub len_child : Option DataReferUrl → ℕ
len_child none = 0
len_child (some u) = len_url

unfoldable pub len_dref : DataRefer → ℕ
len_dref a = 8 + 1 + 3 + 4 + len_child a.url

unfoldable pub unmarshal_url : Bytes → Run (Parsed DataReferUrl)
unmarshal_url b = if ltb (length b) 9 then ret (failed in_version) else (do
  version ← index (u8_at (drop 8 b))
  if ltb (length b) 12 then ret (failed in_flags) else (do
    flags ← index (u24be (drop 9 b))
    ret (parsed 12 (record { version = version; flags = flags }))))

-- The loop over the children: where it stands, and the child found so far.
abbrev pub Walk : Type 0
Walk = ℕ × Option DataReferUrl

abbrev pub Walked : Type 0
Walked = Round Walk (Parsed (Option DataReferUrl))

unfoldable pub keep_url : ℕ → Parsed DataReferUrl → Walked
keep_url n (parsed _ u) = next (n, some u)
keep_url n (failed e) = done (failed (in_child e))

unfoldable pub walk_child : Bytes → ℕ → ℕ → Walk → Run Walked
walk_child b tag size (n, url) =
    if ltb (length b) (n + size)
    then ret (done (failed in_size))
    else if tag == url_tag
    then (do r ← unmarshal_url (take size (drop n b)); ret (keep_url (n + size) r))
    else ret (next (n + size, url))

unfoldable pub walk_round : Bytes → Walk → Run Walked
walk_round b (n, url) =
    if ltb (n + 8) (length b)
    then (do
      tag ← index (u32be (drop (n + 4) b))
      size ← index (u32be (drop n b))
      walk_child b tag size (n, url))
    else ret (done (parsed n url))

unfoldable pub dref_of : ℕ → ℕ → Parsed (Option DataReferUrl) → Parsed DataRefer
dref_of version flags (parsed n url) =
    parsed n (record { version = version; flags = flags; url = url })
dref_of version flags (failed e) = failed e

-- Unmarshal, with so many rounds of its loop.
unfoldable pub unmarshal_dref : ℕ → Bytes → Run (Parsed DataRefer)
unmarshal_dref fuel b = if ltb (length b) 9 then ret (failed in_version) else (do
  version ← index (u8_at (drop 8 b))
  if ltb (length b) 12 then ret (failed in_flags) else (do
    flags ← index (u24be (drop 9 b))
    r ← loop (walk_round b) fuel (16, none)
    ret (dref_of version flags r)))
