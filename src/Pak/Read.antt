-- ===== src/Pak/Read.antt =====
-- src/pak.cpp: `pak_listing`, `pak_file_read`, `pak_file_empty` and `pak_priority`.
use bg3le.Common.{
  ℕ, zero, suc, ◌+◌, ◌*◌, ◌%◌, ◌^◌, Bool, true, false, ◌&&◌, ◌||◌, not, Option, none, some, List,
  [], ◌∷◌, length, take, drop, get_or, ltb, ◌==◌, if◌then◌else◌, ◌>>=◌, Run, ok, fail, stuck,
}
use bg3le.Inflate.Stream.{inflate}
use bg3le.Pak.Format.{Codecs, PakFile, PakListing, field, entry_size, decode_entry}

abbrev pub max_files : ℕ
max_files = 4 * 2 ^ 20

abbrev pub max_list_bytes : ℕ
max_list_bytes = 2 ^ 28

abbrev pub max_file_bytes : ℕ
max_file_bytes = 2 ^ 28

-- `read_at`, and an `fread` behind it: `n` bytes from `at`, if they are there.
unfoldable pub read_at : List ℕ → ℕ → ℕ → Option (List ℕ)
read_at f at n = if ltb (length f) (at + n) then none else some (take n (drop at f))

abbrev pub same_bytes : List ℕ → List ℕ → Bool
same_bytes [] [] = true
same_bytes [] (y ∷ ys) = false
same_bytes (x ∷ xs) [] = false
same_bytes (x ∷ xs) (y ∷ ys) = (x == y) && same_bytes xs ys

abbrev pub lspk : List ℕ
lspk = b'L' ∷ b'S' ∷ b'P' ∷ b'K' ∷ []

-- The 40 bytes of the header, if the archive has them and they begin with the magic.
unfoldable pub read_header : List ℕ → Option (List ℕ)
unfolding read_at
read_header f = do
  header ← read_at f 0 40
  if same_bytes (take 4 header) lspk then some header else none

-- The loop over the entries of the list.
unfoldable pub decode_entries : ℕ → ℕ → ℕ → List ℕ → List PakFile
decode_entries zero version size list = []
decode_entries (suc n) version size list =
    decode_entry version (take size list) ∷ decode_entries n version size (drop size list)

-- 18 records the part count in the header; `listing.Parts` is 1 otherwise.
abbrev pub parts_of : ℕ → List ℕ → ℕ
parts_of version header = if version == 18 then field header 38 2 else 1

abbrev pub of_inflate : Run (List ℕ) → Option (List ℕ)
of_inflate (ok out) = some out
of_inflate fail = none
of_inflate stuck = none

module _ (codecs : Codecs) where
  open codecs use {lz4, zstd}

  -- The file list behind the header.
  unfoldable pub read_list_at : List ℕ → List ℕ → ℕ → Option PakListing
  read_list_at f header size = do
    let version = field header 4 4
    let at = field header 8 8
    counts ← read_at f at 8
    let count = field counts 0 4
    let compressed = field counts 4 4
    if (count == 0) || (ltb max_files count || ((compressed == 0) || ltb max_list_bytes compressed))
        then none
        else do
          packed ← read_at f (at + 8) compressed
          list ← lz4 packed (count * size)
          some (record {
            version = version;
            flags = get_or header 20 0;
            parts = parts_of version header;
            list_offset = at;
            list_size = field header 16 4;
            list_compressed = compressed;
            files = decode_entries count version size list;
          })

  unfoldable pub pak_listing : List ℕ → Option PakListing
  unfolding read_list_at read_header
  pak_listing f = do
    header ← read_header f
    size ← entry_size (field header 4 4)
    read_list_at f header size

  -- `switch (e.Flags & kMethodMask)`. A stored entry leaves the uncompressed size at zero.
  unfoldable pub unpack : ℕ → ℕ → List ℕ → Option (List ℕ)
  unpack method size raw =
      if method == 0
      then some raw
      else if method == 2
      then lz4 raw size
      else if method == 1
      then of_inflate (inflate raw size)
      else if method == 3
      then zstd raw size
      else none

  -- `pak_file_read`, by `read_entry`.
  unfoldable pub pak_file_read : List ℕ → PakFile → Option (List ℕ)
  unfolding read_at unpack
  pak_file_read f file =
      if (file.size_on_disk == 0)
        || (ltb max_file_bytes file.size_on_disk || ltb max_file_bytes file.uncompressed_size)
      then none
      else do
        raw ← read_at f file.offset file.size_on_disk
        unpack (file.flags % 16) file.uncompressed_size raw

unfoldable pub pak_file_empty : PakFile → Bool
pak_file_empty file =
    (file.size_on_disk == 0) || (not (file.flags % 16 == 0) && (file.uncompressed_size == 0))

-- 15 and 16 have no priority field.
unfoldable pub pak_priority : List ℕ → Option ℕ
unfolding read_header
pak_priority f = do
  header ← read_header f
  if field header 4 4 == 18
      then some (get_or header 21 0)
      else if (field header 4 4 == 15) || (field header 4 4 == 16)
      then some 0
      else none
