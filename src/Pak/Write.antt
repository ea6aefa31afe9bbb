-- ===== src/Pak/Write.antt =====
-- src/pak.cpp: `pak_write` and `pak_write_listing`.
use bg3le.Common.{
  ℕ, ◌+◌, ◌-◌, ◌%◌, ◌^◌, Option, none, some, List, [], ◌∷◌, ◌++◌, length, take, drop, replicate,
  leb, if◌then◌else◌, ◌>>=◌,
}
use bg3le.Common.Bytes.{le_bytes}
use bg3le.Pak.Format.{Codecs, PakFile, PakListing, encode18, encode_entry}
use bg3le.Pak.Read.{lspk}

-- The contents to store: names with their bytes.
abbrev pub Contents : Type 0
Contents = List (List ℕ × List ℕ)

abbrev pub stored_file : List ℕ → List ℕ → ℕ → PakFile
stored_file name bytes at = record {
  name = name;
  offset = at;
  size_on_disk = length bytes;
  uncompressed_size = 0;
  flags = 0;
  part = 0;
  crc = 0;
}

-- The loop over the files: the entries, and the bytes written behind `at`. A name of 256 bytes or
-- more ends it.
unfoldable pub store_files : Contents → ℕ → Option (List PakFile × List ℕ)
store_files [] at = some ([], [])
store_files ((name, bytes) ∷ files) at = do
  (entries, written) ← store_files files (at + length bytes)
  if leb 256 (length name)
      then none
      else some (stored_file name bytes at ∷ entries, bytes ++ written)

unfoldable pub encode_all : (PakFile → List ℕ) → List PakFile → List ℕ
encode_all encode [] = []
encode_all encode (file ∷ files) = encode file ++ encode_all encode files

-- Magic, version, where the list stands and its size with the two counts; the part count is last.
unfoldable pub header18 : ℕ → ℕ → List ℕ
unfolding le_bytes
header18 list_offset compressed =
    lspk
    ++ (le_bytes 4 18
        ++ (le_bytes 8 list_offset
            ++ (le_bytes 4 (compressed + 8) ++ (replicate 18 0 ++ le_bytes 2 1))))

-- The list: the two counts and the packed entries.
unfoldable pub list_block : ℕ → List ℕ → List ℕ
list_block count packed = le_bytes 4 count ++ (le_bytes 4 (length packed) ++ packed)

module _ (codecs : Codecs) where
  open codecs use {compress}

  unfoldable pub pak_write : Contents → Option (List ℕ)
  unfolding store_files encode_all encode18 header18 list_block
  pak_write files = do
    (entries, written) ← store_files files 40
    packed ← compress (encode_all encode18 entries)
    some (
        header18 (40 + length written) (length packed)
        ++ (written ++ list_block (length entries) packed))

  -- `fseek(at)` and `fwrite` over a file of at least `at` bytes.
  abbrev pub overwrite : ℕ → List ℕ → List ℕ → List ℕ
  overwrite at bytes f = take at f ++ (bytes ++ drop (at + length bytes) f)

  abbrev pub names_fit : List PakFile → Option (List PakFile)
  names_fit [] = some []
  names_fit (file ∷ files) = do
    rest ← names_fit files
    if leb 256 (length file.name) then none else some (file ∷ rest)

  -- The list at `at`, and its place and size in the header. The header's size keeps its relation to
  -- the compressed size, in 32 bits.
  unfoldable pub pak_write_listing : List ℕ → ℕ → PakListing → Option (List ℕ)
  unfolding encode_all encode_entry list_block
  pak_write_listing f at listing = do
    files ← names_fit listing.files
    packed ← compress (encode_all (encode_entry listing.version) files)
    let size = (length packed + (listing.list_size + 2 ^ 32 - listing.list_compressed)) % 2 ^ 32
    some (
        overwrite 8 (le_bytes 8 at ++ le_bytes 4 size)
          (overwrite at (list_block (length files) packed) f))
