-- ===== src/Pak/Format.antt =====
-- src/pak.h and src/pak.cpp: the structures, the entries' two layouts, and the codecs.
use bg3le.Common.{
  ℕ, ◌+◌, ◌-◌, ◌*◌, ◌%◌, ◌/◌, ◌^◌, ◌<◌, ◌≤◌, ◌≡◌, bit_or, Option, none, some, List, [], ◌∷◌, ◌++◌,
  length, take, drop, replicate, ◌==◌, if◌then◌else◌,
}
use bg3le.Common.Bytes.{le_bytes, le_value}

-- What the code relies on of LZ4 and zstd. `compress` is `LZ4_compress_default` into a buffer of
-- `LZ4_compressBound` bytes, `none` where it answers 0 or less; the decompressors are given the
-- exact size that they have to produce, and answer `none` for any other. `LZ4_compressBound` is the
-- size, its 255th part and 16.
pub record Codecs : Type 0 where
  pub compress : List ℕ → Option (List ℕ)
  pub lz4 : List ℕ → ℕ → Option (List ℕ)
  pub zstd : List ℕ → ℕ → Option (List ℕ)
  pub compress_size :
      (xs ys : List ℕ)
      → compress xs ≡ some ys
      → (0 < length ys) × (length ys ≤ length xs + length xs / 255 + 16)
  pub lz4_undoes : (xs ys : List ℕ) → compress xs ≡ some ys → lz4 ys (length xs) ≡ some xs

pub record PakFile : Type 0 where
  pub name : List ℕ
  pub offset : ℕ
  pub size_on_disk : ℕ
  pub uncompressed_size : ℕ
  pub flags : ℕ
  pub part : ℕ
  pub crc : ℕ

pub record PakListing : Type 0 where
  pub version : ℕ
  pub flags : ℕ
  pub parts : ℕ
  pub list_offset : ℕ
  pub list_size : ℕ
  pub list_compressed : ℕ
  pub files : List PakFile

-- `memcpy` of an integer of `n` bytes from `bytes + at`.
abbrev pub field : List ℕ → ℕ → ℕ → ℕ
field bytes at n = le_value (take n (drop at bytes))

-- The characters before the first null byte.
unfoldable pub c_string : List ℕ → List ℕ
c_string [] = []
c_string (c ∷ s) = let rest = c_string s in if c == 0 then [] else c ∷ rest

-- `e.Name`, 256 bytes that were zeros.
unfoldable pub name_field : List ℕ → List ℕ
name_field name = name ++ replicate (256 - length name) 0

abbrev pub entry18_size : ℕ
entry18_size = 272

abbrev pub entry15_size : ℕ
entry15_size = 296

-- `Entry18` into a `PakFile`.
unfoldable pub decode18 : List ℕ → PakFile
unfolding c_string le_value
decode18 raw = record {
  name = c_string (take 256 raw);
  offset = bit_or (field raw 256 4) (field raw 260 2 * 2 ^ 32);
  part = field raw 262 1;
  flags = field raw 263 1;
  size_on_disk = field raw 264 4;
  uncompressed_size = field raw 268 4;
  crc = 0;
}

unfoldable pub decode15 : List ℕ → PakFile
unfolding c_string le_value
decode15 raw = record {
  name = c_string (take 256 raw);
  offset = field raw 256 8;
  size_on_disk = field raw 264 8;
  uncompressed_size = field raw 272 8;
  part = field raw 280 4;
  flags = field raw 284 4 % 256;
  crc = field raw 288 4;
}

-- A `PakFile` as an `Entry18`: the low 32 bits of the offset, then the next 16.
unfoldable pub encode18 : PakFile → List ℕ
unfolding name_field le_bytes
encode18 file =
    name_field file.name
    ++ (le_bytes 4 (file.offset % 2 ^ 32)
        ++ (le_bytes 2 (file.offset / 2 ^ 32)
            ++ (le_bytes 1 file.part
                ++ (le_bytes 1 file.flags
                    ++ (le_bytes 4 file.size_on_disk ++ le_bytes 4 file.uncompressed_size)))))

unfoldable pub encode15 : PakFile → List ℕ
unfolding name_field le_bytes
encode15 file =
    name_field file.name
    ++ (le_bytes 8 file.offset
        ++ (le_bytes 8 file.size_on_disk
            ++ (le_bytes 8 file.uncompressed_size
                ++ (le_bytes 4 file.part
                    ++ (le_bytes 4 file.flags ++ (le_bytes 4 file.crc ++ le_bytes 4 0))))))

-- The sizes of entries that the versions have.
unfoldable pub entry_size : ℕ → Option ℕ
entry_size version =
    if version == 18
    then some entry18_size
    else if version == 15
    then some entry15_size
    else if version == 16
    then some entry15_size
    else none

unfoldable pub decode_entry : ℕ → List ℕ → PakFile
decode_entry version raw = if version == 18 then decode18 raw else decode15 raw

unfoldable pub encode_entry : ℕ → PakFile → List ℕ
encode_entry version file = if version == 18 then encode18 file else encode15 file
