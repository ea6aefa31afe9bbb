-- ===== src/Examples/Lsf.antt =====
-- src/lsf.cpp at concrete inputs.
use bg3le.Common.{
  ℕ, ◌≡◌, ◌≢◌, refl, true, Option, none, some, List, [], ◌∷◌, ◌++◌, replicate, arith, length, ok,
  stuck,
}
use bg3le.Common.Bytes.{le_value}
use bg3le.Pak.Format.{Codecs}
use bg3le.Lsf.Document.{LsfDocument}
use bg3le.Lsf.Names.{read_names, string_values}
use bg3le.Lsf.Read.{lsf_read}
use bg3le.Lsf.Write.{put_bytes, new_metadata, lsf_write}
use bg3le.Lsf.Sections.{lz4_frame}
use bg3le.Lsf.Frames.{lz4_frame_lem}
use bg3le.Lsf.RoundTrip.Whole.{IsWhole}
use bg3le.Lsf.RoundTrip.{lsf_read-lsf_write}

none-ne-some : (ys : List ℕ) → ◌≢◌ {A = Option (List ℕ)} none (some ys)
none-ne-some ys e = cc

-- Nothing here is packed.
abbrev no_codecs : Codecs
no_codecs = record {
  compress = λ xs. none;
  lz4 = λ xs n. none;
  zstd = λ xs n. none;
  compress_size = λ xs ys e. absurd (none-ne-some ys e);
  lz4_undoes = λ xs ys e. absurd (none-ne-some ys e);
}

-- Version 7 with one attribute, the string "ab" named "Name".
abbrev one_string : LsfDocument
one_string = record {
  prefix =
      (b'L' ∷ b'S' ∷ b'O' ∷ b'F' ∷ 7 ∷ 0 ∷ 0 ∷ 0 ∷ [])
      ++ (replicate 8 0 ++ (replicate 44 0 ++ (1 ∷ 0 ∷ 0 ∷ 0 ∷ [])));
  metadata_at = 16;
  version = 7;
  has_keys = true;
  strings = 1 ∷ 0 ∷ 0 ∷ 0 ∷ 1 ∷ 0 ∷ 4 ∷ 0 ∷ b'N' ∷ b'a' ∷ b'm' ∷ b'e' ∷ [];
  nodes = 1 ∷ 2 ∷ 3 ∷ [];
  attributes = 0 ∷ 0 ∷ 0 ∷ 0 ∷ 212 ∷ 0 ∷ 0 ∷ 0 ∷ 0 ∷ 0 ∷ 0 ∷ 0 ∷ 0 ∷ 0 ∷ 0 ∷ 0 ∷ [];
  values = b'a' ∷ b'b' ∷ 0 ∷ [];
  keys = 9 ∷ [];
  string_values =
      record { offset = 0; length = 2; attribute = b'N' ∷ b'a' ∷ b'm' ∷ b'e' ∷ [] } ∷ [];
}

one_string-IsWhole : IsWhole one_string
unfolding read_names string_values le_value
one_string-IsWhole = record {
  known = (omega arith, omega arith);
  marked = refl;
  versioned = refl;
  at_place = refl;
  whole = refl;
  strings_fit = omega arith;
  nodes_fit = omega arith;
  attributes_fit = omega arith;
  values_fit = omega arith;
  keys_fit = omega arith;
  keyed = refl;
  no_keys = λ e. cc;
  names = ((b'N' ∷ b'a' ∷ b'm' ∷ b'e' ∷ []) ∷ []) ∷ [];
  named = refl;
  found = refl;
}

lsf_read-lsf_write_example :
    lsf_read no_codecs (λ block room dict. none) (lsf_write one_string)
    ≡ some (record one_string { prefix = put_bytes 16 (new_metadata one_string) one_string.prefix })
lsf_read-lsf_write_example =
    lsf_read-lsf_write no_codecs (λ block room dict. none) one_string one_string-IsWhole

-- A frame of one stored block, "abc".
abbrev stored_frame : List ℕ
stored_frame =
    4 ∷ 0x22 ∷ 0x4d ∷ 0x18 ∷ 0x40 ∷ 0x40 ∷ 0 ∷ 3 ∷ 0 ∷ 0 ∷ 0x80 ∷ b'a' ∷ b'b' ∷ b'c' ∷ 0 ∷ 0 ∷ 0 ∷ 0
    ∷ []

lz4_frame_example :
    (lz4_frame no_codecs (λ block room dict. none) stored_frame 3 ≢ stuck)
    × ((out : List ℕ)
        → lz4_frame no_codecs (λ block room dict. none) stored_frame 3 ≡ ok out
        → length out ≡ 3)
lz4_frame_example = lz4_frame_lem no_codecs (λ block room dict. none) stored_frame 3

stored_frame_unpacked :
    lz4_frame no_codecs (λ block room dict. none) stored_frame 3 ≡ ok (b'a' ∷ b'b' ∷ b'c' ∷ [])
unfolding lz4_frame le_value
stored_frame_unpacked = refl
