-- ===== src/Pak/Relisting/Reading.antt =====
-- src/pak.cpp: what `pak_listing` reads where a list was written again.
use bg3le.Common.{
  ℕ, ◌+◌, ◌*◌, ◌^◌, ◌<◌, ◌≤◌, ◌≡◌, refl, sym, ap, ◌∙◌, some, List, ◌++◌, length, ltb, ◌==◌, false,
  ◌||◌, All, arith, append_assoc, length-append, get_or,
}
use bg3le.Common.Bytes.{le_bytes, length-le_bytes}
use bg3le.Pak.Format.{Codecs, PakFile, PakListing, field, entry_size, encode_entry}
use bg3le.Pak.Read.{read_at, read_header, decode_entries, read_list_at, pak_listing, parts_of}
use bg3le.Pak.Write.{encode_all, list_block}
use bg3le.Pak.RoundTrip.{read_at_lem, counts_lem}
use bg3le.Pak.Relisting.Entries.{FitsIn, entries_lem}
use bg3le.Pak.Relisting.Header.{field_within, field_behind, read_header_again}
use bg3le.Pak.Relisting.Parts.{append_four}

counts_in_bounds :
    (count n : ℕ)
    → 0 < count
    → count ≤ 900000
    → 0 < n
    → n ≤ 2 ^ 28
    → ((count == 0) || (ltb (4 * 2 ^ 20) count || ((n == 0) || ltb (2 ^ 28) n))) ≡ false
counts_in_bounds count n h k h' k' = ground arith

-- What the reader makes of a header and of files that it can unpack.
abbrev pub relisting : List ℕ → ℕ → ℕ → ℕ → List PakFile → PakListing
relisting header version at compressed files = record {
  version = version;
  flags = get_or header 20 0;
  parts = parts_of version header;
  list_offset = at;
  list_size = field header 16 4;
  list_compressed = compressed;
  files = files;
}

module _ (codecs : Codecs) where
  open codecs use {lz4, compress, compress_size, lz4_undoes}

  read_list_at-steps :
      (f header counts packed : List ℕ) (files : List PakFile) (version size at : ℕ)
      → field header 4 4 ≡ version
      → field header 8 8 ≡ at
      → read_at f at 8 ≡ some counts
      → (field counts 0 4 ≡ length files) × (field counts 4 4 ≡ length packed)
      → ((length files == 0)
          || (ltb (4 * 2 ^ 20) (length files)
              || ((length packed == 0) || ltb (2 ^ 28) (length packed))))
        ≡ false
      → read_at f (at + 8) (length packed) ≡ some packed
      → lz4 packed (length files * size) ≡ some (encode_all (encode_entry version) files)
      → decode_entries (length files) version size (encode_all (encode_entry version) files) ≡ files
      → read_list_at codecs f header size ≡ some (relisting header version at (length packed) files)
  unfolding read_list_at
  read_list_at-steps f header counts packed files version size at is_version offset got known bounds
        read unpacked back =
      rw is_version (
        rw offset
          (rw got (rw known.0 (rw known.1 (rw bounds (rw read (rw unpacked (rw back refl))))))))

  -- The bytes of an archive whose list was written at `at`, in parts.
  pub relisted_lem :
      (x y z m b t header packed : List ℕ) (files : List PakFile) (version size at list_size : ℕ)
      → length x ≡ 8
      → length y ≡ 12
      → length z ≡ 20
      → at ≡ length (x ++ (y ++ (z ++ m)))
      → at < 2 ^ 63
      → read_header (x ++ (y ++ (z ++ b))) ≡ some header
      → field header 4 4 ≡ version
      → entry_size version ≡ some size
      → All (FitsIn version) files
      → 0 < length files
      → length files ≤ 900000
      → compress (encode_all (encode_entry version) files) ≡ some packed
      → pak_listing codecs (
          x
          ++ ((le_bytes 8 at ++ le_bytes 4 list_size)
              ++ (z ++ (m ++ (list_block (length files) packed ++ t)))))
        ≡ some (
            relisting
              (x ++ ((le_bytes 8 at ++ le_bytes 4 list_size) ++ z))
              version
              at
              (length packed)
              files)
  unfolding pak_listing list_block
  relisted_lem x y z m b t header packed files version size at list_size x_size y_size z_size start
        near magic is_version has_size fit some_files few got =
      let new = le_bytes 8 at ++ le_bytes 4 list_size in
      let two = le_bytes 4 (length files) ++ le_bytes 4 (length packed) in
      let block = list_block (length files) packed in
      let f = x ++ (new ++ (z ++ (m ++ (block ++ t)))) in
      let pre = x ++ (new ++ (z ++ m)) in
      let new_size : length new ≡ 12 = omega (
        arith,
        length-append (le_bytes 8 at) (le_bytes 4 list_size),
        length-le_bytes 8 at,
        length-le_bytes 4 list_size,
      ) in
      let two_size : 8 ≡ length two = omega (
        arith,
        length-append (le_bytes 4 (length files)) (le_bytes 4 (length packed)),
        length-le_bytes 4 (length files),
        length-le_bytes 4 (length packed),
      ) in
      let start' : at ≡ length pre = omega (
        arith,
        start,
        length-append x (y ++ (z ++ m)),
        length-append y (z ++ m),
        length-append x (new ++ (z ++ m)),
        length-append new (z ++ m),
        new_size,
        y_size,
      ) in
      let whole : f ≡ pre ++ (two ++ (packed ++ t)) =
        append_four x new z m (block ++ t)
        ∙ ap (λ (l : List ℕ). pre ++ l)
            (ap (λ (l : List ℕ). l ++ t)
                (sym (append_assoc (le_bytes 4 (length files)) (le_bytes 4 (length packed)) packed))
              ∙ append_assoc two packed t) in
      let past : at + 8 ≡ length (pre ++ two) =
        omega (arith, length-append pre two, two_size, start') in
      let behind : f ≡ (pre ++ two) ++ (packed ++ t) =
        whole ∙ sym (append_assoc pre two (packed ++ t)) in
      let (same, again) =
        read_header_again x (y ++ z) (new ++ z) b (m ++ (block ++ t)) header x_size
          (omega (arith, length-append y z, y_size, z_size))
          (omega (arith, length-append new z, new_size, z_size))
          (ap (λ (l : List ℕ). read_header (x ++ l)) (append_assoc y z b) ∙ magic) in
      let found =
        ap (λ (l : List ℕ). read_header (x ++ l)) (sym (append_assoc new z (m ++ (block ++ t))))
        ∙ again in
      let is_version' : field (x ++ (new ++ z)) 4 4 ≡ version =
        field_within x (new ++ z) x_size
        ∙ (sym (field_within x (y ++ z) x_size)
            ∙ (ap (λ (l : List ℕ). field l 4 4) (sym same) ∙ is_version)) in
      let sized_as : entry_size (field (x ++ (new ++ z)) 4 4) ≡ some size =
        ap entry_size is_version' ∙ has_size in
      let offset : field (x ++ (new ++ z)) 8 8 ≡ at =
        ap (λ (l : List ℕ). field (x ++ l) 8 8)
          (append_assoc (le_bytes 8 at) (le_bytes 4 list_size) z)
        ∙ field_behind x (le_bytes 4 list_size ++ z) at x_size near in
      let (named, (wide, (back, room))) = entries_lem codecs version size files has_size fit in
      let sized = compress_size (encode_all (encode_entry version) files) packed got in
      let small : length packed ≤ 2 ^ 28 = omega (arith, sized.1, room, few) in
      let some_bytes = sized.0 in
      let unpacked =
        ap (lz4 packed) (sym wide)
        ∙ lz4_undoes (encode_all (encode_entry version) files) packed got in
      rw found (
        rw sized_as (
          read_list_at-steps f (x ++ (new ++ z)) two packed files version size at is_version' offset
            (read_at_lem f pre two (packed ++ t) at 8 whole start' two_size)
            (counts_lem (length files) (length packed) (omega (arith, few)) (omega (arith, small)))
            (counts_in_bounds (length files) (length packed) some_files few some_bytes small)
            (read_at_lem f (pre ++ two) packed t (at + 8) (length packed) behind past refl) unpacked
            back))
