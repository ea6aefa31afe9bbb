-- ===== src/Pak/RoundTrip.antt =====
-- src/pak.cpp: what `pak_write` wrote is what `pak_listing` lists and `pak_file_read` reads.
use bg3le.Common.{
  ℕ, suc, ◌+◌, ◌*◌, ◌^◌, ◌<◌, ◌≤◌, ◌≡◌, refl, sym, ap, ◌∙◌, Option, none, some, List, [], ◌∷◌, ◌++◌,
  length, take, drop, ltb, leb, ◌==◌, if◌then◌else◌, ◌>>=◌, false, ◌||◌, All, arith, append_assoc,
  append-nil, take-append, drop-append, length-append, Bool-cases, >>=-eq-some, inl, inr, get_or,
}
use mathlib.Core.List.{map}
use mathlib.Core.Option.{some-injective}
use mathlib.Core.Option
use bg3le.Common.Bytes.{le_bytes, le_value, length-le_bytes, le_value-le_bytes}
use bg3le.Pak.Format.{
  Codecs, PakFile, PakListing, field, entry_size, encode18, decode_entry, name_field,
}
use bg3le.Pak.Read.{
  read_at, read_header, decode_entries, read_list_at, pak_listing, unpack, pak_file_read,
}
use bg3le.Pak.Write.{
  Contents, stored_file, store_files, encode_all, header18, list_block, pak_write,
}
use bg3le.Pak.Entries.{NameFits, Fits18, length-name_field, decode18-encode18}

-- A file that can be stored: its name fits, and it is no larger than the reader takes.
unfoldable pub FileFits : List ℕ × List ℕ → Type 0
FileFits (name, bytes) = NameFits name × (length bytes ≤ 2 ^ 28)

-- The contents behind each other, and the entries of files stored from a place on.
abbrev contents : Contents → List ℕ
contents [] = []
contents ((name, bytes) ∷ files) = bytes ++ contents files

abbrev pub placed : Contents → ℕ → List PakFile
placed [] at = []
placed ((name, bytes) ∷ files) at = stored_file name bytes at ∷ placed files (at + length bytes)

-- An empty file has no contents to read.
abbrev pub read_back : List ℕ × List ℕ → Option (List ℕ)
read_back (name, bytes) = if length bytes == 0 then none else some bytes

abbrev pub archive_of : ℕ → List ℕ → List ℕ → List ℕ
archive_of count written packed =
    header18 (40 + length written) (length packed) ++ (written ++ list_block count packed)

store_files_lem :
    (files : Contents) (at : ℕ)
    → All FileFits files
    → store_files files at ≡ some (placed files at, contents files)
unfolding store_files FileFits NameFits
store_files_lem [] at h = refl
store_files_lem ((name, bytes) ∷ files) at h =
    let short : leb 256 (length name) ≡ false = ground arith in
    rw (store_files_lem files (at + length bytes) h.1) (rw short refl)

length-contents :
    (files : Contents) → All FileFits files → length (contents files) ≤ length files * 2 ^ 28
unfolding FileFits
length-contents [] h = omega arith
length-contents ((name, bytes) ∷ files) h =
    omega (arith, length-append bytes (contents files), length-contents files h.1, h.0.1)

length-placed : (files : Contents) (at : ℕ) → length (placed files at) ≡ length files
length-placed [] at = refl
length-placed ((name, bytes) ∷ files) at = ap suc (length-placed files (at + length bytes))

placed-Fits18 :
    (files : Contents) (at : ℕ)
    → All FileFits files
    → at + length (contents files) < 256 ^ 6
    → All Fits18 (placed files at)
unfolding FileFits Fits18
placed-Fits18 [] at h small = tt
placed-Fits18 ((name, bytes) ∷ files) at h small =
    let both = length-append bytes (contents files) in
    (
      (
        h.0.0,
        omega (arith, both),
        omega arith,
        omega arith,
        omega (arith, h.0.1),
        omega arith,
        refl,
      ),
      placed-Fits18 files (at + length bytes) h.1 (omega (arith, both)),
    )

pub length-encode18 : (file : PakFile) → length file.name < 256 → length (encode18 file) ≡ 272
unfolding encode18 le_bytes
length-encode18 file h =
    omega (arith, length-append (name_field file.name) _, length-name_field file.name h)

pub read_at_lem :
    (f x y z : List ℕ) (at n : ℕ)
    → f ≡ x ++ (y ++ z)
    → at ≡ length x
    → n ≡ length y
    → read_at f at n ≡ some y
unfolding read_at
read_at_lem f x y z at n whole start size =
    let inside : ltb (length f) (at + n) ≡ false =
      rw whole (ground (arith, length-append x (y ++ z), length-append y z)) in
    rw inside (
      ap some (
        ap (λ t. take n (drop at t)) whole
        ∙ (ap (take n) (drop-append x (y ++ z) at start) ∙ take-append y z n size)))

decode_entries_lem :
    (files : List PakFile)
    → All Fits18 files
    → decode_entries (length files) 18 272 (encode_all encode18 files) ≡ files
unfolding decode_entries encode_all decode_entry Fits18 NameFits
decode_entries_lem [] h = refl
decode_entries_lem (file ∷ files) h =
    let size = sym (length-encode18 file h.0.0.0) in
    let rest = encode_all encode18 files in
    rw (take-append (encode18 file) rest 272 size) (
      rw (drop-append (encode18 file) rest 272 size)
        (rw (decode18-encode18 file h.0) (ap (λ t. file ∷ t) (decode_entries_lem files h.1))))

-- The bytes of the archive from the list on.
list_after :
    (h w : List ℕ) (count : ℕ) (packed : List ℕ)
    → h ++ (w ++ list_block count packed)
      ≡ (h ++ w) ++ ((le_bytes 4 count ++ le_bytes 4 (length packed)) ++ packed)
unfolding list_block
list_after h w count packed =
    sym (append_assoc h w _)
    ∙ ap (λ t. (h ++ w) ++ t)
        (sym (append_assoc (le_bytes 4 count) (le_bytes 4 (length packed)) packed))

length-header18 : (at n : ℕ) → length (header18 at n) ≡ 40
unfolding header18 le_bytes
length-header18 at n = refl

read_header-archive_of :
    (count : ℕ) (w packed : List ℕ)
    → read_header (archive_of count w packed) ≡ some (header18 (40 + length w) (length packed))
unfolding read_header header18 le_bytes
read_header-archive_of count w packed =
    let h = header18 (40 + length w) (length packed) in
    rw
      (read_at_lem (archive_of count w packed) [] h (w ++ list_block count packed) 0 40 refl refl
        refl)
      refl

field_32 : (v : ℕ) → v < 2 ^ 32 → le_value (le_bytes 4 v) ≡ v
field_32 v h = le_value-le_bytes 4 v (omega arith)

header18-list_offset : (at n : ℕ) → at < 2 ^ 48 → field (header18 at n) 8 8 ≡ at
unfolding header18 le_bytes
header18-list_offset at n h = le_value-le_bytes 8 at (omega arith)

header18-list_size : (at n : ℕ) → n ≤ 2 ^ 28 → field (header18 at n) 16 4 ≡ n + 8
unfolding header18 le_bytes
header18-list_size at n h = field_32 (n + 8) (omega arith)

header18-rest :
    (at n : ℕ)
    → (field (header18 at n) 4 4 ≡ 18)
      × (field (header18 at n) 38 2 ≡ 1)
      × (get_or (header18 at n) 20 0 ≡ 0)
unfolding header18 le_bytes le_value
header18-rest at n = (refl, refl, refl)

pub counts_lem :
    (count n : ℕ)
    → count < 2 ^ 32
    → n < 2 ^ 32
    → (field (le_bytes 4 count ++ le_bytes 4 n) 0 4 ≡ count)
      × (field (le_bytes 4 count ++ le_bytes 4 n) 4 4 ≡ n)
unfolding le_bytes
counts_lem count n h k = (field_32 count h, field_32 n k)

-- What the reader makes of an archive whose packed list can be unpacked.
abbrev pub listing_of : List PakFile → ℕ → ℕ → PakListing
listing_of files at compressed = record {
  version = 18;
  flags = 0;
  parts = 1;
  list_offset = at;
  list_size = compressed + 8;
  list_compressed = compressed;
  files = files;
}

module _ (codecs : Codecs) where
  open codecs use {lz4, compress, compress_size, lz4_undoes}

  read_list_at_steps :
      (f header counts packed : List ℕ) (files : List PakFile) (at : ℕ)
      → All Fits18 files
      → (field header 4 4 ≡ 18) × (field header 38 2 ≡ 1) × (get_or header 20 0 ≡ 0)
      → field header 8 8 ≡ at
      → field header 16 4 ≡ length packed + 8
      → read_at f at 8 ≡ some counts
      → (field counts 0 4 ≡ length files) × (field counts 4 4 ≡ length packed)
      → ((length files == 0)
          || (ltb (4 * 2 ^ 20) (length files)
              || ((length packed == 0) || ltb (2 ^ 28) (length packed))))
        ≡ false
      → read_at f (at + 8) (length packed) ≡ some packed
      → lz4 packed (length files * 272) ≡ some (encode_all encode18 files)
      → read_list_at codecs f header 272 ≡ some (listing_of files at (length packed))
  unfolding read_list_at
  read_list_at_steps f header counts packed files at fit fixed offset size got known bounds read
        unpacked =
      rw offset (
        rw got (
          rw known.0 (
            rw known.1 (
              rw bounds (
                rw read (
                  rw unpacked (
                    rw fixed.0 (
                      rw fixed.1
                        (rw fixed.2 (rw size (rw (decode_entries_lem files fit) refl)))))))))))

  read_list_at_lem :
      (files : List PakFile) (w packed : List ℕ)
      → All Fits18 files
      → 0 < length files
      → length files ≤ 4 * 2 ^ 20
      → 0 < length packed
      → length packed ≤ 2 ^ 28
      → 40 + length w < 2 ^ 48
      → lz4 packed (length files * 272) ≡ some (encode_all encode18 files)
      → read_list_at codecs
          (archive_of (length files) w packed)
          (header18 (40 + length w) (length packed))
          272
        ≡ some (listing_of files (40 + length w) (length packed))
  read_list_at_lem files w packed fit some_files few some_bytes small near unpacked =
      let at = 40 + length w in
      let h = header18 at (length packed) in
      let f = archive_of (length files) w packed in
      let two = le_bytes 4 (length files) ++ le_bytes 4 (length packed) in
      let two_size : 8 ≡ length two = omega (
        arith,
        length-append (le_bytes 4 (length files)) (le_bytes 4 (length packed)),
        length-le_bytes 4 (length files),
        length-le_bytes 4 (length packed),
      ) in
      let whole = list_after h w (length files) packed in
      let start : at ≡ length (h ++ w) =
        omega (arith, length-append h w, length-header18 at (length packed)) in
      let past : at + 8 ≡ length ((h ++ w) ++ two) =
        omega (arith, length-append (h ++ w) two, two_size, start) in
      let behind : f ≡ ((h ++ w) ++ two) ++ (packed ++ []) =
        whole
        ∙ (sym (append_assoc (h ++ w) two packed)
            ∙ ap (λ t. ((h ++ w) ++ two) ++ t) (sym (append-nil packed))) in
      read_list_at_steps f h two packed files at fit (header18-rest at (length packed))
        (header18-list_offset at (length packed) near) (header18-list_size at (length packed) small)
        (read_at_lem f (h ++ w) two packed at 8 whole start two_size)
        (counts_lem (length files) (length packed) (omega arith) (omega arith)) (ground arith)
        (read_at_lem f ((h ++ w) ++ two) packed [] (at + 8) (length packed) behind past refl)
        unpacked

  pak_file_read_lem :
      (f x z name bytes : List ℕ)
      → f ≡ x ++ (bytes ++ z)
      → length bytes ≤ 2 ^ 28
      → pak_file_read codecs f (stored_file name bytes (length x)) ≡ read_back (name, bytes)
  unfolding pak_file_read unpack
  pak_file_read_lem f x z name bytes whole small =
      let at = read_at_lem f x bytes z (length x) (length bytes) whole refl refl in
      let enough : ltb (2 ^ 28) (length bytes) ≡ false = ground arith in
      elim (Bool-cases (length bytes == 0)) [
        | inl empty ↦ rw empty refl
        | inr nonempty ↦ rw nonempty (rw enough (rw at refl))
      ]

  reads_lem :
      (files : Contents) (f x z : List ℕ)
      → All FileFits files
      → f ≡ x ++ (contents files ++ z)
      → map (pak_file_read codecs f) (placed files (length x)) ≡ map read_back files
  unfolding FileFits
  reads_lem [] f x z h whole = refl
  reads_lem ((name, bytes) ∷ files) f x z h whole =
      let here : f ≡ x ++ (bytes ++ (contents files ++ z)) =
        whole ∙ ap (λ t. x ++ t) (append_assoc bytes (contents files) z) in
      let next : f ≡ (x ++ bytes) ++ (contents files ++ z) =
        here ∙ sym (append_assoc x bytes (contents files ++ z)) in
      let rest = reads_lem files f (x ++ bytes) z h.1 next in
      rw (pak_file_read_lem f x (contents files ++ z) name bytes here h.0.1) (
        ap (λ t. read_back (name, bytes) ∷ t)
          (ap (λ n. map (pak_file_read codecs f) (placed files n)) (sym (length-append x bytes))
            ∙ rest))

  length-encode_all :
      (es : List PakFile) → All Fits18 es → length (encode_all encode18 es) ≡ length es * 272
  unfolding encode_all Fits18 NameFits
  length-encode_all [] h = refl
  length-encode_all (e ∷ es) h = omega (
    arith,
    length-append (encode18 e) (encode_all encode18 es),
    length-encode18 e h.0.0.0,
    length-encode_all es h.1,
  )

  pak_write_lem :
      (files : Contents)
      → All FileFits files
      → pak_write codecs files ≡ (
          compress (encode_all encode18 (placed files 40)) >>= λ packed.
          some (archive_of (length (placed files 40)) (contents files) packed))
  unfolding pak_write
  pak_write_lem files fit = rw (store_files_lem files 40 fit) refl

  pak_listing_lem :
      (files : List PakFile) (w packed : List ℕ)
      → All Fits18 files
      → 0 < length files
      → length files ≤ 4 * 2 ^ 20
      → 0 < length packed
      → length packed ≤ 2 ^ 28
      → 40 + length w < 2 ^ 48
      → lz4 packed (length files * 272) ≡ some (encode_all encode18 files)
      → pak_listing codecs (archive_of (length files) w packed)
        ≡ some (listing_of files (40 + length w) (length packed))
  unfolding pak_listing entry_size le_value header18
  pak_listing_lem files w packed fit some_files few some_bytes small near unpacked =
      rw (read_header-archive_of (length files) w packed) (
        rw (header18-rest (40 + length w) (length packed)).0
          (read_list_at_lem files w packed fit some_files few some_bytes small near unpacked))

  -- Of 1 to 900,000 files whose names have less than 256 characters, none null, and whose contents
  -- have at most 2^28 bytes, the archive that `pak_write` writes is listed by `pak_listing` with one
  -- entry for each file, in order and behind each other from byte 40 on, and `pak_file_read` of each
  -- entry returns the file's contents, or false for an empty file.
  pub pak_listing-pak_write :
      (files : Contents) (archive : List ℕ)
      → All FileFits files
      → 0 < length files
      → length files ≤ 900000
      → pak_write codecs files ≡ some archive
      → (Option.map (λ l. l.files) (pak_listing codecs archive) ≡ some (placed files 40))
        × (map (pak_file_read codecs archive) (placed files 40) ≡ map read_back files)
  pak_listing-pak_write files archive fit some_files few written =
      let es = placed files 40 in
      let w = contents files in
      let bound = length-contents files fit in
      let es_fit = placed-Fits18 files 40 fit (omega (arith, bound)) in
      let count = length-placed files 40 in
      let wide = length-encode_all es es_fit in
      let (packed, got, out) =
        >>=-eq-some (compress (encode_all encode18 es)) _
          (sym (pak_write_lem files fit) ∙ written) in
      let sized = compress_size (encode_all encode18 es) packed got in
      let unpacked = ap (lz4 packed) (sym wide) ∙ lz4_undoes (encode_all encode18 es) packed got in
      let here : archive ≡ archive_of (length es) w packed = sym (some-injective _ _ out) in
      let parts : archive
          ≡ header18 (40 + length w) (length packed) ++ (w ++ list_block (length es) packed) =
        here in
      let listed =
        pak_listing_lem es w packed es_fit (omega (arith, count)) (omega (arith, count)) sized.0
          (omega (arith, sized.1, wide, count)) (omega (arith, bound)) unpacked in
      (
        ap (λ a. Option.map (λ l. l.files) (pak_listing codecs a)) here
            ∙ ap (Option.map (λ l. l.files)) listed,
        ap (λ n. map (pak_file_read codecs archive) (placed files n))
              (sym (length-header18 (40 + length w) (length packed)))
            ∙ reads_lem files archive (header18 (40 + length w) (length packed))
                (list_block (length es) packed) fit parts,
      )
