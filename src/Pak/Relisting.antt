-- ===== src/Pak/Relisting.antt =====
-- src/pak.cpp: what `pak_write_listing` wrote over an archive is what `pak_listing` lists.
use bg3le.Common.{
  ℕ, ◌+◌, ◌-◌, ◌%◌, ◌^◌, ◌<◌, ◌≤◌, ◌≡◌, refl, sym, ap, ◌∙◌, Option, some, List, ◌++◌, length, take,
  drop, ◌>>=◌, All, arith, length-append, >>=-eq-some, subst,
}
use mathlib.Core.Option.{some-injective}
use mathlib.Core.Option
use bg3le.Common.Bytes.{le_bytes, length-le_bytes}
use bg3le.Pak.Format.{Codecs, PakFile, PakListing, field, entry_size, encode_entry}
use bg3le.Pak.Read.{read_header, pak_listing}
use bg3le.Pak.Write.{encode_all, list_block, overwrite, pak_write_listing}
use bg3le.Pak.Relisting.Entries.{FitsIn, entries_lem}
use bg3le.Pak.Relisting.Header.{size_behind}
use bg3le.Pak.Relisting.Parts.{overwritten, kept_between, split}
use bg3le.Pak.Relisting.Reading.{relisted_lem}
mod Entries
mod Header
mod Parts
mod Reading

-- What the list's size in the header counts besides the compressed bytes, in 32 bits.
abbrev pub besides : PakListing → ℕ
besides l = (l.list_size + 2 ^ 32 - l.list_compressed) % 2 ^ 32

abbrev pub outline : PakListing → ℕ × ℕ × ℕ × List PakFile
outline l = (l.version, l.list_offset, besides l, l.files)

-- The size that the header gets keeps what it counts.
besides_kept :
    (packed size compressed new : ℕ)
    → packed < 2 ^ 32
    → new ≡ (packed + (size + 2 ^ 32 - compressed)) % 2 ^ 32
    → (new < 2 ^ 32) × ((new + 2 ^ 32 - packed) % 2 ^ 32 ≡ (size + 2 ^ 32 - compressed) % 2 ^ 32)
besides_kept packed size compressed new h e = (omega (arith, e), omega (arith, h, e))

module _ (codecs : Codecs) where
  open codecs use {compress, compress_size}

  -- What is listed where `f'` was made from `f`, and the bytes that stayed.
  abbrev Relisted : ℕ → ℕ → ℕ → List PakFile → List ℕ → List ℕ → Type 0
  Relisted version at extra files f f' =
      (Option.map outline (pak_listing codecs f') ≡ some (version, at, extra, files))
      × (drop 20 (take at f') ≡ drop 20 (take at f))

  -- The same archives in parts.
  overwrite-Relisted :
      (x y z m t header packed f' : List ℕ) (files : List PakFile)
      (version size at list_size extra : ℕ)
      → length x ≡ 8
      → length y ≡ 12
      → length z ≡ 20
      → at ≡ length (x ++ (y ++ (z ++ m)))
      → at < 2 ^ 63
      → read_header (x ++ (y ++ (z ++ (m ++ t)))) ≡ some header
      → field header 4 4 ≡ version
      → entry_size version ≡ some size
      → All (FitsIn version) files
      → 0 < length files
      → length files ≤ 900000
      → compress (encode_all (encode_entry version) files) ≡ some packed
      → (list_size < 2 ^ 32) × ((list_size + 2 ^ 32 - length packed) % 2 ^ 32 ≡ extra)
      → overwrite codecs 8
          (le_bytes 8 at ++ le_bytes 4 list_size)
          (overwrite codecs at (list_block (length files) packed) (x ++ (y ++ (z ++ (m ++ t)))))
        ≡ f'
      → Relisted version at extra files (x ++ (y ++ (z ++ (m ++ t)))) f'
  overwrite-Relisted x y z m t header packed f' files version size at list_size extra x_size y_size
        z_size start near magic is_version has_size fit some_files few got sized written =
      let new = le_bytes 8 at ++ le_bytes 4 list_size in
      let block = list_block (length files) packed in
      let t' = drop (length block) t in
      let new_size : length new ≡ 12 = omega (
        arith,
        length-append (le_bytes 8 at) (le_bytes 4 list_size),
        length-le_bytes 8 at,
        length-le_bytes 4 list_size,
      ) in
      let start' : at ≡ length (x ++ (new ++ (z ++ m))) = omega (
        arith,
        start,
        length-append x (y ++ (z ++ m)),
        length-append y (z ++ m),
        length-append x (new ++ (z ++ m)),
        length-append new (z ++ m),
        new_size,
        y_size,
      ) in
      let whole = overwritten x y z m t x_size y_size codecs at block new start new_size in
      let shape = sym written ∙ whole in
      let listed =
        relisted_lem codecs x y z m (m ++ t) t' header packed files version size at list_size x_size
          y_size z_size start near magic is_version has_size fit some_files few got in
      subst (λ (l : List ℕ). Relisted version at extra files (x ++ (y ++ (z ++ (m ++ t)))) l)
        (sym shape)
        (
          ap (Option.map outline) listed
              ∙ ap (λ (n : ℕ). some (version, at, n, files))
                  (ap (λ (n : ℕ). (n + 2 ^ 32 - length packed) % 2 ^ 32)
                      (size_behind x z at list_size x_size sized.0)
                    ∙ sized.1),
          kept_between x new z m (block ++ t') at x_size new_size start'
              ∙ sym (kept_between x y z m t at x_size y_size start),
        )

  -- Of an archive of version 15, 16 or 18 whose header can be read, and of a listing of its version
  -- with 1 to 900,000 files that the version's entries can hold, the archive that
  -- `pak_write_listing` leaves, with the list at a place behind the header, below 2^63 and not
  -- behind the archive's end, is listed by `pak_listing` with the same version, that place, the same
  -- files in order, and a size of the list that counts as much besides the compressed bytes as the
  -- one given. The bytes between that size in the header and the place of the list are those it had.
  pub pak_listing-pak_write_listing :
      (f header f' : List ℕ) (size at : ℕ) (listing : PakListing)
      → read_header f ≡ some header
      → field header 4 4 ≡ listing.version
      → entry_size listing.version ≡ some size
      → 40 ≤ at
      → at ≤ length f
      → at < 2 ^ 63
      → All (FitsIn listing.version) listing.files
      → 0 < length listing.files
      → length listing.files ≤ 900000
      → pak_write_listing codecs f at listing ≡ some f'
      → (Option.map outline (pak_listing codecs f')
          ≡ some (listing.version, at, besides listing, listing.files))
        × (drop 20 (take at f') ≡ drop 20 (take at f))
  unfolding pak_write_listing
  pak_listing-pak_write_listing f header f' size at listing magic is_version has_size past inside
        near fit some_files few written =
      let s = split f at past inside in
      let (named, laws) = entries_lem codecs listing.version size listing.files has_size fit in
      let (packed, got, out) =
        >>=-eq-some (compress (encode_all (encode_entry listing.version) listing.files)) _
          (rw named at written) in
      let sized =
        compress_size (encode_all (encode_entry listing.version) listing.files) packed got in
      let room : length packed ≤ 2 ^ 28 = omega (arith, sized.1, laws.1.1, few) in
      let new_size =
        (length packed + (listing.list_size + 2 ^ 32 - listing.list_compressed)) % 2 ^ 32 in
      let result = some-injective _ _ out in
      subst (λ (l : List ℕ). Relisted listing.version at (besides listing) listing.files l f')
        s.whole
        (overwrite-Relisted s.x s.y s.z s.m s.t header packed f' listing.files listing.version size
          at new_size (besides listing) s.x_size s.y_size s.z_size s.start near
          (ap read_header s.whole ∙ magic) is_version has_size fit some_files few got
          (besides_kept (length packed) listing.list_size listing.list_compressed new_size
            (omega (arith, room)) refl)
          (ap
              (λ (l : List ℕ).
                overwrite codecs 8 (le_bytes 8 at ++ le_bytes 4 new_size)
                  (overwrite codecs at (list_block (length listing.files) packed) l))
              s.whole
            ∙ result))
