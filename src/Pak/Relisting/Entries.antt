-- ===== src/Pak/Relisting/Entries.antt =====
-- src/pak.cpp: the entries of a list, in the layout of any version, written and read back.
use bg3le.Common.{
  ℕ, ◌*◌, ◌<◌, ◌≤◌, ◌≡◌, refl, sym, ap, ◌∙◌, Option, none, some, List, [], ◌∷◌, length, leb, ◌==◌,
  if◌then◌else◌, false, All, arith, take-append, drop-append, length-append, Bool-cases, inl, inr,
}
use mathlib.Core.Option.{some-injective}
use bg3le.Common.Bytes.{le_bytes}
use bg3le.Pak.Format.{Codecs, PakFile, entry_size, encode15, encode_entry, decode_entry, name_field}
use bg3le.Pak.Read.{decode_entries}
use bg3le.Pak.Write.{encode_all, names_fit}
use bg3le.Pak.Entries.{
  NameFits, Fits18, Fits15, length-name_field, decode18-encode18, decode15-encode15,
}
use bg3le.Pak.RoundTrip.{length-encode18}

-- What the layout of a version can say of a file.
abbrev pub FitsIn : ℕ → PakFile → Type 0
FitsIn version file = if version == 18 then Fits18 file else Fits15 file

length-encode15 : (file : PakFile) → length file.name < 256 → length (encode15 file) ≡ 296
unfolding encode15 le_bytes
length-encode15 file h =
    omega (arith, length-append (name_field file.name) _, length-name_field file.name h)

-- An entry of a version: its name, its size, and what is read back.
entry_lem :
    (version size : ℕ) (file : PakFile)
    → entry_size version ≡ some size
    → FitsIn version file
    → (leb 256 (length file.name) ≡ false)
      × ((length (encode_entry version file) ≡ size)
          × ((decode_entry version (encode_entry version file) ≡ file) × (size ≤ 296)))
unfolding entry_size encode_entry decode_entry Fits18 Fits15 NameFits
entry_lem version size file e h = elim (Bool-cases (version == 18)) [
  | inl p ↦
      let fits : Fits18 file = rw p at h in
      let same : 272 ≡ size = some-injective _ _ (rw p at e) in
      let long = length-encode18 file fits.0.0 in
      let bound = fits.0.0 in
      (
        ground arith,
        (rw p (long ∙ same), (rw p (decode18-encode18 file fits), omega (arith, same))),
      )
  | inr p ↦
      let fits : Fits15 file = rw p at h in
      let same : 296 ≡ size = elim (Bool-cases (version == 15)) [
        | inl q ↦ some-injective _ _ (rw (p, q) at e)
        | inr q ↦ elim (Bool-cases (version == 16)) [
          | inl r ↦ some-injective _ _ (rw (p, q, r) at e)
          | inr r ↦ let no : ◌≡◌ {A = Option ℕ} none (some size) = rw (p, q, r) at e in cc
        ]
      ] in
      let long = length-encode15 file fits.0.0 in
      let bound = fits.0.0 in
      (
        ground arith,
        (rw p (long ∙ same), (rw p (decode15-encode15 file fits), omega (arith, same))),
      )
]

module _ (codecs : Codecs) where
  pub entries_lem :
      (version size : ℕ) (files : List PakFile)
      → entry_size version ≡ some size
      → All (FitsIn version) files
      → (names_fit codecs files ≡ some files)
        × ((length (encode_all (encode_entry version) files) ≡ length files * size)
            × ((decode_entries (length files) version size (encode_all (encode_entry version) files)
                  ≡ files)
                × (length (encode_all (encode_entry version) files) ≤ length files * 296)))
  unfolding encode_all decode_entries
  entries_lem version size [] e h = (refl, (omega arith, (refl, omega arith)))
  entries_lem version size (file ∷ files) e h =
      let (short, (long, (back, bound))) = entry_lem version size file e h.0 in
      let (fit, (longs, (backs, room))) = entries_lem version size files e h.1 in
      let one = encode_entry version file in
      let rest = encode_all (encode_entry version) files in
      let both = length-append one rest in
      (
        rw (fit, short) refl,
        (
          omega (arith, both, long, longs),
          (
            rw (take-append one rest size (sym long)) (
                rw (drop-append one rest size (sym long))
                  (rw back (ap (λ (l : List PakFile). file ∷ l) backs))),
            omega (arith, both, long, bound, room),
          ),
        ),
      )
