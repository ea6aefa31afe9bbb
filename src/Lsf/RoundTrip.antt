-- ===== src/Lsf/RoundTrip.antt =====
-- src/lsf.cpp: `lsf_read` returns the document that `lsf_write` was given.
mod Windows
pub mod Whole
use bg3le.Common.{
  ℕ, zero, suc, ◌+◌, ◌-◌, ◌*◌, ◌%◌, ◌/◌, ◌^◌, ◌<◌, ◌≤◌, ◌≡◌, refl, sym, ap, ◌∙◌, Bool, true, false,
  ◌&&◌, ◌||◌, not, Option, none, some, List, [], ◌∷◌, ◌++◌, length, take, drop, get_or, ltb, leb,
  ◌==◌, if◌then◌else◌, ◌>>=◌, arith, length-append, length-take, length-drop, take-append,
  drop-append, append_assoc, append-nil, Bool-cases, inl, inr,
}
use bg3le.Common.Bytes.{le_bytes, le_value, le_value-le_bytes}
use bg3le.Pak.Format.{Codecs}
use bg3le.Pak.Read.{same_bytes}
use bg3le.Lsf.Document.{
  LsfString, LsfDocument, Metadata, u32, metadata, metadata_place, metadata_size,
}
use bg3le.Lsf.Sections.{section}
use bg3le.Lsf.Names.{read_names, string_values, attribute_size}
use bg3le.Lsf.Read.{lsof, has_key_section, has_offsets, key_section, read_sections, lsf_read}
use bg3le.Lsf.Write.{put_bytes, sizes, new_metadata, lsf_write}
use bg3le.Lsf.RoundTrip.Windows.{window-append, window-take, drop-drop}
use bg3le.Lsf.RoundTrip.Whole.{
  format_place, format_of, written_metadata, written_sections, IsWhole, metadata_written,
  length-new_metadata, read_sections_written,
}

module _ (codecs : Codecs) (with_dict : List ℕ → ℕ → List ℕ → Option (List ℕ)) where
  -- `lsf_read` of data that pass its guards.
  lsf_read_guards :
      (data' : List ℕ) (version : ℕ)
      → u32 data' 4 ≡ version
      → take 4 data' ≡ lsof
      → 1 ≤ version
      → version ≤ 7
      → metadata_place version + metadata_size version ≤ length data'
      → lsf_read codecs with_dict data'
        ≡ read_sections codecs with_dict version
            (take (metadata_place version + metadata_size version) data')
            (metadata version (drop (metadata_place version) data'))
            (drop (metadata_place version + metadata_size version) data')
  unfolding lsf_read
  lsf_read_guards data' version known marked low high enough =
      let least : 52 ≤ metadata_place version + metadata_size version =
        elim (Bool-cases (leb 5 version)) [
          | inl p ↦ elim (Bool-cases (leb 6 version)) [
            | inl q ↦ rw (p, q) (omega arith)
            | inr q ↦ rw (p, q) (omega arith)
          ]
          | inr p ↦ elim (Bool-cases (leb 6 version)) [
            | inl q ↦ rw (p, q) (omega arith)
            | inr q ↦ rw (p, q) (omega arith)
          ]
        ] in
      let not_short : ltb (length data') 12 ≡ false = ground arith in
      let not_low : ltb version 1 ≡ false = ground arith in
      let not_high : ltb 7 version ≡ false = ground arith in
      let not_cut : ltb (length data') (metadata_place version + metadata_size version) ≡ false =
        ground arith in
      rw (known, marked, not_short, not_low, not_high, not_cut) refl

format_last : (version : ℕ) → metadata_size version ≡ format_place version + 4
format_last version = elim (Bool-cases (leb 6 version)) [ inl p ↦ rw p refl | inr p ↦ rw p refl ]

module _ (doc : LsfDocument) (w : IsWhole doc) where
  new_prefix : List ℕ
  unfolding put_bytes
  new_prefix = put_bytes doc.metadata_at (new_metadata doc) doc.prefix

  -- The prefix behind the new bytes, which holds the format.
  old_end : List ℕ
  old_end = drop (doc.metadata_at + length (new_metadata doc)) doc.prefix

  new_fits : doc.metadata_at + length (new_metadata doc) + 7 ≤ length doc.prefix
  new_fits = omega (arith, length-new_metadata doc, w.whole, format_last doc.version)

  length-new_prefix : length new_prefix ≡ length doc.prefix
  unfolding new_prefix put_bytes old_end
  length-new_prefix = omega (
    arith,
    length-append (take doc.metadata_at doc.prefix) (new_metadata doc ++ old_end),
    length-append (new_metadata doc) old_end,
    length-take doc.metadata_at doc.prefix,
    length-drop (doc.metadata_at + length (new_metadata doc)) doc.prefix,
    new_fits,
  )

  -- What stands before the metadata is as it was.
  head_kept :
      (k n : ℕ) (rest : List ℕ)
      → k + n ≤ 8
      → take n (drop k (new_prefix ++ rest)) ≡ take n (drop k doc.prefix)
  unfolding new_prefix put_bytes
  head_kept k n rest h =
      let at = w.at_place in
      let early : k + n ≤ doc.metadata_at = omega (arith, at) in
      let size = length-take doc.metadata_at doc.prefix in
      window-append k n new_prefix rest (omega (arith, length-new_prefix, new_fits))
      ∙ (window-append k n (take doc.metadata_at doc.prefix) _ (omega (arith, size, new_fits))
          ∙ window-take k n doc.metadata_at doc.prefix early)

  tail_format : (rest : List ℕ) → u32 (old_end ++ rest) 3 ≡ format_of doc
  unfolding old_end
  tail_format rest =
      let from = doc.metadata_at + length (new_metadata doc) in
      let size = length-drop from doc.prefix in
      let place : from + 3 ≡ doc.metadata_at + format_place doc.version =
        omega (arith, length-new_metadata doc) in
      ap le_value (
        window-append 3 4 old_end rest (omega (arith, size, new_fits))
        ∙ ap (take 4) (drop-drop from 3 doc.prefix ∙ ap (λ n. drop n doc.prefix) place))

  metadata_behind :
      (rest : List ℕ)
      → drop doc.metadata_at (new_prefix ++ rest) ≡ new_metadata doc ++ (old_end ++ rest)
  unfolding new_prefix put_bytes old_end
  metadata_behind rest =
      let first = take doc.metadata_at doc.prefix in
      let size = length-take doc.metadata_at doc.prefix in
      ap (drop doc.metadata_at) (append_assoc first (new_metadata doc ++ old_end) rest)
      ∙ (drop-append first ((new_metadata doc ++ old_end) ++ rest) doc.metadata_at
            (omega (arith, size, new_fits))
          ∙ append_assoc (new_metadata doc) old_end rest)

  lsf_write_lem : lsf_write doc ≡ new_prefix ++ written_sections doc
  unfolding lsf_write new_prefix
  lsf_write_lem = refl

module _ (codecs : Codecs) (with_dict : List ℕ → ℕ → List ℕ → Option (List ℕ)) where
  -- A document whose fields agree with its prefix, and whose sections have at most 2^28 bytes each,
  -- is read back from the file that `lsf_write` writes of it: its sections, its keys and its strings
  -- are the same, and only the sizes and flags in its prefix are new.
  pub lsf_read-lsf_write :
      (doc : LsfDocument)
      → IsWhole doc
      → lsf_read codecs with_dict (lsf_write doc)
        ≡ some (record doc { prefix = put_bytes doc.metadata_at (new_metadata doc) doc.prefix })
  unfolding new_prefix
  lsf_read-lsf_write doc w =
      let sections = written_sections doc in
      let p = new_prefix doc w in
      let behind = metadata_place doc.version + metadata_size doc.version in
      let size : behind ≡ length p = omega (arith, length-new_prefix doc w, w.whole, w.at_place) in
      let guards =
        lsf_read_guards codecs with_dict (p ++ sections) doc.version
          (ap le_value (head_kept doc w 4 4 sections (omega arith)) ∙ w.versioned)
          (head_kept doc w 0 4 sections (omega arith) ∙ w.marked) w.known.0 w.known.1
          (omega (arith, length-append p sections, size)) in
      let sizes_read : metadata doc.version (drop (metadata_place doc.version) (p ++ sections))
          ≡ written_metadata doc (format_of doc) =
        ap (λ n. metadata doc.version (drop n (p ++ sections))) (sym w.at_place)
        ∙ (ap (metadata doc.version) (metadata_behind doc w sections)
            ∙ (metadata_written doc (old_end doc w ++ sections) w
                ∙ ap (written_metadata doc) (tail_format doc w sections))) in
      ap (lsf_read codecs with_dict) (lsf_write_lem doc w)
      ∙ (guards
          ∙ rw (take-append p sections behind size, drop-append p sections behind size, sizes_read)
              (read_sections_written codecs with_dict doc p w))
