-- ===== src/Lsf/RoundTrip/Whole.antt =====
-- src/lsf.cpp: documents that agree with their prefix, and their sections read back.
use bg3le.Common.{
  ℕ, ◌+◌, ◌/◌, ◌^◌, ◌≤◌, ◌≡◌, refl, sym, ap, ◌∙◌, Bool, true, false, ◌&&◌, Option, some, List, [],
  ◌∷◌, ◌++◌, length, take, ltb, leb, ◌==◌, if◌then◌else◌, arith, length-append, take-append,
  drop-append, append-nil, Bool-cases, inl, inr,
}
use bg3le.Common.Bytes.{le_bytes, le_value, le_value-le_bytes}
use bg3le.Pak.Format.{Codecs}
use bg3le.Lsf.Document.{LsfDocument, Metadata, u32, metadata, metadata_place, metadata_size}
use bg3le.Lsf.Sections.{section}
use bg3le.Lsf.Names.{read_names, string_values, attribute_size}
use bg3le.Lsf.Read.{lsof, key_section, read_sections}
use bg3le.Lsf.Write.{new_metadata}

module _ (codecs : Codecs) (with_dict : List ℕ → ℕ → List ℕ → Option (List ℕ)) where
  -- A section that was written as it is.
  section_written :
      (version : ℕ) (chunkable : Bool) (bytes rest : List ℕ)
      → length bytes ≤ 2 ^ 28
      → section codecs with_dict 0 version (length bytes) 0 chunkable (bytes ++ rest)
        ≡ some (bytes, rest)
  unfolding section
  section_written version chunkable [] rest h = refl
  section_written version chunkable (b ∷ bytes) rest h =
      let within : ltb (2 ^ 28) (length (b ∷ bytes)) ≡ false = ground arith in
      let there : ltb (length (b ∷ (bytes ++ rest))) (length (b ∷ bytes)) ≡ false =
        ground (arith, length-append bytes rest) in
      let nonempty : (length (b ∷ bytes) == 0) ≡ false = ground arith in
      rw (within, nonempty)
        (rw there (
          rw (take-append bytes rest (length bytes) refl)
            (rw (drop-append bytes rest (length bytes) refl) refl)))

  section_last :
      (version : ℕ) (chunkable : Bool) (bytes : List ℕ)
      → length bytes ≤ 2 ^ 28
      → section codecs with_dict 0 version (length bytes) 0 chunkable bytes ≡ some (bytes, [])
  section_last version chunkable bytes h =
      ap (section codecs with_dict 0 version (length bytes) 0 chunkable) (sym (append-nil bytes))
      ∙ section_written version chunkable bytes [] h

-- Where the metadata has the format.
abbrev pub format_place : ℕ → ℕ
format_place version = if leb 6 version then 44 else 36

abbrev pub format_of : LsfDocument → ℕ
format_of doc = u32 doc.prefix (doc.metadata_at + format_place doc.version)

-- The metadata of a document written: the sizes of its sections, none of them packed.
abbrev pub written_metadata : LsfDocument → ℕ → Metadata
written_metadata doc format = record {
  su = length doc.strings;
  sd = 0;
  ku = if leb 6 doc.version then length doc.keys else 0;
  kd = 0;
  nu = length doc.nodes;
  nd = 0;
  au = length doc.attributes;
  ad = 0;
  vu = length doc.values;
  vd = 0;
  flags = 0;
  format = format;
}

-- The sections of the document, as they are written.
abbrev pub written_sections : LsfDocument → List ℕ
written_sections doc =
    doc.strings
    ++ (doc.nodes ++ (doc.attributes ++ (doc.values ++ (if doc.has_keys then doc.keys else []))))

-- A document whose fields agree with its prefix: its version and metadata, the keys that the version
-- and format call for, the names and the strings.
pub record IsWhole (doc : LsfDocument) : Type 0 where
  pub known : (1 ≤ doc.version) × (doc.version ≤ 7)
  pub marked : take 4 doc.prefix ≡ lsof
  pub versioned : u32 doc.prefix 4 ≡ doc.version
  pub at_place : doc.metadata_at ≡ metadata_place doc.version
  pub whole : length doc.prefix ≡ doc.metadata_at + metadata_size doc.version
  pub strings_fit : length doc.strings ≤ 2 ^ 28
  pub nodes_fit : length doc.nodes ≤ 2 ^ 28
  pub attributes_fit : length doc.attributes ≤ 2 ^ 28
  pub values_fit : length doc.values ≤ 2 ^ 28
  pub keys_fit : length doc.keys ≤ 2 ^ 28
  pub keyed : doc.has_keys ≡ (leb 6 doc.version && (format_of doc == 1))
  pub no_keys : doc.has_keys ≡ false → doc.keys ≡ []
  pub names : List (List (List ℕ))
  pub named : read_names doc.strings ≡ some names
  pub found :
      doc.string_values
      ≡ string_values
          (length doc.attributes / attribute_size (leb 3 doc.version && (format_of doc == 1)))
          (leb 3 doc.version && (format_of doc == 1))
          names
          (length doc.values)
          doc.attributes
          0

and-left : (a b : Bool) → (a && b) ≡ true → a ≡ true
and-left true b h = refl
and-left false b h = h

field_32 : (v : ℕ) → v ≤ 2 ^ 28 → le_value (le_bytes 4 v) ≡ v
field_32 v h = le_value-le_bytes 4 v (omega arith)

pub metadata_written :
    (doc : LsfDocument) (tail : List ℕ)
    → IsWhole doc
    → metadata doc.version (new_metadata doc ++ tail) ≡ written_metadata doc (u32 tail 3)
unfolding metadata new_metadata le_bytes le_value
metadata_written doc tail w =
    let s = field_32 (length doc.strings) w.strings_fit in
    let n = field_32 (length doc.nodes) w.nodes_fit in
    let a = field_32 (length doc.attributes) w.attributes_fit in
    let v = field_32 (length doc.values) w.values_fit in
    let k = field_32 (length doc.keys) w.keys_fit in
    elim (Bool-cases (leb 6 doc.version)) [
      | inl p ↦ rw p (λ i. record {
        su = s i;
        sd = 0;
        ku = k i;
        kd = 0;
        nu = n i;
        nd = 0;
        au = a i;
        ad = 0;
        vu = v i;
        vd = 0;
        flags = 0;
        format = u32 tail 3;
      })
      | inr p ↦ rw p (λ i. record {
        su = s i;
        sd = 0;
        ku = 0;
        kd = 0;
        nu = n i;
        nd = 0;
        au = a i;
        ad = 0;
        vu = v i;
        vd = 0;
        flags = 0;
        format = u32 tail 3;
      })
    ]

pub length-new_metadata :
    (doc : LsfDocument) → length (new_metadata doc) + 3 ≡ format_place doc.version
unfolding new_metadata le_bytes
length-new_metadata doc = elim (Bool-cases (leb 6 doc.version)) [
  | inl p ↦ rw p refl
  | inr p ↦ rw p refl
]

module _ (codecs : Codecs) (with_dict : List ℕ → ℕ → List ℕ → Option (List ℕ)) where
  key_section_written :
      (doc : LsfDocument)
      → IsWhole doc
      → key_section codecs with_dict doc.version
          (written_metadata doc (format_of doc))
          (if doc.has_keys then doc.keys else [])
        ≡ some doc.keys
  unfolding key_section
  key_section_written doc w = elim (Bool-cases (leb 6 doc.version && (format_of doc == 1))) [
    | inl p ↦
        rw (p, and-left (leb 6 doc.version) (format_of doc == 1) p, w.keyed ∙ p)
          (rw (section_last codecs with_dict doc.version true doc.keys w.keys_fit) refl)
    | inr p ↦ rw p (ap some (sym (w.no_keys (w.keyed ∙ p))))
  ]

  pub read_sections_written :
      (doc : LsfDocument) (before : List ℕ)
      → IsWhole doc
      → read_sections codecs with_dict doc.version before
          (written_metadata doc (format_of doc))
          (written_sections doc)
        ≡ some (record doc { prefix = before })
  unfolding read_sections
  read_sections_written doc before w =
      let v = doc.version in
      rw (section_written codecs with_dict v false doc.strings _ w.strings_fit) (
        rw (section_written codecs with_dict v true doc.nodes _ w.nodes_fit) (
          rw (section_written codecs with_dict v true doc.attributes _ w.attributes_fit) (
            rw (section_written codecs with_dict v true doc.values _ w.values_fit) (
              rw (key_section_written doc w)
                (rw w.named (rw (← w.keyed) (rw (← w.found) (rw (← w.at_place) refl))))))))
