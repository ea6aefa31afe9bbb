-- ===== src/Lsf/Read.antt =====
-- src/lsf.cpp: `lsf_read`.
use bg3le.Common.{
  ℕ, ◌+◌, ◌%◌, ◌/◌, Bool, true, false, ◌&&◌, ◌||◌, not, Option, none, some, List, [], ◌∷◌, length,
  take, drop, ltb, leb, ◌==◌, if◌then◌else◌, ◌>>=◌,
}
use bg3le.Pak.Format.{Codecs}
use bg3le.Pak.Read.{same_bytes}
use bg3le.Lsf.Document.{LsfDocument, Metadata, u32, metadata, metadata_place, metadata_size}
use bg3le.Lsf.Sections.{section}
use bg3le.Lsf.Names.{read_names, string_values, attribute_size}

abbrev pub lsof : List ℕ
lsof = b'L' ∷ b'S' ∷ b'O' ∷ b'F' ∷ []

abbrev pub has_key_section : ℕ → Metadata → Bool
has_key_section version m = leb 6 version && (m.format == 1)

-- The attributes have their values' places in them.
abbrev pub has_offsets : ℕ → Metadata → Bool
has_offsets version m = leb 3 version && (m.format == 1)

module _ (codecs : Codecs) (with_dict : List ℕ → ℕ → List ℕ → Option (List ℕ)) where
  unfoldable pub key_section : ℕ → Metadata → List ℕ → Option (List ℕ)
  key_section version m rest =
      if has_key_section version m
      then (do
        (keys, end) ← section codecs with_dict (m.flags % 16) version m.ku m.kd true rest
        some keys)
      else some []

  -- What follows the metadata.
  unfoldable pub read_sections : ℕ → List ℕ → Metadata → List ℕ → Option LsfDocument
  unfolding key_section
  read_sections version before m rest = do
    let method = m.flags % 16
    (strings, r1) ← section codecs with_dict method version m.su m.sd false rest
    (nodes, r2) ← section codecs with_dict method version m.nu m.nd true r1
    (attributes, r3) ← section codecs with_dict method version m.au m.ad true r2
    (values, r4) ← section codecs with_dict method version m.vu m.vd true r3
    keys ← key_section version m r4
    names ← read_names strings
    let v3 = has_offsets version m
    some (record {
      prefix = before;
      metadata_at = metadata_place version;
      version = version;
      has_keys = has_key_section version m;
      strings = strings;
      nodes = nodes;
      attributes = attributes;
      values = values;
      keys = keys;
      string_values =
          string_values (length attributes / attribute_size v3) v3 names (length values) attributes
            0;
    })

  unfoldable pub lsf_read : List ℕ → Option LsfDocument
  unfolding read_sections metadata
  lsf_read data' =
      let version = u32 data' 4 in
      let at = metadata_place version in
      let behind = at + metadata_size version in
      if ltb (length data') 12 || not (same_bytes (take 4 data') lsof)
      then none
      else if ltb version 1 || ltb 7 version
      then none
      else if ltb (length data') behind
      then none
      else read_sections version (take behind data') (metadata version (drop at data'))
          (drop behind data')
