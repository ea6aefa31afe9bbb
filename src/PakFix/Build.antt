-- ===== src/PakFix/Build.antt =====
-- src/pak_fix.cpp: `pak_fix_build`, from the bytes of an archive to those of its corrected copy.
use bg3le.Common.{
  ℕ, ◌+◌, ◌-◌, ◌*◌, ◌%◌, ◌/◌, ◌^◌, Bool, true, false, ◌&&◌, ◌||◌, not, Option, none, some, List, [],
  ◌∷◌, ◌++◌, length, get_or, set, take, replicate, ltb, ◌==◌, if◌then◌else◌, ◌>>=◌,
}
use mathlib.Core.List.{map}
use bg3le.Pak.Format.{Codecs, PakFile, PakListing}
use bg3le.Pak.Read.{same_bytes, pak_listing, pak_file_read, pak_file_empty}
use bg3le.Pak.Write.{pak_write_listing}
use bg3le.Lsf.Document.{LsfDocument}
use bg3le.Lsf.Read.{lsf_read}
use bg3le.Lsf.Write.{lsf_write}
use bg3le.PakFix.Names.{extension, is_lsf, crc32}
use bg3le.PakFix.Paths.{is_text}
use bg3le.PakFix.State.{Content}
use bg3le.PakFix.Unify.{Unified, repaired}

abbrev pub no_file : PakFile
no_file = record {
  name = [];
  offset = 0;
  size_on_disk = 0;
  uncompressed_size = 0;
  flags = 0;
  part = 0;
  crc = 0;
}

-- A file at the end of the copy, behind zeros up to a multiple of 64.
abbrev pub padding : ℕ → ℕ
padding at = (64 - at % 64) % 64

abbrev pub placed : PakFile → ℕ → List ℕ → PakFile
placed file at contents = record file {
  part = 0;
  offset = at;
  size_on_disk = length contents;
  uncompressed_size = 0;
  flags = 0;
  crc = crc32 contents;
}

-- The loop over the replaced files: the copy's bytes and the files of the listing.
unfoldable pub place : List (ℕ × List ℕ) → List ℕ → List PakFile → List ℕ × List PakFile
unfolding crc32
place [] out files = (out, files)
place ((i, contents) ∷ replaced) out files =
    let at = length out + padding (length out) in
    place replaced (out ++ (replicate (padding (length out)) 0 ++ contents))
      (set files i (placed (get_or files i no_file) at contents))

-- `kMaxScanBytes`
abbrev pub max_scan_bytes : ℕ
max_scan_bytes = 32 * 2 ^ 20

abbrev pub scan_size : PakFile → ℕ
scan_size file = if file.uncompressed_size == 0 then file.size_on_disk else file.uncompressed_size

-- The conditions on a file under which its content is not read.
abbrev pub is_passed : PakFile → Bool
is_passed file =
    (not (is_lsf (extension file.name)) && not (is_text (extension file.name)))
    || (pak_file_empty file || ltb max_scan_bytes (scan_size file))

abbrev pub all_in_first_part : List PakFile → Bool
all_in_first_part [] = true
all_in_first_part (file ∷ files) = (file.part == 0) && all_in_first_part files

-- Behind the contents that changed, a newline for each empty file.
unfoldable pub newlines : ℕ → List PakFile → List (ℕ × List ℕ)
unfolding pak_file_empty
newlines i [] = []
newlines i (file ∷ files) =
    let rest = newlines (i + 1) files in if pak_file_empty file then (i, 10 ∷ []) ∷ rest else rest

abbrev pub was_empty : List ℕ
was_empty =
    b':' ∷ 32 ∷ b'w' ∷ b'a' ∷ b's' ∷ 32 ∷ b'e' ∷ b'm' ∷ b'p' ∷ b't' ∷ b'y' ∷ b';' ∷ 32 ∷ b'n' ∷ b'o'
    ∷ b'w' ∷ 32 ∷ b'a' ∷ 32 ∷ b'n' ∷ b'e' ∷ b'w' ∷ b'l' ∷ b'i' ∷ b'n' ∷ b'e' ∷ []

unfoldable pub newline_lines : List PakFile → List (List ℕ)
unfolding pak_file_empty
newline_lines [] = []
newline_lines (file ∷ files) =
    let rest = newline_lines files in
    if pak_file_empty file then (file.name ++ was_empty) ∷ rest else rest

abbrev pub written : Content → Option LsfDocument → List ℕ
written c none = c.text
written c (some doc) = lsf_write doc

unfoldable pub changed_contents : List Content → List (ℕ × List ℕ)
unfolding lsf_write
changed_contents [] = []
changed_contents (c ∷ contents) =
    let rest = changed_contents contents in
    if c.changed then (c.file, written c c.doc) ∷ rest else rest

abbrev pub file_names : List PakFile → List (List ℕ)
file_names files = map (λ (file : PakFile). file.name) files

abbrev pub all_same_names : List (List ℕ) → List (List ℕ) → Bool
all_same_names [] news = true
all_same_names (old ∷ olds) [] = true
all_same_names (old ∷ olds) (new ∷ news) = same_bytes new old && all_same_names olds news

-- Whether `unify` answered true and gave an entry another name.
abbrev pub is_renamed : List (List ℕ) → Unified → Bool
is_renamed names u = u.done && not (all_same_names names u.names)

unfoldable pub with_names : List (List ℕ) → List PakFile → List PakFile
with_names [] files = files
with_names (name ∷ names) [] = []
with_names (name ∷ names) (file ∷ files) = record file { name = name } ∷ with_names names files

-- `pak_fix_build`'s answer: -1, a count of fixes without a copy, or with one.
pub data Fix : Type 0 where
  failed : Fix
  unchanged : List (List ℕ) → Fix
  corrected : List (List ℕ) → List ℕ → Fix

abbrev pub or_failed : List (List ℕ) → Option (List ℕ) → Fix
or_failed lines none = failed
or_failed lines (some copy) = corrected lines copy

-- What the copy begins with: of version 18 the header, for two parts, else the whole archive.
abbrev pub is_split : PakListing → Bool
is_split listing = listing.version == 18

unfoldable pub beginning : PakListing → List ℕ → List ℕ
beginning listing archive = if is_split listing then take 38 archive ++ (2 ∷ (0 ∷ [])) else archive

abbrev pub second_part : PakFile → PakFile
second_part file = record file { part = 1 }

abbrev pub moved_files : PakListing → List PakFile
moved_files listing = if is_split listing then map second_part listing.files else listing.files

module _ (codecs : Codecs) (with_dict : List ℕ → ℕ → List ℕ → Option (List ℕ)) where
  abbrev pub as_content : ℕ → Bool → List ℕ → Option Content
  as_content i false text = some (record { file = i; text = text; doc = none; changed = false })
  as_content i true text = do
    doc ← lsf_read codecs with_dict text
    some (record { file = i; text = []; doc = some doc; changed = false })

  abbrev pub content_of : List ℕ → ℕ → PakFile → Option Content
  content_of archive i file =
      pak_file_read codecs archive file
      >>= (λ (text : List ℕ). as_content i (is_lsf (extension file.name)) text)

  -- The loop over the files, from the index `i` on.
  unfoldable pub read_contents : List ℕ → ℕ → List PakFile → List Content
  unfolding lsf_read pak_file_read is_lsf is_text extension pak_file_empty
  read_contents archive i [] = []
  read_contents archive i (file ∷ files) =
      let rest = read_contents archive (i + 1) files in
      let content = content_of archive i file in
      if is_passed file then rest else elim content [ none ↦ rest | some c ↦ c ∷ rest ]

  -- The copy, when some files are replaced or renamed.
  unfoldable pub copied : List ℕ → PakListing → List (ℕ × List ℕ) → Bool → Unified → Option (List ℕ)
  unfolding place beginning with_names pak_write_listing
  copied archive listing replaced renamed u =
      let (out, files) = place replaced (beginning listing archive) (moved_files listing) in
      pak_write_listing codecs out (length out)
        (record listing { files = if renamed then with_names u.names files else files })

  abbrev pub none_replaced : List (ℕ × List ℕ) → Bool
  none_replaced [] = true
  none_replaced (r ∷ replaced) = false

  unfoldable pub fix_listing : List ℕ → PakListing → Option Fix
  unfolding read_contents repaired changed_contents newlines newline_lines copied
  fix_listing archive listing = do
    let names = file_names listing.files
    u ← repaired names (read_contents archive 0 listing.files)
    let replaced = changed_contents u.contents ++ newlines 0 listing.files
    let lines = u.fixes ++ newline_lines listing.files
    some (
        if none_replaced replaced && not (is_renamed names u)
        then unchanged lines
        else or_failed lines (copied archive listing replaced (is_renamed names u) u))

  abbrev pub is_fixable : PakListing → Bool
  is_fixable listing =
      (listing.parts == 1)
      && (not ((listing.flags / 4) % 2 == 1) && all_in_first_part listing.files)

  -- `none` only if the fuel of the class runs out.
  unfoldable pub pak_fix_build : List ℕ → Option Fix
  unfolding pak_listing fix_listing
  pak_fix_build archive = elim (pak_listing codecs archive) [
    | none ↦ some (unchanged [])
    | some listing ↦ if is_fixable listing then fix_listing archive listing else some (unchanged [])
  ]
