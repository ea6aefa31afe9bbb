-- ===== src/Pak/Cache.antt =====
-- src/pak.cpp: `read_list` with its cache of lists, `pak_list` and `pak_read`.
--
-- The files are a function from paths to their bytes, `none` for a file that cannot be opened, and
-- do not change between the calls. `g_lists` is an association list.
use bg3le.Common.{
  ℕ, zero, suc, ◌+◌, ◌-◌, ◌%◌, ◌/◌, ◌≡◌, Bool, true, false, ◌&&◌, ◌||◌, not, Option, none, some,
  List, [], ◌∷◌, ◌++◌, length, take, leb, ltb, ◌==◌, if◌then◌else◌, ◌>>=◌,
}
use mathlib.Core.List.{map}
use bg3le.Pak.Format.{Codecs, PakFile}
use bg3le.Pak.Read.{same_bytes, pak_listing, pak_file_read}

pub record Entry : Type 0 where
  pub name : List ℕ
  pub offset : ℕ
  pub size_on_disk : ℕ
  pub uncompressed_size : ℕ
  pub flags : ℕ
  pub part : ℕ

abbrev pub Lists : Type 0
Lists = List (List ℕ × List Entry)

abbrev pub cacheable_entries : ℕ
cacheable_entries = 8192

abbrev pub starts_with : List ℕ → List ℕ → Bool
starts_with [] s = true
starts_with (c ∷ t) [] = false
starts_with (c ∷ t) (d ∷ s) = (c == d) && starts_with t s

-- `strstr`
abbrev pub contains : List ℕ → List ℕ → Bool
contains t [] = starts_with t []
contains t (c ∷ s) = starts_with t (c ∷ s) || contains t s

unfoldable pub parts_wanted : List ℕ → Bool
parts_wanted path = not (contains (b'/' ∷ b'D' ∷ b'a' ∷ b't' ∷ b'a' ∷ b'/' ∷ []) path)

-- `std::to_string`, of at most ten digits.
unfoldable pub decimal : ℕ → ℕ → List ℕ → List ℕ
decimal zero n digits = digits
decimal (suc fuel) n digits =
    let more = decimal fuel (n / 10) ((b'0' + n % 10) ∷ digits) in
    if n / 10 == 0 then (b'0' + n % 10) ∷ digits else more

unfoldable pub part_name : List ℕ → ℕ → List ℕ
unfolding decimal
part_name path part =
    (if ltb 4 (length path) then take (length path - 4) path else path)
    ++ (b'_' ∷ (decimal 10 part [] ++ (b'.' ∷ b'p' ∷ b'a' ∷ b'k' ∷ [])))

-- The loop over the files of the listing.
unfoldable pub entries_of : Bool → List PakFile → List Entry
entries_of parts [] = []
entries_of parts (file ∷ files) =
    let rest = entries_of parts files in
    if not (file.part == 0) && not parts
    then rest
    else record {
      name = file.name;
      offset = file.offset;
      size_on_disk = file.size_on_disk;
      uncompressed_size = file.uncompressed_size;
      flags = file.flags;
      part = file.part;
    }
      ∷ rest

abbrev pub find_list : List ℕ → Lists → Option (List Entry)
find_list path [] = none
find_list path ((p, entries) ∷ lists) =
    let rest = find_list path lists in if same_bytes p path then some entries else rest

unfoldable pub keep_list : List ℕ → List Entry → Lists → Lists
keep_list path entries lists =
    if leb (length entries) cacheable_entries then (path, entries) ∷ lists else lists

-- `read_entry`, which takes of the entry what `pak_file_read` takes of a file.
abbrev pub file_of : Entry → PakFile
file_of e = record {
  name = e.name;
  offset = e.offset;
  size_on_disk = e.size_on_disk;
  uncompressed_size = e.uncompressed_size;
  flags = e.flags;
  part = 0;
  crc = 0;
}

module _ (codecs : Codecs) (disk : List ℕ → Option (List ℕ)) where
  -- What `read_list` does of a path that is not in the cache.
  unfoldable pub list_on_disk : List ℕ → Option (List Entry)
  unfolding parts_wanted entries_of
  list_on_disk path = do
    bytes ← disk path
    listing ← pak_listing codecs bytes
    if (listing.version == 18) && (not (listing.parts == 1) && not (parts_wanted path))
        then none
        else some (entries_of (parts_wanted path) listing.files)

  unfoldable pub kept_if_read : List ℕ → Option (List Entry) → Lists → Option (List Entry) × Lists
  unfolding keep_list
  kept_if_read path none lists = (none, lists)
  kept_if_read path (some entries) lists = (some entries, keep_list path entries lists)

  unfoldable pub cached_or_read : List ℕ → Option (List Entry) → Lists → Option (List Entry) × Lists
  unfolding list_on_disk kept_if_read
  cached_or_read path (some entries) lists = (some entries, lists)
  cached_or_read path none lists = kept_if_read path (list_on_disk path) lists

  unfoldable pub read_list : List ℕ → Lists → Option (List Entry) × Lists
  unfolding cached_or_read
  read_list path lists = cached_or_read path (find_list path lists) lists

  unfoldable pub pak_list : List ℕ → Lists → Option (List (List ℕ)) × Lists
  unfolding read_list
  pak_list path lists =
      let (entries, lists') = read_list path lists in
      ((do es ← entries; some (map (λ e. e.name) es)), lists')

  -- The archive or the part of it that holds an entry.
  abbrev pub part_bytes : List ℕ → ℕ → Option (List ℕ)
  part_bytes path part = if part == 0 then disk path else disk (part_name path part)

  -- The loop that calls the sink, with its calls: an entry that cannot be read is passed over.
  unfoldable pub read_accepted : List ℕ → (List ℕ → Bool) → List Entry → List (List ℕ × List ℕ)
  unfolding part_name
  read_accepted path accept [] = []
  read_accepted path accept (e ∷ entries) =
      let rest = read_accepted path accept entries in
      let contents = part_bytes path e.part >>= λ bytes. pak_file_read codecs bytes (file_of e) in
      if accept e.name then elim contents [ none ↦ rest | some c ↦ (e.name, c) ∷ rest ] else rest

  abbrev pub any_accepted : (List ℕ → Bool) → List Entry → Bool
  any_accepted accept [] = false
  any_accepted accept (e ∷ entries) = accept e.name || any_accepted accept entries

  unfoldable pub pak_read :
      List ℕ → (List ℕ → Bool) → Lists → Option (List (List ℕ × List ℕ)) × Lists
  unfolding read_list read_accepted
  pak_read path accept lists =
      let (found, lists') = read_list path lists in
      (
        (do
          entries ← found
          if any_accepted accept entries
              then (do bytes ← disk path; some (read_accepted path accept entries))
              else some []),
        lists',
      )

  -- The calls of `read_list` one after the other.
  unfoldable pub read_lists : List (List ℕ) → Lists → List (Option (List Entry)) × Lists
  unfolding read_list
  read_lists [] lists = ([], lists)
  read_lists (path ∷ paths) lists =
      let (found, lists') = read_list path lists in
      let (rest, lists'') = read_lists paths lists' in (found ∷ rest, lists'')

  -- Every list that is kept is the one on disk.
  unfoldable pub Agrees : Lists → Type 0
  Agrees lists =
      (path : List ℕ) (entries : List Entry)
      → find_list path lists ≡ some entries
      → list_on_disk path ≡ some entries
