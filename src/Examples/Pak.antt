-- ===== src/Examples/Pak.antt =====
-- src/pak.cpp at concrete inputs.
use bg3le.Common.{
  ℕ, ◌+◌, ◌/◌, ◌≤◌, ◌<◌, ◌≡◌, ◌≢◌, ◌==◌, if◌then◌else◌, refl, ap, ==_iff, Option, none, some, List,
  [], ◌∷◌, length, take, drop, subst, arith,
}
use mathlib.Core.List.{map}
use mathlib.Core.Option.{some-injective}
use mathlib.Core.Option
use bg3le.Pak.Format.{
  Codecs, PakFile, PakListing, entry_size, decode18, decode15, encode18, encode15,
}
use bg3le.Pak.Read.{pak_listing, pak_file_read, read_header}
use bg3le.Pak.Write.{Contents, pak_write, pak_write_listing}
use bg3le.Pak.Relisting.{outline, pak_listing-pak_write_listing}
use bg3le.Common.Bytes.{le_value}
use bg3le.Pak.Cache.{Entry, Agrees, list_on_disk, read_lists}
use bg3le.Pak.Kept.{read_lists_lem}
use bg3le.Pak.Entries.{Fits18, Fits15, NameFits, decode18-encode18, decode15-encode15}
use bg3le.Pak.RoundTrip.{FileFits, placed, read_back, pak_listing-pak_write}

abbrev one_file : PakFile
one_file = record {
  name = b'a' ∷ b'/' ∷ b'b' ∷ [];
  offset = 0x123456789ab;
  size_on_disk = 10;
  uncompressed_size = 20;
  flags = 0x42;
  part = 1;
  crc = 0;
}

decode18-encode18_example : decode18 (encode18 one_file) ≡ one_file
unfolding Fits18 NameFits
decode18-encode18_example = decode18-encode18 one_file (
  (omega arith, (λ e. omega arith, (λ e. omega arith, (λ e. omega arith, tt)))),
  omega arith,
  omega arith,
  omega arith,
  omega arith,
  omega arith,
  refl,
)

decode15-encode15_example : decode15 (encode15 one_file) ≡ one_file
unfolding Fits15 NameFits
decode15-encode15_example = decode15-encode15 one_file (
  (omega arith, (λ e. omega arith, (λ e. omega arith, (λ e. omega arith, tt)))),
  omega arith,
  omega arith,
  omega arith,
  omega arith,
  omega arith,
  omega arith,
)

-- A codec that stores what it is given.
abbrev kept : List ℕ → Option (List ℕ)
kept [] = none
kept (x ∷ xs) = some (x ∷ xs)

abbrev exactly : List ℕ → ℕ → Option (List ℕ)
exactly xs n = if length xs == n then some xs else none

pub kept_size :
    (xs ys : List ℕ)
    → kept xs ≡ some ys
    → (0 < length ys) × (length ys ≤ length xs + length xs / 255 + 16)
kept_size [] ys e = cc
kept_size (x ∷ xs) ys e =
    let same = ap length (some-injective _ _ e) in (omega (arith, same), omega (arith, same))

pub kept_back : (xs ys : List ℕ) → kept xs ≡ some ys → exactly ys (length xs) ≡ some xs
kept_back [] ys e = cc
kept_back (x ∷ xs) ys e =
    subst (λ t. exactly t (length (x ∷ xs)) ≡ some (x ∷ xs)) (some-injective _ _ e)
      (rw ((==_iff (length (x ∷ xs)) (length (x ∷ xs))).1 refl) refl)

abbrev pub storing : Codecs
storing = record {
  compress = kept;
  lz4 = exactly;
  zstd = exactly;
  compress_size = kept_size;
  lz4_undoes = kept_back;
}

abbrev two_files : Contents
two_files = (b'a' ∷ [], 1 ∷ 2 ∷ 3 ∷ []) ∷ (b'b' ∷ [], []) ∷ []

unfoldable pub two_files_archive : List ℕ
unfolding pak_write
two_files_archive = elim (pak_write storing two_files) [ none ↦ [] | some bytes ↦ bytes ]

pak_listing-pak_write_example :
    (Option.map (λ l. l.files) (pak_listing storing two_files_archive) ≡ some (placed two_files 40))
    × (map (pak_file_read storing two_files_archive) (placed two_files 40)
        ≡ map read_back two_files)
unfolding pak_write FileFits NameFits two_files_archive
pak_listing-pak_write_example =
    pak_listing-pak_write storing two_files two_files_archive
      (
        ((omega arith, (λ e. omega arith, tt)), omega arith),
        (((omega arith, (λ e. omega arith, tt)), omega arith), tt),
      )
      (omega arith) (omega arith) refl

-- Another list for that archive, in the place of the one it has.
abbrev one_listed : PakListing
one_listed = record {
  version = 18;
  flags = 0;
  parts = 1;
  list_offset = 0;
  list_size = 108;
  list_compressed = 100;
  files = one_file ∷ [];
}

unfoldable relisted_archive : List ℕ
unfolding pak_write_listing two_files_archive
relisted_archive = elim (pak_write_listing storing two_files_archive 43 one_listed) [
  | none ↦ []
  | some bytes ↦ bytes
]

pak_listing-pak_write_listing_example :
    (Option.map outline (pak_listing storing relisted_archive) ≡ some (18, 43, 8, one_file ∷ []))
    × (drop 20 (take 43 relisted_archive) ≡ drop 20 (take 43 two_files_archive))
unfolding relisted_archive two_files_archive pak_write_listing read_header entry_size le_value
    Fits18 NameFits
pak_listing-pak_write_listing_example =
    pak_listing-pak_write_listing storing two_files_archive (take 40 two_files_archive)
      relisted_archive 272 43 one_listed refl refl refl (omega arith) (omega arith) (omega arith)
      (
        (
          (omega arith, (λ e. omega arith, (λ e. omega arith, (λ e. omega arith, tt)))),
          omega arith,
          omega arith,
          omega arith,
          omega arith,
          omega arith,
          refl,
        ),
        tt,
      )
      (omega arith) (omega arith) refl

-- One archive that can be opened.
abbrev one_archive : List ℕ → Option (List ℕ)
one_archive [] = none
one_archive (c ∷ path) = if c == b'm' then some two_files_archive else none

pub none-ne-entries : (entries : List Entry) → ◌≢◌ {A = Option (List Entry)} none (some entries)
none-ne-entries entries e = cc

empty-Agrees : Agrees storing one_archive []
unfolding Agrees
empty-Agrees path entries e = absurd (none-ne-entries entries e)

abbrev three_paths : List (List ℕ)
three_paths = (b'm' ∷ []) ∷ ((b'x' ∷ []) ∷ ((b'm' ∷ []) ∷ []))

read_lists_example :
    ((read_lists storing one_archive three_paths []).0
      ≡ map (list_on_disk storing one_archive) three_paths)
    × Agrees storing one_archive (read_lists storing one_archive three_paths []).1
read_lists_example = read_lists_lem storing one_archive three_paths [] empty-Agrees
