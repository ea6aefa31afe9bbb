-- ===== src/PakFix/Parts.antt =====
-- src/pak_fix.cpp: which paths are those of mods' archives, and of their parts.
use bg3le.Common.{
  ℕ, suc, ◌+◌, ◌-◌, Bool, true, false, ◌&&◌, not, Option, none, some, List, [], ◌∷◌, ◌++◌, length,
  take, ltb, leb, ◌==◌, if◌then◌else◌,
}
use bg3le.PakFix.Names.{iends_with}
use bg3le.PakFix.State.{range}

-- The index of the last `c`.
abbrev pub rfind : ℕ → List ℕ → Option ℕ
rfind c [] = none
rfind c (d ∷ s) = elim (rfind c s) [
  | some i ↦ some (suc i)
  | none ↦ if d == c then some 0 else none
]

abbrev pub pak : List ℕ
pak = b'.' ∷ b'p' ∷ b'a' ∷ b'k' ∷ []

abbrev pub mods_directory : List ℕ
mods_directory =
    b'/' ∷ b'B' ∷ b'a' ∷ b'l' ∷ b'd' ∷ b'u' ∷ b'r' ∷ 39 ∷ b's' ∷ 32 ∷ b'G' ∷ b'a' ∷ b't' ∷ b'e' ∷ 32
    ∷ b'3' ∷ b'/' ∷ b'M' ∷ b'o' ∷ b'd' ∷ b's' ∷ []

abbrev pub in_mods : List ℕ → Option ℕ → Bool
in_mods path none = false
in_mods path (some leaf) = not (ltb leaf 5) && iends_with (take leaf path) mods_directory

unfoldable pub mod_archive : List ℕ → Bool
unfolding iends_with
mod_archive path = iends_with path pak && in_mods path (rfind b'/' path)

abbrev pub all_digits : List ℕ → Bool
all_digits [] = true
all_digits (c ∷ s) = (leb b'0' c && leb c b'9') && all_digits s

abbrev pub archive_before : List ℕ → Option ℕ → Option (List ℕ)
archive_before path none = none
archive_before path (some under) =
    if leb (length path - 4) (under + 1)
    then none
    else if all_digits (range path (under + 1) (length path - 4))
    then some (take under path ++ pak)
    else none

-- The archive of which the path names a part, `none` for the empty string. Any digits do, so part 0
-- too. The callers' paths end in `.pak`, so that the size is 4 at least.
unfoldable pub archive_of_part : List ℕ → Option (List ℕ)
archive_of_part path = archive_before path (rfind b'_' path)
