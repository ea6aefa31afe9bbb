-- ===== src/GameFiles/Host.antt =====
-- src/game_files.cpp: `paks_in`, `archives`, `game_data_root` and `game_language`.
use bg3le.Common.{
  ℕ, ◌||◌, not, Option, none, some, List, [], ◌∷◌, ◌++◌, length, take, drop, ltb, if◌then◌else◌,
  ◌>>=◌,
}
use bg3le.Pak.Read.{pak_priority}
use bg3le.Pak.Cache.{starts_with}
use bg3le.PakFix.Paths.{up_to_quote, ends_with}
use bg3le.GameFiles.Map.{less}

-- What the system answers: `readlink` of `/proc/self/exe`, the names in a directory, and the bytes of
-- a file, `none` for what cannot be opened. It does not change between the calls.
pub record Host : Type 0 where
  pub exe : Option (List ℕ)
  pub directory : List ℕ → Option (List (List ℕ))
  pub file : List ℕ → Option (List ℕ)

-- What stands before the last `needle`.
unfoldable pub before_last : List ℕ → List ℕ → Option (List ℕ)
before_last needle [] = if starts_with needle [] then some [] else none
before_last needle (c ∷ s) = elim (before_last needle s) [
  | some r ↦ some (c ∷ r)
  | none ↦ if starts_with needle (c ∷ s) then some [] else none
]

abbrev pub root_of : Option (List ℕ) → List ℕ
root_of none = []
root_of (some path) = path ++ (b'/' ∷ b'D' ∷ b'a' ∷ b't' ∷ b'a' ∷ [])

-- The empty string when there is no such directory. `readlink` writes 4095 characters at most.
unfoldable pub game_data_root : Host → List ℕ
unfolding before_last
game_data_root host =
    root_of (do exe ← host.exe; before_last (b'/' ∷ b'b' ∷ b'i' ∷ b'n' ∷ b'/' ∷ []) (take 4095 exe))

-- What stands from the first `needle` on.
unfoldable pub from_first : List ℕ → List ℕ → Option (List ℕ)
from_first needle [] = if starts_with needle [] then some [] else none
from_first needle (c ∷ s) =
    let rest = from_first needle s in if starts_with needle (c ∷ s) then some (c ∷ s) else rest

abbrev pub quoted_language : List ℕ
quoted_language = 34 ∷ b'L' ∷ b'a' ∷ b'n' ∷ b'g' ∷ b'u' ∷ b'a' ∷ b'g' ∷ b'e' ∷ 34 ∷ []

-- `id="Value" value="`
abbrev pub value_lead : List ℕ
value_lead =
    b'i' ∷ b'd' ∷ b'=' ∷ 34 ∷ b'V' ∷ b'a' ∷ b'l' ∷ b'u' ∷ b'e' ∷ 34 ∷ 32 ∷ b'v' ∷ b'a' ∷ b'l' ∷ b'u'
    ∷ b'e' ∷ b'=' ∷ 34 ∷ []

abbrev pub or_english : Option (List ℕ) → List ℕ
or_english none = b'E' ∷ b'n' ∷ b'g' ∷ b'l' ∷ b'i' ∷ b's' ∷ b'h' ∷ []
or_english (some []) = b'E' ∷ b'n' ∷ b'g' ∷ b'l' ∷ b'i' ∷ b's' ∷ b'h' ∷ []
or_english (some (c ∷ s)) = c ∷ s

abbrev pub localization : List ℕ
localization =
    b'/' ∷ b'L' ∷ b'o' ∷ b'c' ∷ b'a' ∷ b'l' ∷ b'i' ∷ b'z' ∷ b'a' ∷ b't' ∷ b'i' ∷ b'o' ∷ b'n' ∷ []

abbrev pub language_file : List ℕ
language_file =
    b'/' ∷ b'l' ∷ b'a' ∷ b'n' ∷ b'g' ∷ b'u' ∷ b'a' ∷ b'g' ∷ b'e' ∷ b'.' ∷ b'l' ∷ b's' ∷ b'x' ∷ []

unfoldable pub game_language : Host → List ℕ
unfolding game_data_root from_first up_to_quote
game_language host = or_english (do
  contents ← host.file (game_data_root host ++ (localization ++ language_file))
  key ← from_first quoted_language contents
  value ← from_first value_lead key
  up_to_quote (drop (length value_lead) value))

-- `std::sort` of paths.
abbrev pub insert_path : List ℕ → List (List ℕ) → List (List ℕ)
insert_path path [] = path ∷ []
insert_path path (p ∷ paths) =
    let rest = insert_path path paths in if less p path then p ∷ rest else path ∷ (p ∷ paths)

abbrev pub sort_paths : List (List ℕ) → List (List ℕ)
sort_paths [] = []
sort_paths (path ∷ paths) = insert_path path (sort_paths paths)

-- The names of five characters or more that end in `.pak`, behind the directory.
unfoldable pub pak_paths : List ℕ → List (List ℕ) → List (List ℕ)
pak_paths dir [] = []
pak_paths dir (name ∷ names) =
    let rest = pak_paths dir names in
    if ltb (length name) 5 || not (ends_with name (b'.' ∷ b'p' ∷ b'a' ∷ b'k' ∷ []))
    then rest
    else (dir ++ (b'/' ∷ name)) ∷ rest

unfoldable pub paks_in : Host → List ℕ → List (List ℕ)
unfolding pak_paths
paks_in host dir = elim (host.directory dir) [
  | none ↦ []
  | some names ↦ sort_paths (pak_paths dir names)
]

-- 0 for a file that has none.
abbrev pub priority : Host → List ℕ → ℕ
priority host path = elim (host.file path >>= (λ (f : List ℕ). pak_priority f)) [
  | none ↦ 0
  | some p ↦ p
]

-- `std::stable_sort` by priority, the highest first: before the first path that has no higher one.
unfoldable pub insert_pak : Host → List ℕ → List (List ℕ) → List (List ℕ)
unfolding pak_priority
insert_pak host path [] = path ∷ []
insert_pak host path (p ∷ paths) =
    let rest = insert_pak host path paths in
    if ltb (priority host path) (priority host p) then p ∷ rest else path ∷ (p ∷ paths)

unfoldable pub sort_paks : Host → List (List ℕ) → List (List ℕ)
unfolding insert_pak
sort_paks host [] = []
sort_paks host (path ∷ paths) = insert_pak host path (sort_paks host paths)

unfoldable pub all_paks : Host → List ℕ → List (List ℕ)
unfolding paks_in game_language
all_paks host root =
    paks_in host root
    ++ (paks_in host (root ++ localization)
        ++ paks_in host (root ++ (localization ++ (b'/' ∷ game_language host))))

unfoldable pub archives_in : Host → List ℕ → List (List ℕ)
unfolding all_paks sort_paks
archives_in host [] = []
archives_in host (c ∷ root) = sort_paks host (all_paks host (c ∷ root))

-- The archives that the engine mounts, in the order in which it resolves them.
unfoldable pub archives : Host → List (List ℕ)
unfolding archives_in game_data_root
archives host = archives_in host (game_data_root host)
