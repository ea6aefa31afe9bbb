-- ===== src/GameFiles/Index.antt =====
-- src/game_files.cpp: the index of the archives, and what the callers ask of it.
use bg3le.Common.{
  ℕ, Bool, true, false, not, Option, none, some, List, [], ◌∷◌, ◌++◌, ◌==◌, if◌then◌else◌, ◌>>=◌,
}
use bg3le.Pak.Format.{Codecs}
use bg3le.Pak.Read.{same_bytes}
use bg3le.Pak.Cache.{Lists, pak_list, pak_read, starts_with, contains}
use bg3le.GameFiles.Map.{find, emplace, lower_bound}
use bg3le.GameFiles.Host.{Host, game_data_root, archives}

-- `Index`, and the lists that src/pak.cpp keeps.
pub record State : Type 0 where
  pub built : Bool
  pub files : List (List ℕ × List ℕ)
  pub lists : Lists

abbrev pub at_start : State
at_start = record { built = false; files = []; lists = [] }

unfoldable pub safe : List ℕ → Bool
safe [] = false
safe (c ∷ path) = if c == b'/' then false else not (contains (b'.' ∷ b'.' ∷ []) (c ∷ path))

-- The callback of `pak_list`, for each name.
unfoldable pub add_names : List ℕ → List (List ℕ) → List (List ℕ × List ℕ) → List (List ℕ × List ℕ)
add_names pak [] files = files
add_names pak (name ∷ names) files = add_names pak names (emplace name pak files)

abbrev pub last_contents : List (List ℕ × List ℕ) → Option (List ℕ)
last_contents [] = none
last_contents ((name, contents) ∷ found) = elim (last_contents found) [
  | none ↦ some contents
  | some later ↦ some later
]

-- A loose file, which overrides the archives.
abbrev pub loose_in : Host → List ℕ → List ℕ → Option (List ℕ)
loose_in host [] path = none
loose_in host (c ∷ root) path = host.file ((c ∷ root) ++ (b'/' ∷ path))

unfoldable pub read_loose : Host → List ℕ → Option (List ℕ)
unfolding game_data_root
read_loose host path = loose_in host (game_data_root host) path

abbrev pub starting : List ℕ → List (List ℕ × List ℕ) → List (List ℕ)
starting prefix [] = []
starting prefix ((name, pak) ∷ files) =
    let rest = starting prefix files in if starts_with prefix name then name ∷ rest else []

module _ (codecs : Codecs) (host : Host) where
  abbrev pub listed_names : Option (List (List ℕ)) → List (List ℕ)
  listed_names none = []
  listed_names (some names) = names

  -- The loop over the archives.
  unfoldable pub index_paks : List (List ℕ) → State → State
  unfolding add_names pak_list
  index_paks [] s = s
  index_paks (pak ∷ paks) s =
      let (names, lists') = pak_list codecs host.file pak s.lists in
      index_paks paks
        (record s { files = add_names pak (listed_names names) s.files; lists = lists' })

  unfoldable pub build : State → State
  unfolding index_paks archives
  build s = if s.built then s else index_paks (archives host) (record s { built = true })

  -- The sink assigns, so the last file with the name is the one returned.
  unfoldable pub read_from : List ℕ → Option (List ℕ) → State → Option (List ℕ) × State
  unfolding pak_read
  read_from path none s = (none, s)
  read_from path (some pak) s =
      let (found, lists') = pak_read codecs host.file pak (λ name. same_bytes name path) s.lists in
      ((found >>= λ calls. last_contents calls), record s { lists = lists' })

  unfoldable pub indexed_read : List ℕ → Option (List ℕ) → State → Option (List ℕ) × State
  unfolding build read_from
  indexed_read path (some loose) s = (some loose, s)
  indexed_read path none s = read_from path (find path (build s).files) (build s)

  unfoldable pub game_file_read : List ℕ → State → Option (List ℕ) × State
  unfolding safe read_loose indexed_read
  game_file_read path s =
      if not (safe path) then (none, s) else indexed_read path (read_loose host path) s

  unfoldable pub indexed_exists : List ℕ → Option (List ℕ) → State → Bool × State
  unfolding build
  indexed_exists path (some loose) s = (true, s)
  indexed_exists path none s =
      (elim (find path (build s).files) [ none ↦ false | some pak ↦ true ], build s)

  unfoldable pub game_file_exists : List ℕ → State → Bool × State
  unfolding safe read_loose indexed_exists
  game_file_exists path s =
      if not (safe path) then (false, s) else indexed_exists path (read_loose host path) s

  unfoldable pub game_files_under : List ℕ → State → List (List ℕ) × State
  unfolding build
  game_files_under prefix s = (starting prefix (lower_bound prefix (build s).files), build s)
