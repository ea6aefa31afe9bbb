-- ===== src/GameFiles/Refinement.antt =====
-- src/game_files.cpp: what callers see of the index and of the caches behind it.
use bg3le.Common.{
  ℕ, ◌≡◌, refl, sym, ap, ◌∙◌, Bool, true, false, ◌||◌, not, Option, none, some, List, [], ◌∷◌,
  if◌then◌else◌, ◌>>=◌, Bool-cases, inl, inr, subst,
}
use mathlib.Core.List.{map}
use bg3le.Pak.Format.{Codecs}
use bg3le.Pak.Read.{same_bytes}
use bg3le.Pak.Cache.{Entry, Lists, list_on_disk, pak_list, pak_read, Agrees}
use bg3le.Pak.Kept.{read_list_lem}
use bg3le.GameFiles.Map.{find, lower_bound}
use bg3le.GameFiles.Host.{Host, archives}
use bg3le.GameFiles.Index.{
  State, safe, add_names, last_contents, read_loose, starting, listed_names, index_paks, build,
  read_from, game_file_read, game_file_exists, game_files_under,
}
use bg3le.GameFiles.Lookup.{or_else, or_else_assoc, or_else-none, given, has, find-add_names}

-- What a caller may ask, and what it gets.
pub data Query : Type 0 where
  read : List ℕ → Query
  exists : List ℕ → Query
  under : List ℕ → Query

pub data Answer : Type 0 where
  contents : Option (List ℕ) → Answer
  found : Bool → Answer
  names : List (List ℕ) → Answer

abbrev pub is_some {ℓ} : {A : Type ℓ} → Option A → Bool
is_some none = false
is_some (some a) = true

module _ (codecs : Codecs) (host : Host) where
  -- The names in the archive at a path, read from disk.
  abbrev pub names_of : List ℕ → List (List ℕ)
  names_of pak = listed_names codecs host (
      list_on_disk codecs host.file pak
      >>= (λ (es : List Entry). some (map (λ (e : Entry). e.name) es)))

  -- The first of the archives that has a file with the name.
  unfoldable pub owner : List (List ℕ) → List ℕ → Option (List ℕ)
  owner [] name = none
  owner (pak ∷ paks) name =
      let rest = owner paks name in if has (names_of pak) name then some pak else rest

  -- The file with a name in an archive of which no list is kept.
  abbrev pub contents_in : List ℕ → List ℕ → Option (List ℕ)
  contents_in path pak =
      (pak_read codecs host.file pak (λ (name : List ℕ). same_bytes name path) []).0
      >>= (λ (calls : List (List ℕ × List ℕ)). last_contents calls)

  -- What a path names: nothing if it is not safe, else the loose file, else the file in the first
  -- archive that lists it.
  abbrev pub resolved : List ℕ → Option (List ℕ)
  resolved path = if not (safe path) then none else elim (read_loose host path) [
    | some loose ↦ some loose
    | none ↦ owner (archives host) path >>= contents_in path
  ]

  abbrev pub named : List ℕ → Bool
  named path =
      if not (safe path)
      then false
      else is_some (read_loose host path) || is_some (owner (archives host) path)

  -- The index when no list is kept.
  unfoldable pub indexed : List (List ℕ) → List (List ℕ × List ℕ) → List (List ℕ × List ℕ)
  unfolding add_names
  indexed [] files = files
  indexed (pak ∷ paks) files = indexed paks (add_names pak (names_of pak) files)

  abbrev pub answer : Query → State → Answer × State
  answer (read path) s = let (o, s') = game_file_read codecs host path s in (contents o, s')
  answer (exists path) s = let (b, s') = game_file_exists codecs host path s in (found b, s')
  answer (under prefix) s = let (l, s') = game_files_under codecs host prefix s in (names l, s')

  unfoldable pub answers : List Query → State → List Answer
  unfolding game_file_read game_file_exists game_files_under
  answers [] s = []
  answers (q ∷ queries) s = let (a, s') = answer q s in a ∷ answers queries s'

  abbrev pub answer_of : Query → Answer
  answer_of (read path) = contents (resolved path)
  answer_of (exists path) = found (named path)
  answer_of (under prefix) =
      names (starting prefix (lower_bound prefix (indexed (archives host) [])))

  pub find-indexed :
      (paks : List (List ℕ)) (k : List ℕ) (files : List (List ℕ × List ℕ))
      → find k (indexed paks files) ≡ or_else (find k files) (owner paks k)
  unfolding indexed owner
  find-indexed [] k files = sym (or_else-none (find k files))
  find-indexed (pak ∷ paks) k files =
      find-indexed paks k (add_names pak (names_of pak) files)
      ∙ (ap (λ (o : Option (List ℕ)). or_else o (owner paks k))
            (find-add_names pak k (names_of pak) files)
          ∙ (or_else_assoc (find k files) (given (has (names_of pak) k) pak) (owner paks k)
              ∙ ap (or_else (find k files)) (elim (Bool-cases (has (names_of pak) k)) [
                | inl p ↦ rw p refl
                | inr p ↦ rw p refl
              ])))

  pak_list_lem :
      (pak : List ℕ) (lists : Lists)
      → Agrees codecs host.file lists
      → (listed_names codecs host (pak_list codecs host.file pak lists).0 ≡ names_of pak)
        × Agrees codecs host.file (pak_list codecs host.file pak lists).1
  unfolding pak_list
  pak_list_lem pak lists h =
      let (same, kept) = read_list_lem codecs host.file pak lists h in
      (
        ap
            (λ (o : Option (List Entry)).
              listed_names codecs host
                (o >>= (λ (es : List Entry). some (map (λ (e : Entry). e.name) es))))
            same,
        kept,
      )

  -- The invariant: the lists that are kept are those on disk, and the index is empty or complete.
  pub record Represents (s : State) : Type 0 where
    pub agrees : Agrees codecs host.file s.lists
    pub empty : s.built ≡ false → s.files ≡ []
    pub complete : s.built ≡ true → s.files ≡ indexed (archives host) []

  index_paks_lem :
      (paks : List (List ℕ)) (s : State)
      → Agrees codecs host.file s.lists
      → Agrees codecs host.file (index_paks codecs host paks s).lists
        × ((index_paks codecs host paks s).files ≡ indexed paks s.files)
        × ((index_paks codecs host paks s).built ≡ s.built)
  unfolding index_paks indexed
  index_paks_lem [] s h = (h, refl, refl)
  index_paks_lem (pak ∷ paks) s h =
      let (same, kept) = pak_list_lem pak s.lists h in
      let s' : State = record s {
        files =
            add_names pak (listed_names codecs host (pak_list codecs host.file pak s.lists).0)
              s.files;
        lists = (pak_list codecs host.file pak s.lists).1;
      } in
      let (agree, files, built) = index_paks_lem paks s' kept in
      (
        agree,
        files ∙ ap (λ (l : List (List ℕ)). indexed paks (add_names pak l s.files)) same,
        built,
      )

  pub build_lem :
      (s : State)
      → Represents s
      → Represents (build codecs host s)
        × ((build codecs host s).files ≡ indexed (archives host) [])
  unfolding build
  build_lem s h =
      let made = index_paks codecs host (archives host) (record s { built = true }) in
      let opened : (b : Bool) → s.built ≡ b → build codecs host s ≡ (if b then s else made) =
        λ b p. ap (λ (x : Bool). if x then s else made) p in
      let shown = λ (x : State). Represents x × (x.files ≡ indexed (archives host) []) in
      elim (Bool-cases s.built) [
        | inl p ↦ subst shown (sym (opened true p)) (h, h.complete p)
        | inr p ↦
            let (agree, files, built) =
              index_paks_lem (archives host) (record s { built = true }) h.agrees in
            let whole : made.files ≡ indexed (archives host) [] =
              files ∙ ap (indexed (archives host)) (h.empty p) in
            subst shown (sym (opened false p)) (
              record {
                agrees = agree;
                empty = λ e. (let wrong : true ≡ false = sym built ∙ e in cc);
                complete = λ e. whole;
              },
              whole,
            )
      ]

  pak_read_lem :
      (pak path : List ℕ) (lists : Lists)
      → Agrees codecs host.file lists
      → ((pak_read codecs host.file pak (λ (name : List ℕ). same_bytes name path) lists).0
          ≡ (pak_read codecs host.file pak (λ (name : List ℕ). same_bytes name path) []).0)
        × Agrees codecs host.file
            (pak_read codecs host.file pak (λ (name : List ℕ). same_bytes name path) lists).1
  unfolding pak_read Agrees
  pak_read_lem pak path lists h =
      let (same, kept) = read_list_lem codecs host.file pak lists h in
      let (plain, kept') = read_list_lem codecs host.file pak [] (λ p es e. (cc)) in
      (rw (same, plain) refl, kept)

  pub find-build :
      (path : List ℕ) (s : State)
      → Represents s
      → find path (build codecs host s).files ≡ owner (archives host) path
  find-build path s h =
      ap (λ (m : List (List ℕ × List ℕ)). find path m) (build_lem s h).1
      ∙ find-indexed (archives host) path []

  pub read_from_lem :
      (path : List ℕ) (o : Option (List ℕ)) (s : State)
      → Represents s
      → ((read_from codecs host path o s).0 ≡ (o >>= contents_in path))
        × Represents (read_from codecs host path o s).1
  unfolding read_from
  read_from_lem path none s h = (refl, h)
  read_from_lem path (some pak) s h =
      let (same, kept) = pak_read_lem pak path s.lists h.agrees in
      (
        ap
            (λ (o : Option (List (List ℕ × List ℕ))).
              o >>= (λ (calls : List (List ℕ × List ℕ)). last_contents calls))
            same,
        record { agrees = kept; empty = h.empty; complete = h.complete },
      )
