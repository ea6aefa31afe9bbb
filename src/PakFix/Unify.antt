-- ===== src/PakFix/Unify.antt =====
-- src/pak_fix.cpp: `Fixer::unify`, which applies the spellings that are chosen.
use bg3le.Common.{
  ℕ, zero, suc, ◌+◌, Bool, true, false, ◌&&◌, ◌||◌, Option, none, some, List, [], ◌∷◌, ◌++◌, length,
  get_or, set, take, drop, ltb, ◌==◌, if◌then◌else◌, ◌>>=◌,
}
use mathlib.Core.List.{map}
use bg3le.Pak.Read.{same_bytes}
use bg3le.Pak.Cache.{decimal}
use bg3le.Lsf.Document.{LsfDocument}
use bg3le.GameFiles.Map.{insert, find}
use bg3le.PakFix.Groups.{Occurrence, Group, group_at, find_in, is_empty, choose}
use bg3le.PakFix.State.{Content, Fixer}
use bg3le.PakFix.Fixer.{fixer}
use bg3le.PakFix.Scan.{bytes, content_at, scan}

abbrev pub with_text : Content → List ℕ → Option LsfDocument → Content
with_text c text none = record c { text = text }
with_text c text (some doc) = record c { doc = some (record doc { values = text }) }

-- `replace`, and `memcpy` over the same bytes.
abbrev pub replaced : List ℕ → ℕ → ℕ → List ℕ → List ℕ
replaced s pos len target = take pos s ++ (target ++ drop (pos + len) s)

-- The spelling of an occurrence now.
unfoldable pub spelling : Fixer → Occurrence → List ℕ
spelling f o = elim o.content [
  | none ↦ take o.len (drop o.pos (get_or f.names o.index []))
  | some c ↦ take o.len (drop o.pos (bytes (content_at f c)))
]

-- What was renamed so far: the new names, the fixer with its contents, and how often each fix was
-- made, in the order of a map.
pub record Renaming : Type 0 where
  pub new_names : List (List ℕ)
  pub fixer : Fixer
  pub edited : List (List ℕ × ℕ)

abbrev pub count_one : List ℕ → List (List ℕ × ℕ) → List (List ℕ × ℕ)
count_one what edited = elim (find what edited) [
  | none ↦ insert what 1 edited
  | some n ↦ map (λ (e : List ℕ × ℕ). if same_bytes e.0 what then (e.0, n + 1) else e) edited
]

-- `<file>: "<from>" -> "<to>"`
abbrev pub edit_text : List ℕ → List ℕ → List ℕ → List ℕ
edit_text file from to =
    file
    ++ (b':'
        ∷ (32 ∷ (34 ∷ (from ++ (34 ∷ (32 ∷ (b'-' ∷ (b'>' ∷ (32 ∷ (34 ∷ (to ++ (34 ∷ []))))))))))))

-- An occurrence whose spelling is not the target.
unfoldable pub respell : List (List ℕ) → List ℕ → List ℕ → Occurrence → Renaming → Renaming
respell files target old o r = elim o.content [
  | none ↦ record r {
    new_names =
        set r.new_names o.index (replaced (get_or r.new_names o.index []) o.pos o.len target);
  }
  | some c ↦
      let content = content_at r.fixer c in
      let changed =
        record (with_text content (replaced (bytes content) o.pos o.len (take o.len target))
          content.doc) { changed = true } in
      record r {
        fixer = record r.fixer { contents = set r.fixer.contents c changed };
        edited = count_one (edit_text (get_or files content.file []) old target) r.edited;
      }
]

unfoldable pub respell_all :
    List (List ℕ) → List ℕ → List Occurrence → List (List ℕ) → Renaming → Renaming
unfolding respell
respell_all files target [] spellings r = r
respell_all files target (o ∷ os) [] r = r
respell_all files target (o ∷ os) (old ∷ spellings) r =
    respell_all files target os spellings
      (if same_bytes old target then r else respell files target old o r)

unfoldable pub apply_choice :
    List (List ℕ) → List Occurrence → List (List ℕ) → Option (List ℕ) → Renaming → Renaming
unfolding respell_all
apply_choice files os spellings none r = r
apply_choice files os spellings (some target) r = respell_all files target os spellings r

unfoldable pub rename_group : List (List ℕ) → Group → Renaming → Renaming
unfolding spelling choose apply_choice
rename_group files group r =
    if ltb (length group.occurrences) 2 && is_empty group.pinned
    then r
    else (let spellings = map (spelling r.fixer) group.occurrences in
        apply_choice files group.occurrences spellings (choose group spellings) r)

-- The loop over the groups, `n` of them from `g` on.
unfoldable pub rename_groups : List (List ℕ) → ℕ → ℕ → Renaming → Option Renaming
unfolding rename_group
rename_groups files zero g r = some r
rename_groups files (suc n) g r = do
  (root, groups) ← find_in r.fixer.groups g
  let r' : Renaming = record r { fixer = record r.fixer { groups = groups } }
  rename_groups files n (g + 1)
      (if root == g then rename_group files (group_at groups g) r' else r')

-- `std::set::insert` says of each name whether it is new.
abbrev pub is_among : List ℕ → List (List ℕ) → Bool
is_among name [] = false
is_among name (n ∷ names) = same_bytes n name || is_among name names

abbrev pub first_twice : List (List ℕ) → List (List ℕ) → Option (List ℕ)
first_twice [] seen = none
first_twice (name ∷ names) seen =
    let rest = first_twice names (name ∷ seen) in if is_among name seen then some name else rest

abbrev pub left_alone : List ℕ
left_alone =
    b'l' ∷ b'e' ∷ b'f' ∷ b't' ∷ 32 ∷ b'c' ∷ b'a' ∷ b's' ∷ b'e' ∷ 32 ∷ b'a' ∷ b'l' ∷ b'o' ∷ b'n'
    ∷ b'e' ∷ b':' ∷ 32 ∷ b't' ∷ b'w' ∷ b'o' ∷ 32 ∷ b'f' ∷ b'i' ∷ b'l' ∷ b'e' ∷ b's' ∷ 32 ∷ b'w'
    ∷ b'o' ∷ b'u' ∷ b'l' ∷ b'd' ∷ 32 ∷ b'b' ∷ b'e' ∷ 32 ∷ b'n' ∷ b'a' ∷ b'm' ∷ b'e' ∷ b'd' ∷ 32 ∷ []

abbrev pub renamed_lead : List ℕ
renamed_lead = b'r' ∷ b'e' ∷ b'n' ∷ b'a' ∷ b'm' ∷ b'e' ∷ b'd' ∷ 32 ∷ []

unfoldable pub renames : List (List ℕ) → List (List ℕ) → List (List ℕ)
renames [] news = []
renames (old ∷ olds) [] = []
renames (old ∷ olds) (new ∷ news) =
    let rest = renames olds news in
    if same_bytes new old
    then rest
    else (renamed_lead ++ (old ++ (32 ∷ (b'-' ∷ (b'>' ∷ (32 ∷ new)))))) ∷ rest

unfoldable pub edit_lines : List (List ℕ × ℕ) → List (List ℕ)
unfolding decimal
edit_lines [] = []
edit_lines ((what, count) ∷ edited) =
    (if ltb 1 count
      then what
        ++ (32
            ∷ (b'('
                ∷ (decimal 10 count [] ++ (32 ∷ (b't' ∷ b'i' ∷ b'm' ∷ b'e' ∷ b's' ∷ b')' ∷ [])))))
      else what)
    ∷ edit_lines edited

abbrev pub unmarked : Content → Content
unmarked c = record c { changed = false }

-- What `unify` answers: whether it did, the lines of fixes, the new names if it did, and the contents.
pub record Unified : Type 0 where
  pub done : Bool
  pub fixes : List (List ℕ)
  pub names : List (List ℕ)
  pub contents : List Content

unfoldable pub checked : List (List ℕ) → Option (List ℕ) → Renaming → Unified
unfolding renames edit_lines
checked names (some twice) r = record {
  done = false;
  fixes = (left_alone ++ twice) ∷ [];
  names = names;
  contents = map unmarked r.fixer.contents;
}
checked names none r = record {
  done = true;
  fixes = renames names r.new_names ++ edit_lines r.edited;
  names = r.new_names;
  contents = r.fixer.contents;
}

-- Without the new names, the caller keeps those of the listing.
unfoldable pub unify : List (List ℕ) → Fixer → Option Unified
unfolding rename_groups checked
unify files f = do
  r ←
      rename_groups files (length f.groups.groups) 0
        (record { new_names = f.names; fixer = f; edited = [] })
  some (checked f.names (first_twice r.new_names []) r)

-- `pak_fix_build`'s use of the class: the constructor, `scan` and `unify`.
unfoldable pub repaired : List (List ℕ) → List Content → Option Unified
unfolding fixer scan unify
repaired names contents = do f ← fixer names contents; f' ← scan names f; unify names f'
