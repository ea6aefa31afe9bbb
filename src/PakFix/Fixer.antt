-- ===== src/PakFix/Fixer.antt =====
-- src/pak_fix.cpp: what the constructor of the class `Fixer` learns from the entries' names.
use bg3le.Common.{
  ℕ, zero, suc, ◌+◌, Bool, false, ◌&&◌, Option, none, some, List, [], ◌∷◌, length, get_or, set,
  take, drop, replicate, ltb, if◌then◌else◌, ◌>>=◌,
}
use bg3le.Pak.Read.{same_bytes}
use bg3le.Pak.Cache.{contains}
use bg3le.PakFix.Names.{lowered, last_component, extension}
use bg3le.PakFix.Paths.{fixed_name, icon_directory}
use bg3le.PakFix.State.{
  Content, Indices, Fixer, push_under, group, add_part, positions_of, last_of, range,
  add_directories, pin_if, pin_icon_directories,
}

abbrev pub leaf_end : Option ℕ → ℕ → ℕ → Option ℕ
leaf_end none begin size = none
leaf_end (some dot) begin size = if ltb begin dot then some dot else none

-- Whether the name is a texture that the user interface may name after an icon.
abbrev pub is_gui_texture : List ℕ → Bool
is_gui_texture name =
    contains (b'/' ∷ b'g' ∷ b'u' ∷ b'i' ∷ b'/' ∷ []) (lowered name)
    && same_bytes (extension name) (b'd' ∷ b'd' ∷ b's' ∷ [])

abbrev pub pin_when : Bool → ℕ → List ℕ → Fixer → Option Fixer
pin_when b g spelling f = if b then pin_if (some spelling) g f else some f

-- What the constructor does of the leaf behind the directories, without an extension.
unfoldable pub add_plain_leaf : ℕ → List ℕ → ℕ → Fixer → Option Fixer
unfolding group add_part fixed_name last_component
add_plain_leaf i name begin f =
    let (stem, f1) = group (b's' ∷ (b':' ∷ lowered name)) false f in
    (do
      f2 ← add_part i begin (length name) (stem, record f1 { stems = set f1.stems i stem })
      pin_when (fixed_name (last_component name)) stem (drop begin name) f2)

abbrev pub icon_if : Bool → ℕ → Indices → Fixer → Option Fixer
icon_if b i icons f = if b then pin_icon_directories i (record f { icons = icons }) else some f

-- The pins of a leaf with an extension.
unfoldable pub pin_leaf : ℕ → List ℕ → ℕ → ℕ → ℕ → ℕ → Fixer → Option Fixer
unfolding fixed_name last_component extension icon_directory pin_icon_directories
pin_leaf i name begin dot stem ext f = do
  f1 ← pin_when (fixed_name (last_component name)) stem (range name begin dot) f
  f2 ← pin_when (fixed_name (last_component name)) ext (drop (dot + 1) name) f1
  f3 ← pin_when (is_gui_texture name) ext (b'D' ∷ b'D' ∷ b'S' ∷ []) f2
  icon_if (is_gui_texture name && icon_directory (lowered name)) i
      (push_under (range (lowered name) begin dot) i f3.icons) f3

-- What the constructor does of a leaf with one, from the dot on.
unfoldable pub add_leaf : ℕ → List ℕ → ℕ → ℕ → Fixer → Option Fixer
unfolding group add_part pin_leaf
add_leaf i name begin dot f =
    let low = lowered name in
    let (stem, f1) = group (b's' ∷ (b':' ∷ take dot low)) false f in
    (do
      f2 ← add_part i begin dot (stem, record f1 { stems = set f1.stems i stem })
      let (ext, f3) = group (b'x' ∷ (b':' ∷ low)) false f2
      f4 ← add_part i (dot + 1) (length name) (ext, f3)
      pin_leaf i name begin dot stem ext f4)

unfoldable pub add_leaf_at : ℕ → List ℕ → ℕ → Option ℕ → Fixer → Option Fixer
unfolding add_plain_leaf add_leaf
add_leaf_at i name begin none f = add_plain_leaf i name begin f
add_leaf_at i name begin (some dot) f = add_leaf i name begin dot f

unfoldable pub add_entry : ℕ → Fixer → Option Fixer
unfolding add_directories add_leaf_at
add_entry i f =
    let name = get_or f.names i [] in
    (do
      (begin, f') ←
          add_directories i (lowered name) (positions_of b'/' name 0) 0
            (record f { full = push_under (lowered name) i f.full })
      add_leaf_at i name begin (leaf_end (last_of (positions_of b'.' name 0)) begin (length name))
          f')

-- The loop over the entries, `n` of them from `i` on.
unfoldable pub add_entries : ℕ → ℕ → Fixer → Option Fixer
unfolding add_entry
add_entries zero i f = some f
add_entries (suc n) i f = do f' ← add_entry i f; add_entries n (i + 1) f'

-- The constructor.
unfoldable pub fixer : List (List ℕ) → List Content → Option Fixer
unfolding add_entries
fixer names contents = add_entries (length names) 0 (record {
  names = names;
  contents = contents;
  parts = replicate (length names) [];
  stems = replicate (length names) 0;
  groups = record { groups = []; parent = [] };
  ids = [];
  full = [];
  suffixes = [];
  icons = [];
})
