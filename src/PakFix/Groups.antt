-- ===== src/PakFix/Groups.antt =====
-- src/pak_fix.cpp: the groups of spellings, a union-find, and `choose`.
use bg3le.Common.{
  ℕ, zero, suc, ◌+◌, Bool, true, false, ◌&&◌, ◌||◌, not, Option, none, some, List, [], ◌∷◌, ◌++◌,
  length, get_or, set, ◌==◌, if◌then◌else◌, ◌>>=◌,
}
use bg3le.Pak.Read.{same_bytes}
use bg3le.PakFix.Names.{lower}

-- `content` is `none` for -1, an entry's name.
pub record Occurrence : Type 0 where
  pub content : Option ℕ
  pub index : ℕ
  pub pos : ℕ
  pub len : ℕ

pub record Group : Type 0 where
  pub occurrences : List Occurrence
  pub directory : Bool
  pub pinned : List ℕ
  pub pin_conflict : Bool

abbrev pub no_group : Group
no_group = record { occurrences = []; directory = false; pinned = []; pin_conflict = false }

-- `groups_` and `parent_`.
pub record Groups : Type 0 where
  pub groups : List Group
  pub parent : List ℕ

-- `find`, which shortens the path on its way: the root and the parents after it, `none` if the fuel
-- ran out.
unfoldable pub find : ℕ → List ℕ → ℕ → Option (ℕ × List ℕ)
find zero parent g = none
find (suc fuel) parent g =
    let up = get_or parent g g in
    let above = get_or parent up up in
    let rest = find fuel (set parent g above) above in if up == g then some (g, parent) else rest

abbrev pub group_at : Groups → ℕ → Group
group_at s g = get_or s.groups g no_group

abbrev pub find_in : Groups → ℕ → Option (ℕ × Groups)
find_in s g = do
  (root, parent) ← find (suc (length s.parent)) s.parent g
  some (root, record s { parent = parent })

unfoldable pub with_pin : Group → List ℕ → Group
with_pin g spelling = elim g.pinned [
  | [] ↦ record g { pinned = spelling }
  | c ∷ p ↦ if same_bytes (c ∷ p) spelling then g else record g { pin_conflict = true }
]

unfoldable pub pin : Groups → ℕ → List ℕ → Option Groups
unfolding find with_pin
pin s g spelling = do
  (root, s') ← find_in s g
  some (record s' { groups = set s'.groups root (with_pin (group_at s' root) spelling) })

abbrev pub is_empty : List ℕ → Bool
is_empty [] = true
is_empty (c ∷ s) = false

-- The group that two of them become.
unfoldable pub merged : Group → Group → Group
merged to from = record {
  occurrences = to.occurrences ++ from.occurrences;
  directory = to.directory || from.directory;
  pinned = if is_empty to.pinned then from.pinned else to.pinned;
  pin_conflict =
      to.pin_conflict
      || (from.pin_conflict
          || (not (is_empty to.pinned)
              && (not (is_empty from.pinned) && not (same_bytes from.pinned to.pinned))));
}

unfoldable pub unite : Groups → ℕ → ℕ → Option Groups
unfolding find merged
unite s a b = do
  (ra, s1) ← find_in s a
  (rb, s2) ← find_in s1 b
  some (
      if ra == rb then s2 else record {
        groups = set (set s2.groups ra (merged (group_at s2 ra) (group_at s2 rb))) rb no_group;
        parent = set s2.parent rb ra;
      })

unfoldable pub add : Groups → ℕ → Occurrence → Option Groups
unfolding find
add s g o = do
  (root, s') ← find_in s g
  let to = group_at s' root
  some (record s' {
    groups = set s'.groups root (record to { occurrences = to.occurrences ++ o ∷ [] });
  })

abbrev pub all_same : List ℕ → List (List ℕ) → Bool
all_same first [] = true
all_same first (s ∷ spellings) = same_bytes s first && all_same first spellings

-- The spelling of the archive's own names, if they have only one.
unfoldable pub archive_spelling : List Occurrence → List (List ℕ) → List ℕ → Option (List ℕ)
archive_spelling os [] archive = if is_empty archive then none else some archive
archive_spelling [] (s ∷ spellings) archive = none
archive_spelling (o ∷ os) (s ∷ spellings) archive =
    let next = archive_spelling os spellings archive in
    let first = archive_spelling os spellings s in
    elim o.content [
      | some c ↦ next
      | none ↦ if is_empty archive then first else if same_bytes archive s then next else none
    ]

abbrev pub differs_at : ℕ → ℕ → List (List ℕ) → Bool
differs_at c t [] = false
differs_at c t (s ∷ spellings) = not (get_or s c 0 == t) || differs_at c t spellings

-- The target from its character `c` on: lower case wherever a spelling differs.
unfoldable pub lower_differing : ℕ → List ℕ → List (List ℕ) → List ℕ
unfolding lower
lower_differing c [] spellings = []
lower_differing c (t ∷ target) spellings =
    (if differs_at c t spellings then lower t else t) ∷ lower_differing (c + 1) target spellings

abbrev pub front : List (List ℕ) → List ℕ
front [] = []
front (s ∷ spellings) = s

unfoldable pub choose_free : Group → List (List ℕ) → Option (List ℕ)
unfolding archive_spelling lower_differing
choose_free group spellings =
    if all_same (front spellings) spellings
    then none
    else if group.directory
    then archive_spelling group.occurrences spellings []
    else some (lower_differing 0 (front spellings) spellings)

unfoldable pub choose : Group → List (List ℕ) → Option (List ℕ)
unfolding choose_free
choose group spellings =
    if group.pin_conflict
    then none
    else if is_empty group.pinned
    then choose_free group spellings
    else if length group.pinned == length (front spellings)
    then some group.pinned
    else none
