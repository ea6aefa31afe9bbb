-- ===== src/PakFix/State.antt =====
-- src/pak_fix.cpp: the state of the class `Fixer`, its groups, and the parts of a name.
use bg3le.Common.{
  ℕ, ◌+◌, ◌-◌, Bool, true, not, Option, none, some, List, [], ◌∷◌, ◌++◌, length, get_or, set, take,
  drop, ◌==◌, if◌then◌else◌, ◌>>=◌,
}
use bg3le.Pak.Read.{same_bytes}
use bg3le.Lsf.Document.{LsfDocument}
use bg3le.GameFiles.Map.{find}
use bg3le.PakFix.Names.{lowered, iequals}
use bg3le.PakFix.Groups.{Groups, no_group, group_at, find_in, pin, add}

-- A file's text, or its document if it has one.
pub record Content : Type 0 where
  pub file : ℕ
  pub text : List ℕ
  pub doc : Option LsfDocument
  pub changed : Bool

pub record Part : Type 0 where
  pub begin : ℕ
  pub end' : ℕ
  pub group : ℕ

-- A map from strings to the indices under them.
abbrev pub Indices : Type 0
Indices = List (List ℕ × List ℕ)

pub record Fixer : Type 0 where
  pub names : List (List ℕ)
  pub contents : List Content
  pub parts : List (List Part)
  pub stems : List ℕ
  pub groups : Groups
  pub ids : List (List ℕ × ℕ)
  pub full : Indices
  pub suffixes : Indices
  pub icons : Indices

abbrev pub push_under : List ℕ → ℕ → Indices → Indices
push_under key i [] = (key, i ∷ []) ∷ []
push_under key i ((k, is) ∷ m) =
    let rest = push_under key i m in
    if same_bytes k key then (k, is ++ (i ∷ [])) ∷ m else (k, is) ∷ rest

abbrev pub new_group : List ℕ → Bool → Fixer → Option ℕ → ℕ × Fixer
new_group id directory f (some g) = (g, f)
new_group id directory f none =
    let g = length f.groups.groups in
    (
      g,
      record f {
        ids = (id, g) ∷ f.ids;
        groups = record {
          groups = f.groups.groups ++ (record no_group { directory = directory } ∷ []);
          parent = f.groups.parent ++ (g ∷ []);
        };
      },
    )

unfoldable pub group : List ℕ → Bool → Fixer → ℕ × Fixer
group id directory f = new_group id directory f (find id f.ids)

abbrev pub with_groups : Fixer → Option Groups → Option Fixer
with_groups f groups = groups >>= (λ (s : Groups). some (record f { groups = s }))

-- `add` of an occurrence in an entry's name, which is a part of it.
unfoldable pub add_part : ℕ → ℕ → ℕ → ℕ × Fixer → Option Fixer
unfolding add
add_part i begin end' (g, f) =
    with_groups
      (record f {
        parts =
            set f.parts i
              (get_or f.parts i [] ++ (record { begin = begin; end' = end'; group = g } ∷ []));
      })
      (add f.groups g (record { content = none; index = i; pos = begin; len = end' - begin }))

abbrev pub positions_of : ℕ → List ℕ → ℕ → List ℕ
positions_of c [] at = []
positions_of c (d ∷ s) at =
    let rest = positions_of c s (at + 1) in if d == c then at ∷ rest else rest

abbrev pub last_of : List ℕ → Option ℕ
last_of [] = none
last_of (p ∷ ps) = elim ps [ [] ↦ some p | q ∷ qs ↦ last_of ps ]

-- The characters from `a` up to `b`.
abbrev pub range : List ℕ → ℕ → ℕ → List ℕ
range s a b = take (b - a) (drop a s)

-- The loop over the slashes of the name: where the leaf begins, and the directories' groups.
unfoldable pub add_directories : ℕ → List ℕ → List ℕ → ℕ → Fixer → Option (ℕ × Fixer)
unfolding group add_part
add_directories i low [] begin f = some (begin, f)
add_directories i low (slash ∷ slashes) begin f = do
  f' ← add_part i begin slash (group (b'd' ∷ (b':' ∷ take slash low)) true f)
  add_directories i low slashes (slash + 1)
      (record f' { suffixes = push_under (drop (slash + 1) low) i f'.suffixes })

-- The spellings of the base game, under their lower case.
unfoldable pub canonical : List (List ℕ × List ℕ)
canonical =
    (b'g' ∷ b'u' ∷ b'i' ∷ [], b'G' ∷ b'U' ∷ b'I' ∷ [])
    ∷ ((b'a' ∷ b's' ∷ b's' ∷ b'e' ∷ b't' ∷ b's' ∷ [], b'A' ∷ b's' ∷ b's' ∷ b'e' ∷ b't' ∷ b's' ∷ [])
        ∷ ((
          b'a' ∷ b's' ∷ b's' ∷ b'e' ∷ b't' ∷ b's' ∷ b'l' ∷ b'o' ∷ b'w' ∷ b'r' ∷ b'e' ∷ b's' ∷ [],
          b'A' ∷ b's' ∷ b's' ∷ b'e' ∷ b't' ∷ b's' ∷ b'L' ∷ b'o' ∷ b'w' ∷ b'R' ∷ b'e' ∷ b's' ∷ [],
        )
            ∷ ((
              b't' ∷ b'o' ∷ b'o' ∷ b'l' ∷ b't' ∷ b'i' ∷ b'p' ∷ b's' ∷ [],
              b'T' ∷ b'o' ∷ b'o' ∷ b'l' ∷ b't' ∷ b'i' ∷ b'p' ∷ b's' ∷ [],
            )
                ∷ ((b'i' ∷ b'c' ∷ b'o' ∷ b'n' ∷ b's' ∷ [], b'I' ∷ b'c' ∷ b'o' ∷ b'n' ∷ b's' ∷ [])
                    ∷ ((
                      b'i' ∷ b't' ∷ b'e' ∷ b'm' ∷ b'i' ∷ b'c' ∷ b'o' ∷ b'n' ∷ b's' ∷ [],
                      b'I' ∷ b't' ∷ b'e' ∷ b'm' ∷ b'I' ∷ b'c' ∷ b'o' ∷ b'n' ∷ b's' ∷ [],
                    )
                        ∷ ((
                          b'c' ∷ b'o' ∷ b'n' ∷ b't' ∷ b'r' ∷ b'o' ∷ b'l' ∷ b'l' ∷ b'e' ∷ b'r' ∷ b'u'
                              ∷ b'i' ∷ b'i' ∷ b'c' ∷ b'o' ∷ b'n' ∷ b's' ∷ [],
                          b'C' ∷ b'o' ∷ b'n' ∷ b't' ∷ b'r' ∷ b'o' ∷ b'l' ∷ b'l' ∷ b'e' ∷ b'r' ∷ b'U'
                              ∷ b'I' ∷ b'I' ∷ b'c' ∷ b'o' ∷ b'n' ∷ b's' ∷ [],
                        )
                            ∷ ((
                              b's' ∷ b'k' ∷ b'i' ∷ b'l' ∷ b'l' ∷ b's' ∷ b'_' ∷ b'p' ∷ b'n' ∷ b'g'
                                  ∷ [],
                              b's' ∷ b'k' ∷ b'i' ∷ b'l' ∷ b'l' ∷ b's' ∷ b'_' ∷ b'p' ∷ b'n' ∷ b'g'
                                  ∷ [],
                            )
                                ∷ ((
                                  b'i' ∷ b't' ∷ b'e' ∷ b'm' ∷ b's' ∷ b'_' ∷ b'p' ∷ b'n' ∷ b'g' ∷ [],
                                  b'i' ∷ b't' ∷ b'e' ∷ b'm' ∷ b's' ∷ b'_' ∷ b'p' ∷ b'n' ∷ b'g' ∷ [],
                                )
                                    ∷ []))))))))

abbrev pub or_parts : List Part → List Part → List Part
or_parts [] here = here
or_parts (p ∷ later) here = p ∷ later

-- The parts from the last `GUI` on that is not the last part; none without one.
unfoldable pub from_gui : List ℕ → List Part → List Part
unfolding iequals
from_gui name [] = []
from_gui name (p ∷ []) = []
from_gui name (p ∷ (q ∷ parts)) =
    or_parts (from_gui name (q ∷ parts)) (
      if iequals (range name p.begin p.end') (b'G' ∷ b'U' ∷ b'I' ∷ []) then p ∷ (q ∷ parts) else [])

unfoldable pub pin_if : Option (List ℕ) → ℕ → Fixer → Option Fixer
unfolding pin
pin_if none g f = some f
pin_if (some spelling) g f = with_groups f (pin f.groups g spelling)

-- The loop over the parts, up to the first that is no directory.
unfoldable pub pin_parts : List ℕ → List Part → Fixer → Option Fixer
unfolding lowered canonical
pin_parts name [] f = some f
pin_parts name (p ∷ parts) f = do
  (root, s) ← find_in f.groups p.group
  if not (group_at s root).directory then some (record f { groups = s }) else (do
    f' ←
        pin_if (find (lowered (range name p.begin p.end')) canonical) p.group
          (record f { groups = s })
    pin_parts name parts f')

unfoldable pub pin_icon_directories : ℕ → Fixer → Option Fixer
unfolding from_gui pin_parts
pin_icon_directories i f =
    let name = get_or f.names i [] in pin_parts name (from_gui name (get_or f.parts i [])) f
