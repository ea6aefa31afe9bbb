-- ===== src/Examples/PakFix.antt =====
-- src/pak_fix.cpp at concrete inputs.
use bg3le.Common.{
  ℕ, zero, suc, ◌<◌, ◌≡◌, ◌≢◌, refl, false, Option, none, some, List, [], ◌∷◌, length, All, arith,
}
use mathlib.Core.List.{map}
use bg3le.PakFix.Names.{lower, crc32}
use bg3le.PakFix.Groups.{Group, Groups, find, unite, choose}
use bg3le.PakFix.Climbs.{Climbs, up_from}
use bg3le.PakFix.Finding.{HasRoot, IsForest, Found, find_lem}
use bg3le.PakFix.Union.{joined, unite_lem}
use bg3le.PakFix.State.{Content}
use bg3le.PakFix.Unify.{Unified, repaired}
use bg3le.PakFix.Repair.{Outcome, repaired_lem}
use bg3le.PakFix.Choice.{Spells, choose_lem}

-- The checksum's standard check value.
crc32_check : crc32 (b'1' ∷ b'2' ∷ b'3' ∷ b'4' ∷ b'5' ∷ b'6' ∷ b'7' ∷ b'8' ∷ b'9' ∷ []) ≡ 0xcbf43926
unfolding crc32
crc32_check = refl

abbrev file_group : Group
file_group = record { occurrences = []; directory = false; pinned = []; pin_conflict = false }

abbrev abc : List ℕ
abc = b'a' ∷ b'b' ∷ b'c' ∷ []

abbrev three_spellings : List (List ℕ)
three_spellings = (b'A' ∷ b'b' ∷ b'C' ∷ []) ∷ ((b'a' ∷ b'b' ∷ b'C' ∷ []) ∷ [])

abbrev chosen : List ℕ
chosen = b'a' ∷ b'b' ∷ b'C' ∷ []

spellings-ne-nil : three_spellings ≢ []
spellings-ne-nil e = cc

choose_example : Spells abc chosen × All (λ s. length s ≡ length chosen) three_spellings
unfolding choose lower
choose_example =
    choose_lem abc file_group three_spellings chosen spellings-ne-nil (refl, (refl, tt)) (λ e. cc)
      refl

-- The first of three groups is the root of the others.
abbrev parents : List ℕ
parents = 0 ∷ (0 ∷ (1 ∷ []))

parents_inside : (g : ℕ) → g < length parents → up_from parents g < length parents
parents_inside zero small = omega arith
parents_inside (suc zero) small = omega arith
parents_inside (suc (suc zero)) small = omega arith
parents_inside (suc (suc (suc g))) small = absurd (omega arith)

parents_rooted : (g : ℕ) → g < length parents → (r : ℕ) × HasRoot parents g r
unfolding Climbs
parents_rooted zero small = (0, (0, (refl, refl)))
parents_rooted (suc zero) small = (0, (1, ((λ e. omega arith), (refl, refl))))
parents_rooted (suc (suc zero)) small =
    (0, (2, ((λ e. omega arith), ((λ e. omega arith), (refl, refl)))))
parents_rooted (suc (suc (suc g))) small = absurd (omega arith)

parents-IsForest : IsForest parents
parents-IsForest = record { inside = parents_inside; rooted = parents_rooted }

find_example :
    (r : ℕ) × (parent' : List ℕ) × (find 4 parents 2 ≡ some (r, parent'))
    × HasRoot parents 2 r
    × Found parents 2 r parent'
find_example = find_lem parents 2 parents-IsForest (omega arith)

abbrev three_groups : Groups
three_groups = record { groups = file_group ∷ (file_group ∷ (file_group ∷ [])); parent = parents }

unite_example :
    (s' : Groups) × (ra : ℕ) × (rb : ℕ) × (unite three_groups 2 1 ≡ some s')
    × HasRoot parents 2 ra
    × HasRoot parents 1 rb
    × IsForest s'.parent
    × (length s'.parent ≡ 3)
    × (length s'.groups ≡ 3)
    × ((x q : ℕ) → HasRoot parents x q → HasRoot s'.parent x (joined ra rb q))
unite_example = unite_lem three_groups 2 1 parents-IsForest (omega arith) (omega arith)

-- `A/b.lsx` and `a/c.lsx`.
abbrev two_names : List (List ℕ)
two_names =
    (b'A' ∷ b'/' ∷ b'b' ∷ b'.' ∷ b'l' ∷ b's' ∷ b'x' ∷ [])
    ∷ ((b'a' ∷ b'/' ∷ b'c' ∷ b'.' ∷ b'l' ∷ b's' ∷ b'x' ∷ []) ∷ [])

-- A text of the first that refers to the second, `"A/C.lsx"`.
abbrev one_text : List Content
one_text =
    record {
      file = 0;
      text = 34 ∷ b'A' ∷ b'/' ∷ b'C' ∷ b'.' ∷ b'l' ∷ b's' ∷ b'x' ∷ 34 ∷ [];
      doc = none;
      changed = false;
    }
    ∷ []

repaired_example : (u : Unified) × (repaired two_names one_text ≡ some u) × Outcome u
repaired_example = repaired_lem two_names one_text

abbrev texts : Option Unified → List (List ℕ)
texts none = []
texts (some u) = map (λ (c : Content). c.text) u.contents

-- The reference is spelled as the file is, and its directory, which the names spell in two ways, is
-- left alone.
repaired_check :
    texts (repaired two_names one_text)
    ≡ (34 ∷ b'A' ∷ b'/' ∷ b'c' ∷ b'.' ∷ b'l' ∷ b's' ∷ b'x' ∷ 34 ∷ []) ∷ []
unfolding repaired
repaired_check = refl
