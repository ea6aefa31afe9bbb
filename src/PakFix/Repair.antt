-- ===== src/PakFix/Repair.antt =====
-- src/pak_fix.cpp: that the repair of names always ends, and what it leaves.
use bg3le.Common.{
  ℕ, zero, suc, ◌+◌, ◌≤◌, ◌≡◌, refl, sym, ◌∙◌, Bool, true, false, ◌&&◌, Option, none, some, List,
  [], ◌∷◌, length, All, ltb, ◌==◌, if◌then◌else◌, Bool-cases, Option-cases, inl, inr, ◌⊎◌, subst,
  arith,
}
use mathlib.Core.List.{map}
use bg3le.Pak.Read.{same_bytes}
use bg3le.PakFix.Groups.{Occurrence, Group, Groups, group_at, is_empty, choose}
use bg3le.PakFix.State.{Content, Fixer}
use bg3le.PakFix.Unify.{
  spelling, Renaming, respell, respell_all, apply_choice, rename_group, rename_groups, is_among,
  first_twice, unmarked, Unified, checked, unify, repaired,
}
use bg3le.PakFix.Finding.{IsForest}
use bg3le.PakFix.Growing.{find_in-Keeps}
use bg3le.PakFix.Steps.{IsSound}
use bg3le.PakFix.Built.{fixer-Ends}
use bg3le.PakFix.Scanned.{scan-Ends}

respell-groups :
    (files : List (List ℕ)) (target old : List ℕ) (o : Occurrence) (r : Renaming)
    → (respell files target old o r).fixer.groups ≡ r.fixer.groups
unfolding respell
respell-groups files target old o r = elim (Option-cases o.content) [
  | inl e ↦ rw (e, respell) refl
  | inr (c, e) ↦ rw (e, respell) refl
]

if_respell-groups :
    (b : Bool) (files : List (List ℕ)) (target old : List ℕ) (o : Occurrence) (r : Renaming)
    → (if b then r else respell files target old o r).fixer.groups ≡ r.fixer.groups
if_respell-groups true files target old o r = refl
if_respell-groups false files target old o r = respell-groups files target old o r

respell_all-groups :
    (files : List (List ℕ)) (target : List ℕ) (os : List Occurrence) (spellings : List (List ℕ))
    (r : Renaming)
    → (respell_all files target os spellings r).fixer.groups ≡ r.fixer.groups
unfolding respell_all
respell_all-groups files target [] spellings r = refl
respell_all-groups files target (o ∷ os) [] r = refl
respell_all-groups files target (o ∷ os) (old ∷ spellings) r =
    let same = same_bytes old target in
    respell_all-groups files target os spellings (if same then r else respell files target old o r)
    ∙ if_respell-groups same files target old o r

apply_choice-groups :
    (files : List (List ℕ)) (os : List Occurrence) (spellings : List (List ℕ))
    (choice : Option (List ℕ)) (r : Renaming)
    → (apply_choice files os spellings choice r).fixer.groups ≡ r.fixer.groups
unfolding apply_choice
apply_choice-groups files os spellings none r = refl
apply_choice-groups files os spellings (some target) r =
    respell_all-groups files target os spellings r

rename_group-groups :
    (files : List (List ℕ)) (group : Group) (r : Renaming)
    → (rename_group files group r).fixer.groups ≡ r.fixer.groups
unfolding rename_group
rename_group-groups files group r =
    let spellings = map (spelling r.fixer) group.occurrences in
    elim (Bool-cases (ltb (length group.occurrences) 2 && is_empty group.pinned)) [
      | inl p ↦ rw p refl
      | inr p ↦
          rw p (apply_choice-groups files group.occurrences spellings (choose group spellings) r)
    ]

if-groups :
    (b : Bool) (files : List (List ℕ)) (group : Group) (r : Renaming)
    → (if b then rename_group files group r else r).fixer.groups ≡ r.fixer.groups
if-groups true files group r = rename_group-groups files group r
if-groups false files group r = refl

rename_groups-ends :
    (files : List (List ℕ)) (n g : ℕ) (r : Renaming)
    → IsForest r.fixer.groups.parent
    → g + n ≤ length r.fixer.groups.parent
    → (r' : Renaming) × (rename_groups files n g r ≡ some r')
unfolding rename_groups
rename_groups-ends files zero g r forest few = (r, refl)
rename_groups-ends files (suc n) g r forest few =
    let (root, s, found, keeps) = find_in-Keeps r.fixer.groups g forest (omega arith) in
    let r1 : Renaming = record r { fixer = record r.fixer { groups = s } } in
    let r2 : Renaming = if root == g then rename_group files (group_at s g) r1 else r1 in
    let same : r2.fixer.groups ≡ s = if-groups (root == g) files (group_at s g) r1 in
    let forest2 = subst (λ (x : Groups). IsForest x.parent) (sym same) keeps.forest in
    let few2 =
      subst (λ (x : Groups). (g + 1) + n ≤ length x.parent) (sym same)
        (omega (arith, keeps.same_parents)) in
    let (r', e) = rename_groups-ends files n (g + 1) r2 forest2 few2 in (r', rw found e)

same_bytes_sym : (a b : List ℕ) → same_bytes a b ≡ same_bytes b a
same_bytes_sym [] [] = refl
same_bytes_sym [] (y ∷ b) = refl
same_bytes_sym (x ∷ a) [] = refl
same_bytes_sym (x ∷ a) (y ∷ b) = let rest = same_bytes_sym a b in ground arith

-- No two of the names are the same.
abbrev pub Distinct : List (List ℕ) → Type 0
Distinct [] = Unit
Distinct (n ∷ names) = (is_among n names ≡ false) × Distinct names

abbrev Unseen : List (List ℕ) → List (List ℕ) → Type 0
Unseen seen names = All (λ (n : List ℕ). is_among n seen ≡ false) names

Unseen-is_among :
    (name : List ℕ) (seen names : List (List ℕ))
    → Unseen (name ∷ seen) names
    → (is_among name names ≡ false) × Unseen seen names
Unseen-is_among name seen [] h = (refl, tt)
Unseen-is_among name seen (n ∷ names) h =
    let (apart, rest) = Unseen-is_among name seen names h.1 in
    elim (Bool-cases (same_bytes name n)) [
      | inl p ↦ let wrong : true ≡ false = rw p at h.0 in absurd (cc)
      | inr p ↦ (rw (same_bytes_sym n name, p) apart, (rw p at h.0, rest))
    ]

first_twice-Distinct :
    (names seen : List (List ℕ))
    → first_twice names seen ≡ none
    → Distinct names × Unseen seen names
first_twice-Distinct [] seen h = (tt, tt)
first_twice-Distinct (n ∷ names) seen h = elim (Bool-cases (is_among n seen)) [
  | inl p ↦ let wrong : some n ≡ none = rw p at h in absurd (cc)
  | inr p ↦
      let (distinct, unseen) = first_twice-Distinct names (n ∷ seen) (rw p at h) in
      let (apart, rest) = Unseen-is_among n seen names unseen in ((apart, distinct), (p, rest))
]

unmarked-All :
    (contents : List Content) → All (λ (c : Content). c.changed ≡ false) (map unmarked contents)
unmarked-All [] = tt
unmarked-All (c ∷ contents) = (refl, unmarked-All contents)

-- What `unify` leaves: names of which no two are the same, or else no content marked as changed.
abbrev pub Outcome : Unified → Type 0
Outcome u =
    ((u.done ≡ true) × Distinct u.names)
    ⊎ ((u.done ≡ false) × All (λ (c : Content). c.changed ≡ false) u.contents)

checked-Outcome :
    (names : List (List ℕ)) (r : Renaming) → Outcome (checked names (first_twice r.new_names []) r)
unfolding checked
checked-Outcome names r = elim (Option-cases (first_twice r.new_names [])) [
  | inl e ↦ rw e (inl (refl, (first_twice-Distinct r.new_names [] e).0))
  | inr (twice, e) ↦ rw e (inr (refl, unmarked-All r.fixer.contents))
]

unify-ends :
    (files : List (List ℕ)) (f : Fixer)
    → IsSound f
    → (u : Unified) × (unify files f ≡ some u) × Outcome u
unfolding unify
unify-ends files f h =
    let start : Renaming = record { new_names = f.names; fixer = f; edited = [] } in
    let (r, e) =
      rename_groups-ends files (length f.groups.groups) 0 start h.forest (omega (arith, h.same)) in
    (checked f.names (first_twice r.new_names []) r, rw e refl, checked-Outcome f.names r)

-- For any names of entries and any contents, the constructor, `scan` and `unify` end, one after the
-- other, with the fuel they are given; then either `unify` answers true and no two of the new names
-- are the same, or it answers false and no content is marked as changed.
pub repaired_lem :
    (names : List (List ℕ)) (contents : List Content)
    → (u : Unified) × (repaired names contents ≡ some u) × Outcome u
unfolding repaired
repaired_lem names contents =
    let (f, e, h, more) = fixer-Ends names contents in
    let (f', e', h', more') = scan-Ends names f h in
    let (u, e2, outcome) = unify-ends names f' h' in (u, rw (e, e', e2) refl, outcome)
