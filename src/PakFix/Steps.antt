-- ===== src/PakFix/Steps.antt =====
-- src/pak_fix.cpp: the steps of `Fixer` end, and keep what they rest on.
use bg3le.Common.{
  ℕ, suc, ◌-◌, ◌<◌, ◌≤◌, ◌≡◌, refl, sym, ◌∙◌, Bool, Option, none, some, List, [], ◌∷◌, ◌++◌, length,
  length-append, All, All-append, All-set, All-get_or, get_or, set, ◌>>=◌, Bool-cases, Option-cases,
  inl, inr, ◌⊎◌, subst, arith,
}
use mathlib.Core.Option.{some-injective}
use bg3le.Pak.Read.{same_bytes}
use bg3le.GameFiles.Map.{find}
use bg3le.PakFix.Groups.{Occurrence, Groups, no_group, pin, add, unite}
use bg3le.PakFix.Finding.{IsForest}
use bg3le.PakFix.State.{Part, Fixer, new_group, group, with_groups, add_part}
use bg3le.PakFix.Growing.{length-longer, longer-IsForest, Keeps, pin-Keeps, add-Keeps, unite-Keeps}

abbrev pub count : Fixer → ℕ
count f = length f.groups.parent

abbrev pub IdBelow : ℕ → List ℕ × ℕ → Type 0
IdBelow n e = e.1 < n

abbrev pub PartBelow : ℕ → Part → Type 0
PartBelow n p = p.group < n

abbrev pub PartsBelow : ℕ → List Part → Type 0
PartsBelow n parts = All (PartBelow n) parts

-- A stem that is not known yet is 0.
abbrev pub StemBelow : ℕ → ℕ → Type 0
StemBelow n g = (g ≡ 0) ⊎ (g < n)

-- The groups are a forest, and every number of a group that is kept is one.
pub record IsSound (f : Fixer) : Type 0 where
  pub forest : IsForest f.groups.parent
  pub same : length f.groups.groups ≡ count f
  pub ids : All (IdBelow (count f)) f.ids
  pub parts : All (PartsBelow (count f)) f.parts
  pub stems : All (StemBelow (count f)) f.stems
  pub icons : (0 < count f) ⊎ (f.icons ≡ [])

-- A step that ends in a sound state, in which no group is gone.
abbrev pub Ends : ℕ → Option Fixer → Type 0
Ends n o = (f : Fixer) × (o ≡ some f) × IsSound f × (n ≤ count f)

pub Ends-some : (n : ℕ) (f : Fixer) → IsSound f → n ≤ count f → Ends n (some f)
Ends-some n f h more = (f, refl, h, more)

pub Ends-bind :
    (n : ℕ) (o : Option Fixer) (k : Fixer → Option Fixer)
    → Ends n o
    → ((f : Fixer) → IsSound f → n ≤ count f → Ends n (k f))
    → Ends n (o >>= k)
Ends-bind n o k (f, e, h, more) next =
    subst (λ (x : Option Fixer). Ends n (x >>= k)) (sym e) (next f h more)

pub All-weaken :
    {A : Type 0} (P Q : A → Type 0) → ((a : A) → P a → Q a) → (xs : List A) → All P xs → All Q xs
All-weaken P Q f [] h = tt
All-weaken P Q f (x ∷ xs) h = (f x h.0, All-weaken P Q f xs h.1)

-- The groups may be replaced by others that are as many and a forest.
pub IsSound-groups :
    (f : Fixer) (s : Groups) → IsSound f → Keeps f.groups s → IsSound (record f { groups = s })
IsSound-groups f s h k =
    let back = sym k.same_parents in
    record {
      forest = k.forest;
      same = k.same_groups ∙ (h.same ∙ back);
      ids = subst (λ (n : ℕ). All (IdBelow n) f.ids) back h.ids;
      parts = subst (λ (n : ℕ). All (PartsBelow n) f.parts) back h.parts;
      stems = subst (λ (n : ℕ). All (StemBelow n) f.stems) back h.stems;
      icons = subst (λ (n : ℕ). (0 < n) ⊎ (f.icons ≡ [])) back h.icons;
    }

with_groups-Ends :
    (f : Fixer) (o : Option Groups)
    → IsSound f
    → (s : Groups) × (o ≡ some s) × Keeps f.groups s
    → Ends (count f) (with_groups f o)
with_groups-Ends f o h (s, e, k) =
    (record f { groups = s }, rw e refl, IsSound-groups f s h k, omega (arith, k.same_parents))

pub add-Ends :
    (f : Fixer) (g : ℕ) (o : Occurrence)
    → IsSound f
    → g < count f
    → Ends (count f) (with_groups f (add f.groups g o))
add-Ends f g o h low = with_groups-Ends f (add f.groups g o) h (add-Keeps f.groups g h.forest low o)

pub pin-Ends :
    (f : Fixer) (g : ℕ) (spelling : List ℕ)
    → IsSound f
    → g < count f
    → Ends (count f) (with_groups f (pin f.groups g spelling))
pin-Ends f g spelling h low =
    with_groups-Ends f (pin f.groups g spelling) h (pin-Keeps f.groups g h.forest low spelling)

pub unite-Ends :
    (f : Fixer) (a b : ℕ)
    → IsSound f
    → a < count f
    → b < count f
    → Ends (count f) (with_groups f (unite f.groups a b))
unite-Ends f a b h ha hb =
    with_groups-Ends f (unite f.groups a b) h (unite-Keeps f.groups a b h.forest ha hb)

find-below :
    (n : ℕ) (ids : List (List ℕ × ℕ)) (id : List ℕ) (g : ℕ)
    → All (IdBelow n) ids
    → find id ids ≡ some g
    → g < n
find-below n [] id g h e = cc
find-below n ((k, v) ∷ ids) id g h e = elim (Bool-cases (same_bytes k id)) [
  | inl p ↦ let at : some v ≡ some g = rw p at e in omega (arith, some-injective _ _ at, h.0)
  | inr p ↦ find-below n ids id g h.1 (rw p at e)
]

-- `group` gives a group that there is, and adds one at most.
abbrev pub Grouped : Fixer → ℕ × Fixer → Type 0
Grouped f (g, f') = IsSound f' × (g < count f') × (count f ≤ count f') × (f'.parts ≡ f.parts)

new_group-Grouped :
    (id : List ℕ) (directory : Bool) (f : Fixer)
    → IsSound f
    → Grouped f (new_group id directory f none)
new_group-Grouped id directory f h =
    let size = length-longer f.groups.parent in
    let all = f.groups.groups in
    let there : length all < suc (count f) = omega (arith, h.same) in
    let below : IsForest (f.groups.parent ++ (length all ∷ [])) =
      subst (λ (x : ℕ). IsForest (f.groups.parent ++ (x ∷ []))) (sym h.same)
        (longer-IsForest f.groups.parent h.forest) in
    let size' : length (f.groups.parent ++ (length all ∷ [])) ≡ suc (count f) =
      omega (arith, length-append f.groups.parent (length all ∷ [])) in
    let back = sym size' in
    (
      record {
        forest = below;
        same = omega (
          arith,
          h.same,
          size',
          length-append all (record no_group { directory = directory } ∷ []),
        );
        ids =
            subst (λ (n : ℕ). All (IdBelow n) ((id, length all) ∷ f.ids)) back
              (
                there,
                All-weaken (IdBelow (count f)) (IdBelow (suc (count f))) (λ e k. omega (arith, k))
                    f.ids h.ids,
              );
        parts =
            subst (λ (n : ℕ). All (PartsBelow n) f.parts) back
              (All-weaken (PartsBelow (count f)) (PartsBelow (suc (count f)))
                (λ ps k.
                  All-weaken (PartBelow (count f)) (PartBelow (suc (count f)))
                    (λ p l. omega (arith, l)) ps k)
                f.parts h.parts);
        stems =
            subst (λ (n : ℕ). All (StemBelow n) f.stems) back
              (All-weaken (StemBelow (count f)) (StemBelow (suc (count f))) (λ g k. ground arith)
                f.stems h.stems);
        icons = inl (omega (arith, size'));
      },
      omega (arith, h.same, size'),
      omega (arith, size'),
      refl,
    )

pub group-Grouped :
    (id : List ℕ) (directory : Bool) (f : Fixer) → IsSound f → Grouped f (group id directory f)
unfolding group
group-Grouped id directory f h = elim (Option-cases (find id f.ids)) [
  | inl e ↦ rw e (new_group-Grouped id directory f h)
  | inr (g, e) ↦ rw e (h, find-below (count f) f.ids id g h.ids e, omega arith, refl)
]

pub add_part-Ends :
    (i begin end' g : ℕ) (f : Fixer)
    → IsSound f
    → g < count f
    → Ends (count f) (add_part i begin end' (g, f))
unfolding add_part
add_part-Ends i begin end' g f h low =
    let here : Part = record { begin = begin; end' = end'; group = g } in
    let more = get_or f.parts i [] ++ (here ∷ []) in
    let old = All-get_or (PartsBelow (count f)) f.parts i [] h.parts tt in
    let f' : Fixer = record f { parts = set f.parts i more } in
    add-Ends f' g (record { content = none; index = i; pos = begin; len = end' - begin })
      (record {
        forest = h.forest;
        same = h.same;
        ids = h.ids;
        parts =
            All-set (PartsBelow (count f)) f.parts i more h.parts
              (All-append (PartBelow (count f)) (get_or f.parts i []) (here ∷ []) old (low, tt));
        stems = h.stems;
        icons = h.icons;
      })
      low
