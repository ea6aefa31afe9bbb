-- ===== src/PakFix/Pinned.antt =====
-- src/pak_fix.cpp: that the steps of the constructor of `Fixer` on directories and pins end.
use bg3le.Common.{
  ℕ, ◌+◌, ◌<◌, ◌≤◌, ◌≡◌, refl, Bool, true, false, not, Option, none, some, List, [], ◌∷◌, take,
  drop, if◌then◌else◌, ◌>>=◌, Bool-cases, inl, inr, arith,
}
use bg3le.GameFiles.Map.{find}
use bg3le.PakFix.Names.{lowered, iequals}
use bg3le.PakFix.Groups.{group_at}
use bg3le.PakFix.State.{
  Part, Fixer, group, add_part, add_directories, canonical, or_parts, from_gui, pin_if, pin_parts,
  push_under, range,
}
use bg3le.PakFix.Fixer.{pin_when}
use bg3le.PakFix.Growing.{find_in-Keeps}
use bg3le.PakFix.Steps.{
  count, PartBelow, PartsBelow, IsSound, IsSound-groups, Ends, Ends-some, Ends-bind, pin-Ends,
  group-Grouped, add_part-Ends, All-weaken,
}

pub Ends-fewer : (n m : ℕ) (o : Option Fixer) → n ≤ m → Ends m o → Ends n o
Ends-fewer n m o h (f, e, sound, more) = (f, e, sound, omega (arith, h, more))

-- One step after another.
pub Ends-then :
    (n : ℕ) (o : Option Fixer) (k : Fixer → Option Fixer)
    → Ends n o
    → ((f : Fixer) → IsSound f → n ≤ count f → Ends (count f) (k f))
    → Ends n (o >>= k)
Ends-then n o k h next =
    Ends-bind n o k h (λ f sound more. Ends-fewer n (count f) (k f) more (next f sound more))

-- Only the maps differ, which are not about groups.
pub push-IsSound :
    (f : Fixer) (full suffixes : List (List ℕ × List ℕ))
    → IsSound f
    → IsSound (record f { full = full; suffixes = suffixes })
push-IsSound f full suffixes h = record {
  forest = h.forest;
  same = h.same;
  ids = h.ids;
  parts = h.parts;
  stems = h.stems;
  icons = h.icons;
}

-- A part is added with the group of an id.
grouped_part :
    (i begin end' : ℕ) (id : List ℕ) (directory : Bool) (f : Fixer)
    → IsSound f
    → Ends (count f) (add_part i begin end' (group id directory f))
grouped_part i begin end' id directory f h =
    let (sound, low, more, parts) = group-Grouped id directory f h in
    Ends-fewer (count f) (count (group id directory f).1)
      (add_part i begin end' (group id directory f)) more
      (add_part-Ends i begin end' (group id directory f).0 (group id directory f).1 sound low)

pub add_directories-Ends :
    (i : ℕ) (low : List ℕ) (slashes : List ℕ) (begin : ℕ) (f : Fixer)
    → IsSound f
    → (begin' : ℕ) × (f' : Fixer) × (add_directories i low slashes begin f ≡ some (begin', f'))
      × IsSound f'
      × (count f ≤ count f')
unfolding add_directories
add_directories-Ends i low [] begin f h = (begin, f, refl, h, omega arith)
add_directories-Ends i low (slash ∷ slashes) begin f h =
    let (f1, e1, sound1, more1) =
      grouped_part i begin slash (b'd' ∷ (b':' ∷ take slash low)) true f h in
    let pushed = push_under (drop (slash + 1) low) i f1.suffixes in
    let (begin', f2, e2, sound2, more2) =
      add_directories-Ends i low slashes (slash + 1) (record f1 { suffixes = pushed })
        (push-IsSound f1 f1.full pushed sound1) in
    (begin', f2, rw e1 e2, sound2, omega (arith, more1, more2))

or_parts-Below :
    (n : ℕ) (a b : List Part) → PartsBelow n a → PartsBelow n b → PartsBelow n (or_parts a b)
or_parts-Below n [] b h k = k
or_parts-Below n (p ∷ a) b h k = h

if-Below :
    (n : ℕ) (b : Bool) (parts : List Part)
    → PartsBelow n parts
    → PartsBelow n (if b then parts else [])
if-Below n true parts h = h
if-Below n false parts h = tt

-- The parts from `GUI` on are some of the parts.
pub from_gui-Below :
    (n : ℕ) (name : List ℕ) (parts : List Part)
    → PartsBelow n parts
    → PartsBelow n (from_gui name parts)
unfolding from_gui
from_gui-Below n name [] h = tt
from_gui-Below n name (p ∷ []) h = tt
from_gui-Below n name (p ∷ (q ∷ parts)) h =
    or_parts-Below n (from_gui name (q ∷ parts)) _ (from_gui-Below n name (q ∷ parts) h.1) (
      if-Below n (iequals (range name p.begin p.end') (b'G' ∷ b'U' ∷ b'I' ∷ [])) (p ∷ (q ∷ parts))
        h)

pin_if-Ends :
    (o : Option (List ℕ)) (g : ℕ) (f : Fixer)
    → IsSound f
    → g < count f
    → Ends (count f) (pin_if o g f)
unfolding pin_if
pin_if-Ends none g f h low = Ends-some (count f) f h (omega arith)
pin_if-Ends (some spelling) g f h low = pin-Ends f g spelling h low

pub pin_when-Ends :
    (b : Bool) (g : ℕ) (spelling : List ℕ) (f : Fixer)
    → IsSound f
    → g < count f
    → Ends (count f) (pin_when b g spelling f)
pin_when-Ends true g spelling f h low = pin_if-Ends (some spelling) g f h low
pin_when-Ends false g spelling f h low = Ends-some (count f) f h (omega arith)

Below-more : (n m : ℕ) (parts : List Part) → n ≤ m → PartsBelow n parts → PartsBelow m parts
Below-more n m parts more h =
    All-weaken (PartBelow n) (PartBelow m) (λ p l. omega (arith, l, more)) parts h

pub pin_parts-Ends :
    (name : List ℕ) (parts : List Part) (f : Fixer)
    → IsSound f
    → PartsBelow (count f) parts
    → Ends (count f) (pin_parts name parts f)
unfolding pin_parts
pin_parts-Ends name [] f h low = Ends-some (count f) f h (omega arith)
pin_parts-Ends name (p ∷ parts) f h low =
    let (root, s, found, keeps) = find_in-Keeps f.groups p.group h.forest low.0 in
    let f1 : Fixer = record f { groups = s } in
    let sound = IsSound-groups f s h keeps in
    let as_many : count f1 ≡ count f = keeps.same_parents in
    rw found (elim (Bool-cases (not (group_at s root).directory)) [
      | inl q ↦ rw q (Ends-some (count f) f1 sound (omega (arith, as_many)))
      | inr q ↦ rw q (
          Ends-fewer (count f) (count f1) _ (omega (arith, as_many)) (
            Ends-bind (count f1)
              (pin_if (find (lowered (range name p.begin p.end')) canonical) p.group f1)
              (pin_parts name parts)
              (pin_if-Ends _ p.group f1 sound (omega (arith, as_many, low.0)))
              (λ f2 sound2 more. Ends-fewer (count f1) (count f2) (pin_parts name parts f2) more (
                pin_parts-Ends name parts f2 sound2
                  (Below-more (count f) (count f2) parts (omega (arith, as_many, more)) low.1)))))
    ])
