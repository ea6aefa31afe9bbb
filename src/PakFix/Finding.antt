-- ===== src/PakFix/Finding.antt =====
-- src/pak_fix.cpp: that `Fixer::find` ends at the root and keeps every root.
use bg3le.Common.{
  ℕ, zero, suc, ◌<◌, ◌≤◌, ◌≡◌, ◌≢◌, refl, sym, ap, ◌∙◌, false, some, List, length, get_or, set,
  length-set, get_or-set_self, get_or-set_ne, ◌==◌, ==_iff, ==-false, Bool-cases, inl, inr, subst,
  arith,
}
use bg3le.PakFix.Groups.{Groups, find, find_in}
use bg3le.PakFix.Climbs.{up_from, Climbs, Inside, Climbs-lt, halved, Climbs-halved}

abbrev pub HasRoot : List ℕ → ℕ → ℕ → Type 0
HasRoot parent g r = (k : ℕ) × Climbs parent g r k

-- Every group has a parent and a root.
pub record IsForest (parent : List ℕ) : Type 0 where
  pub inside : Inside parent
  pub rooted : (g : ℕ) → g < length parent → (r : ℕ) × HasRoot parent g r

test_ne : (a b : ℕ) → a ≢ b → (a == b) ≡ false
test_ne a b h = ground arith

pub set-Inside :
    (parent : List ℕ) (g v : ℕ) → v < length parent → Inside parent → Inside (set parent g v)
set-Inside parent g v h inside x small =
    let size = length-set parent g v in
    elim (Bool-cases (g == x)) [
      | inr p ↦
          let same = get_or-set_ne parent g x v x (==-false g x p) in
          let low = inside x (omega (arith, size)) in omega (arith, same, low, size)
      | inl p ↦
          let at : g ≡ x = (==_iff g x).0 p in
          let same : get_or (set parent g v) x x ≡ v =
            subst (λ (y : ℕ). get_or (set parent y v) x x ≡ v) (sym at)
              (get_or-set_self parent x v x (omega (arith, size))) in
          omega (arith, same, size, h)
    ]

halved-IsForest :
    (parent : List ℕ) (g : ℕ)
    → g < length parent
    → up_from parent g ≢ g
    → IsForest parent
    → IsForest (halved parent g)
halved-IsForest parent g h low forest =
    let up = forest.inside (up_from parent g) (forest.inside g h) in
    let size = length-set parent g (up_from parent (up_from parent g)) in
    record {
      inside = set-Inside parent g (up_from parent (up_from parent g)) up forest.inside;
      rooted = λ x small.
          (let (r, (k, c)) = forest.rooted x (omega (arith, size)) in
            let (k', few, c') = Climbs-halved parent g x r k h low c in (r, (k', c')));
    }

abbrev pub Found : List ℕ → ℕ → ℕ → List ℕ → Type 0
Found parent g r parent' =
    IsForest parent'
    × (length parent' ≡ length parent)
    × ((x q : ℕ) → HasRoot parent x q → HasRoot parent' x q)

-- The way up that is left after a round.
two_up :
    (parent : List ℕ) (g r k : ℕ)
    → Climbs parent (up_from parent g) r k
    → (j : ℕ) × (j ≤ k) × Climbs parent (up_from parent (up_from parent g)) r j
unfolding Climbs
two_up parent g r zero c = (0, omega arith, subst (λ (y : ℕ). Climbs parent y r 0) (sym c.0) c)
two_up parent g r (suc k) c = (k, omega arith, c.1)

find-Climbs :
    (fuel : ℕ) (parent : List ℕ) (g r k : ℕ)
    → k < fuel
    → IsForest parent
    → g < length parent
    → Climbs parent g r k
    → (parent' : List ℕ) × (find fuel parent g ≡ some (r, parent')) × Found parent g r parent'
unfolding find Climbs
find-Climbs zero parent g r k enough forest h c = absurd (omega arith)
find-Climbs (suc fuel) parent g r zero enough forest h c = (
  parent,
  rw ((==_iff (up_from parent g) g).1 c.0) (ap (λ (n : ℕ). some (n, parent)) c.1),
  (forest, refl, (λ x q root. root)),
)
find-Climbs (suc fuel) parent g r (suc k) enough forest h c =
    let two = up_from parent (up_from parent g) in
    let size = length-set parent g two in
    let (j, few, up) = two_up parent g r k c.1 in
    let (k', fewer, up') = Climbs-halved parent g two r j h c.0 up in
    let inside = forest.inside (up_from parent g) (forest.inside g h) in
    let (parent', found, (forest', size', roots)) =
      find-Climbs fuel (halved parent g) two r k' (omega arith)
        (halved-IsForest parent g h c.0 forest) (omega (arith, size, inside)) up' in
    (
      parent',
      rw (test_ne (up_from parent g) g c.0) found,
      (
        forest',
        size' ∙ size,
        (λ x q root.
            (let (k2, few2, root') = Climbs-halved parent g x q root.0 h c.0 root.1 in
              roots x q (k2, root'))),
      ),
    )

-- In a forest, `find` ends for each group with the fuel it is given and returns the root of the group;
-- the parents that it leaves are a forest again, as many as before, in which every group has the root
-- it had.
pub find_lem :
    (parent : List ℕ) (g : ℕ)
    → IsForest parent
    → g < length parent
    → (r : ℕ) × (parent' : List ℕ) × (find (suc (length parent)) parent g ≡ some (r, parent'))
      × HasRoot parent g r
      × Found parent g r parent'
find_lem parent g forest h =
    let (r, (k, c)) = forest.rooted g h in
    let low = Climbs-lt parent g r k forest.inside h c in
    let (parent', found, rest) =
      find-Climbs (suc (length parent)) parent g r k (omega arith) forest h c in
    (r, parent', found, (k, c), rest)

pub find_in_lem :
    (s : Groups) (g : ℕ)
    → IsForest s.parent
    → g < length s.parent
    → (r : ℕ) × (parent' : List ℕ) × (find_in s g ≡ some (r, record s { parent = parent' }))
      × HasRoot s.parent g r
      × Found s.parent g r parent'
find_in_lem s g forest h =
    let (r, parent', found, root, rest) = find_lem s.parent g forest h in
    (r, parent', rw found refl, root, rest)
