-- ===== src/PakFix/Climbs.antt =====
-- src/pak_fix.cpp: the way from a group up to its root, for `Fixer::find`.
use bg3le.Common.{
  ℕ, zero, suc, ◌-◌, ◌<◌, ◌≤◌, ◌≡◌, ◌≢◌, refl, sym, ap, ◌∙◌, List, length, get_or, set,
  get_or-set_self, get_or-set_ne, ◌==◌, ==_iff, ==-false, Bool-cases, inl, inr, subst, arith,
}
use bg3le.Common.Pigeonhole.{injective-le}

abbrev pub up_from : List ℕ → ℕ → ℕ
up_from parent g = get_or parent g g

-- The root of `g` is `r`, and `k` groups below it.
unfoldable pub Climbs : List ℕ → ℕ → ℕ → ℕ → Type 0
Climbs parent g r zero = (up_from parent g ≡ g) × (g ≡ r)
Climbs parent g r (suc k) = (up_from parent g ≢ g) × Climbs parent (up_from parent g) r k

pub Climbs-unique :
    (parent : List ℕ) (g r r' k k' : ℕ)
    → Climbs parent g r k
    → Climbs parent g r' k'
    → (k ≡ k') × (r ≡ r')
unfolding Climbs
Climbs-unique parent g r r' zero zero c c' = (refl, sym c.1 ∙ c'.1)
Climbs-unique parent g r r' zero (suc k') c c' = absurd (c'.0 c.0)
Climbs-unique parent g r r' (suc k) zero c c' = absurd (c.0 c'.0)
Climbs-unique parent g r r' (suc k) (suc k') c c' =
    let (steps, root) = Climbs-unique parent (up_from parent g) r r' k k' c.1 c'.1 in
    (ap suc steps, root)

-- `g` and the groups above it.
abbrev above : List ℕ → ℕ → ℕ → ℕ
above parent g zero = g
above parent g (suc i) = above parent (up_from parent g) i

above-Climbs :
    (parent : List ℕ) (g r k i : ℕ)
    → i ≤ k
    → Climbs parent g r k
    → Climbs parent (above parent g i) r (k - i)
unfolding Climbs
above-Climbs parent g r k zero h c = subst (λ (n : ℕ). Climbs parent g r n) (omega arith) c
above-Climbs parent g r zero (suc i) h c = absurd (omega arith)
above-Climbs parent g r (suc k) (suc i) h c =
    subst (λ (n : ℕ). Climbs parent (above parent (up_from parent g) i) r n) (omega arith)
      (above-Climbs parent (up_from parent g) r k i (omega arith) c.1)

-- Every group has a parent.
abbrev pub Inside : List ℕ → Type 0
Inside parent = (g : ℕ) → g < length parent → up_from parent g < length parent

above-lt :
    (parent : List ℕ) (g i : ℕ)
    → Inside parent
    → g < length parent
    → above parent g i < length parent
above-lt parent g zero inside h = h
above-lt parent g (suc i) inside h = above-lt parent (up_from parent g) i inside (inside g h)

-- A root is not as far away as there are groups.
pub Climbs-lt :
    (parent : List ℕ) (g r k : ℕ)
    → Inside parent
    → g < length parent
    → Climbs parent g r k
    → k < length parent
Climbs-lt parent g r k inside h c =
    let many =
      injective-le (length parent) (suc k) (above parent g)
        (λ i small. above-lt parent g i inside h)
        (λ i j small small' e.
          (let ci = above-Climbs parent g r k i (omega arith) c in
            let cj = above-Climbs parent g r k j (omega arith) c in
            let ci' = subst (λ (x : ℕ). Climbs parent x r (k - i)) e ci in
            let same = Climbs-unique parent (above parent g j) r r (k - i) (k - j) ci' cj in
            omega (arith, same.0))) in
    omega (arith, many)

-- The parents with the parent of `g` replaced by its parent's parent.
abbrev pub halved : List ℕ → ℕ → List ℕ
halved parent g = set parent g (up_from parent (up_from parent g))

up_from-halved_ne :
    (parent : List ℕ) (g x : ℕ) → g ≢ x → up_from (halved parent g) x ≡ up_from parent x
up_from-halved_ne parent g x h = get_or-set_ne parent g x (up_from parent (up_from parent g)) x h

up_from-halved :
    (parent : List ℕ) (g : ℕ)
    → g < length parent
    → up_from (halved parent g) g ≡ up_from parent (up_from parent g)
up_from-halved parent g h = get_or-set_self parent g (up_from parent (up_from parent g)) g h

-- `x` has a root once the group above it has one.
step_up :
    (parent : List ℕ) (g x y r k : ℕ)
    → up_from (halved parent g) x ≡ y
    → y ≢ x
    → (k' : ℕ) × (k' ≤ k) × Climbs (halved parent g) y r k'
    → (k' : ℕ) × (k' ≤ suc k) × Climbs (halved parent g) x r k'
unfolding Climbs
step_up parent g x y r k same away (k', few, rest) = (
  suc k',
  omega arith,
  subst (λ (z : ℕ). (z ≢ x) × Climbs (halved parent g) z r k') (sym same) (away, rest),
)

-- A group with a root has the same root after that, no further away.
pub Climbs-halved :
    (parent : List ℕ) (g x r k : ℕ)
    → g < length parent
    → up_from parent g ≢ g
    → Climbs parent x r k
    → (k' : ℕ) × (k' ≤ k) × Climbs (halved parent g) x r k'
unfolding Climbs
Climbs-halved parent g x r zero h low c =
    let apart : g ≢ x = λ e. low (subst (λ (y : ℕ). up_from parent y ≡ y) (sym e) c.0) in
    (0, omega arith, (up_from-halved_ne parent g x apart ∙ c.0, c.1))
Climbs-halved parent g x r (suc zero) h low c =
    let next = Climbs-halved parent g (up_from parent x) r zero h low c.1 in
    elim (Bool-cases (g == x)) [
      | inr p ↦
          step_up parent g x (up_from parent x) r 0 (up_from-halved_ne parent g x (==-false g x p))
            c.0 next
      | inl p ↦
          let at : g ≡ x = (==_iff g x).0 p in
          let same : up_from (halved parent g) x ≡ up_from parent x =
            subst (λ (y : ℕ). up_from (halved parent y) x ≡ up_from parent x) (sym at)
              (up_from-halved parent x (subst (λ (y : ℕ). y < length parent) at h) ∙ c.1.0) in
          step_up parent g x (up_from parent x) r 0 same c.0 next
    ]
Climbs-halved parent g x r (suc (suc k)) h low c = elim (Bool-cases (g == x)) [
  | inr p ↦
      step_up parent g x (up_from parent x) r (suc k)
        (up_from-halved_ne parent g x (==-false g x p)) c.0
        (Climbs-halved parent g (up_from parent x) r (suc k) h low c.1)
  | inl p ↦
      let at : g ≡ x = (==_iff g x).0 p in
      let two = up_from parent (up_from parent x) in
      let same : up_from (halved parent g) x ≡ two =
        subst (λ (y : ℕ). up_from (halved parent y) x ≡ two) (sym at)
          (up_from-halved parent x (subst (λ (y : ℕ). y < length parent) at h)) in
      let away : two ≢ x = λ e.
        (let again = subst (λ (y : ℕ). Climbs parent y r k) e c.1.1 in
          let steps = Climbs-unique parent x r r k (suc (suc k)) again c in
          omega (arith, steps.0)) in
      let (k', few, rest) = Climbs-halved parent g two r k h low c.1.1 in
      step_up parent g x two r (suc k) same away (k', omega arith, rest)
]
