-- ===== src/PakFix/Growing.antt =====
-- src/pak_fix.cpp: the groups of a `Fixer` stay a forest while it grows.
use bg3le.Common.{
  ℕ, zero, suc, ◌<◌, ◌≡◌, ◌≢◌, refl, sym, ◌∙◌, some, List, [], ◌∷◌, ◌++◌, length, length-append,
  length-set, get_or, set, ltb, Bool-cases, inl, inr, ◌⊎◌, subst, arith,
}
use bg3le.PakFix.Groups.{Occurrence, Group, Groups, group_at, find_in, with_pin, pin, add, unite}
use bg3le.PakFix.Climbs.{up_from, Climbs, Inside}
use bg3le.PakFix.Finding.{IsForest, find_in_lem}
use bg3le.PakFix.Union.{unite_lem}

get_or-append : (xs ys : List ℕ) (i d : ℕ) → i < length xs → get_or (xs ++ ys) i d ≡ get_or xs i d
get_or-append [] ys i d h = absurd (omega arith)
get_or-append (x ∷ xs) ys zero d h = refl
get_or-append (x ∷ xs) ys (suc i) d h = get_or-append xs ys i d (omega arith)

get_or-last : (xs : List ℕ) (x d : ℕ) → get_or (xs ++ (x ∷ [])) (length xs) d ≡ x
get_or-last [] x d = refl
get_or-last (y ∷ xs) x d = get_or-last xs x d

module _ (parent : List ℕ) where
  -- One more group, which is its own parent.
  abbrev pub longer : List ℕ
  longer = parent ++ (length parent ∷ [])

  pub length-longer : length longer ≡ suc (length parent)
  length-longer = omega (arith, length-append parent (length parent ∷ []))

  Climbs-longer :
      (g r k : ℕ) → Inside parent → g < length parent → Climbs parent g r k → Climbs longer g r k
  unfolding Climbs
  Climbs-longer g r zero inside h c = (get_or-append parent (length parent ∷ []) g g h ∙ c.0, c.1)
  Climbs-longer g r (suc k) inside h c =
      let same = get_or-append parent (length parent ∷ []) g g h in
      subst (λ (y : ℕ). (y ≢ g) × Climbs longer y r k) (sym same)
        (c.0, Climbs-longer (up_from parent g) r k inside (inside g h) c.1)

  last_or_before : (g : ℕ) → g < length longer → (g ≡ length parent) ⊎ (g < length parent)
  last_or_before g h = elim (Bool-cases (ltb g (length parent))) [
    | inl p ↦ inr (ground arith)
    | inr p ↦ inl (let size = length-longer in ground arith)
  ]

  top-longer : up_from longer (length parent) ≡ length parent
  top-longer = get_or-last parent (length parent) (length parent)

  pub longer-IsForest : IsForest parent → IsForest longer
  unfolding Climbs
  longer-IsForest forest = record {
    inside = λ g h. elim (last_or_before g h) [
      | inl e ↦
          subst (λ (x : ℕ). up_from longer x < length longer) (sym e)
            (omega (arith, top-longer, length-longer))
      | inr low ↦
          let same = get_or-append parent (length parent ∷ []) g g low in
          let up = forest.inside g low in omega (arith, same, up, length-longer)
    ];
    rooted = λ g h. elim (last_or_before g h) [
      | inl e ↦
          let top : Climbs longer (length parent) (length parent) 0 = (top-longer, refl) in
          (length parent, (0, subst (λ (x : ℕ). Climbs longer x (length parent) 0) (sym e) top))
      | inr low ↦
          let (r, (k, c)) = forest.rooted g low in (r, (k, Climbs-longer g r k forest.inside low c))
    ];
  }

-- The groups are as many as before, and a forest.
pub record Keeps (s s' : Groups) : Type 0 where
  pub forest : IsForest s'.parent
  pub same_parents : length s'.parent ≡ length s.parent
  pub same_groups : length s'.groups ≡ length s.groups

module _ (s : Groups) (g : ℕ) (forest : IsForest s.parent) (h : g < length s.parent) where
  pub find_in-Keeps : (r : ℕ) × (s' : Groups) × (find_in s g ≡ some (r, s')) × Keeps s s'
  find_in-Keeps =
      let (r, parent', found, root, (forest', size, roots)) = find_in_lem s g forest h in
      (
        r,
        record s { parent = parent' },
        found,
        record { forest = forest'; same_parents = size; same_groups = refl },
      )

  pub pin-Keeps : (spelling : List ℕ) → (s' : Groups) × (pin s g spelling ≡ some s') × Keeps s s'
  unfolding pin
  pin-Keeps spelling =
      let (r, s1, found, keeps) = find_in-Keeps in
      let pinned = with_pin (group_at s1 r) spelling in
      (
        record s1 { groups = set s1.groups r pinned },
        rw found refl,
        record {
          forest = keeps.forest;
          same_parents = keeps.same_parents;
          same_groups = length-set s1.groups r pinned ∙ keeps.same_groups;
        },
      )

  pub add-Keeps : (o : Occurrence) → (s' : Groups) × (add s g o ≡ some s') × Keeps s s'
  unfolding add
  add-Keeps o =
      let (r, s1, found, keeps) = find_in-Keeps in
      let to = group_at s1 r in
      let more : Group = record to { occurrences = to.occurrences ++ (o ∷ []) } in
      (
        record s1 { groups = set s1.groups r more },
        rw found refl,
        record {
          forest = keeps.forest;
          same_parents = keeps.same_parents;
          same_groups = length-set s1.groups r more ∙ keeps.same_groups;
        },
      )

pub unite-Keeps :
    (s : Groups) (a b : ℕ)
    → IsForest s.parent
    → a < length s.parent
    → b < length s.parent
    → (s' : Groups) × (unite s a b ≡ some s') × Keeps s s'
unite-Keeps s a b forest ha hb =
    let (s', ra, rb, e, root_a, root_b, forest', size, size', joins) =
      unite_lem s a b forest ha hb in
    (s', e, record { forest = forest'; same_parents = size; same_groups = size' })
