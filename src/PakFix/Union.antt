-- ===== src/PakFix/Union.antt =====
-- src/pak_fix.cpp: that `Fixer::unite` makes one class of two.
use bg3le.Common.{
  ℕ, zero, suc, ◌<◌, ◌≡◌, ◌≢◌, refl, sym, ◌∙◌, some, List, length, set, length-set, get_or-set_self,
  get_or-set_ne, ◌==◌, ==_iff, ==-false, if◌then◌else◌, Bool-cases, inl, inr, subst, arith,
}
use bg3le.PakFix.Groups.{Groups, no_group, group_at, merged, unite}
use bg3le.PakFix.Climbs.{up_from, Climbs, Climbs-unique, Inside}
use bg3le.PakFix.Finding.{HasRoot, IsForest, set-Inside, find_in_lem}

-- The root of a group after the roots `ra` and `rb` were made one.
abbrev pub joined : ℕ → ℕ → ℕ → ℕ
joined ra rb q = if q == rb then ra else q

linked :
    (parent : List ℕ) (ra rb x q k : ℕ)
    → rb < length parent
    → ra ≢ rb
    → up_from parent ra ≡ ra
    → up_from parent rb ≡ rb
    → Climbs parent x q k
    → HasRoot (set parent rb ra) x (joined ra rb q)
unfolding Climbs
linked parent ra rb x q zero h apart top top' c = elim (Bool-cases (q == rb)) [
  | inl p ↦
      let at : x ≡ rb = c.1 ∙ (==_iff q rb).0 p in
      let new : up_from (set parent rb ra) rb ≡ ra = get_or-set_self parent rb ra rb h in
      let old : up_from (set parent rb ra) ra ≡ ra =
        get_or-set_ne parent rb ra ra ra (λ e. apart (sym e)) ∙ top in
      let last : Climbs (set parent rb ra) ra ra 0 = (old, refl) in
      let whole : Climbs (set parent rb ra) rb ra 1 =
        subst (λ (y : ℕ). (y ≢ rb) × Climbs (set parent rb ra) y ra 0) (sym new) (apart, last) in
      rw p (1, subst (λ (y : ℕ). Climbs (set parent rb ra) y ra 1) (sym at) whole)
  | inr p ↦
      let away : rb ≢ x = λ e. ==-false q rb p (sym c.1 ∙ sym e) in
      rw p (0, (get_or-set_ne parent rb x ra x away ∙ c.0, c.1))
]
linked parent ra rb x q (suc k) h apart top top' c =
    let away : rb ≢ x = λ e. c.0 (subst (λ (y : ℕ). up_from parent y ≡ y) e top') in
    let same : up_from (set parent rb ra) x ≡ up_from parent x =
      get_or-set_ne parent rb x ra x away in
    let (k', rest) = linked parent ra rb (up_from parent x) q k h apart top top' c.1 in
    (
      suc k',
      subst (λ (y : ℕ). (y ≢ x) × Climbs (set parent rb ra) y (joined ra rb q) k') (sym same)
          (c.0, rest),
    )

-- A root is its own parent, and a group.
root-top : (parent : List ℕ) (g r k : ℕ) → Climbs parent g r k → up_from parent r ≡ r
unfolding Climbs
root-top parent g r zero c = subst (λ (y : ℕ). up_from parent y ≡ y) c.1 c.0
root-top parent g r (suc k) c = root-top parent (up_from parent g) r k c.1

root-lt :
    (parent : List ℕ) (g r k : ℕ)
    → Inside parent
    → g < length parent
    → Climbs parent g r k
    → r < length parent
unfolding Climbs
root-lt parent g r zero inside h c = subst (λ (y : ℕ). y < length parent) c.1 h
root-lt parent g r (suc k) inside h c =
    root-lt parent (up_from parent g) r k inside (inside g h) c.1

link-IsForest :
    (parent : List ℕ) (ra rb : ℕ)
    → ra < length parent
    → rb < length parent
    → ra ≢ rb
    → up_from parent ra ≡ ra
    → up_from parent rb ≡ rb
    → IsForest parent
    → IsForest (set parent rb ra)
link-IsForest parent ra rb h h' apart top top' forest = record {
  inside = set-Inside parent rb ra h forest.inside;
  rooted = λ x small.
      (let (q, (k, c)) = forest.rooted x (omega (arith, length-set parent rb ra)) in
        (joined ra rb q, linked parent ra rb x q k h' apart top top' c));
}

HasRoot-unique : (parent : List ℕ) (g r r' : ℕ) → HasRoot parent g r → HasRoot parent g r' → r ≡ r'
HasRoot-unique parent g r r' (k, c) (k', c') = (Climbs-unique parent g r r' k k' c c').1

joined_self : (ra rb q : ℕ) → ra ≡ rb → joined ra rb q ≡ q
joined_self ra rb q h = ground arith

abbrev joined_groups : Groups → ℕ → ℕ → Groups
joined_groups s ra rb = record {
  groups = set (set s.groups ra (merged (group_at s ra) (group_at s rb))) rb no_group;
  parent = set s.parent rb ra;
}

-- In a forest of groups, `unite` ends; it leaves a forest of as many groups, in which every group has
-- the root it had, except that those with the root of the second group have the root of the first:
-- the two classes are one, and no other changes.
pub unite_lem :
    (s : Groups) (a b : ℕ)
    → IsForest s.parent
    → a < length s.parent
    → b < length s.parent
    → (s' : Groups) × (ra : ℕ) × (rb : ℕ) × (unite s a b ≡ some s')
      × HasRoot s.parent a ra
      × HasRoot s.parent b rb
      × IsForest s'.parent
      × (length s'.parent ≡ length s.parent)
      × (length s'.groups ≡ length s.groups)
      × ((x q : ℕ) → HasRoot s.parent x q → HasRoot s'.parent x (joined ra rb q))
unfolding unite
unite_lem s a b forest ha hb =
    let (ra, p1, found1, root1, (forest1, size1, roots1)) = find_in_lem s a forest ha in
    let s1 : Groups = record s { parent = p1 } in
    let (rb, p2, found2, root2, (forest2, size2, roots2)) =
      find_in_lem s1 b forest1 (omega (arith, size1)) in
    let roots : (x q : ℕ) → HasRoot s.parent x q → HasRoot p2 x q =
      λ x q h. roots2 x q (roots1 x q h) in
    let (rb0, (k0, c0)) = forest.rooted b hb in
    let same : rb0 ≡ rb = HasRoot-unique p1 b rb0 rb (roots1 b rb0 (k0, c0)) root2 in
    let root_b = subst (λ (r : ℕ). HasRoot s.parent b r) same (k0, c0) in
    let (ka, ca) = roots a ra root1 in
    let (kb, cb) = roots b rb root_b in
    let size : length p2 ≡ length s.parent = size2 ∙ size1 in
    elim (Bool-cases (ra == rb)) [
      | inl p ↦ (
        record s { parent = p2 },
        ra,
        rb,
        rw (found1, found2, p) refl,
        root1,
        root_b,
        forest2,
        size,
        refl,
        (λ x q h.
            subst (λ (r : ℕ). HasRoot p2 x r) (sym (joined_self ra rb q ((==_iff ra rb).0 p)))
              (roots x q h)),
      )
      | inr p ↦
          let apart = ==-false ra rb p in
          let top = root-top p2 a ra ka ca in
          let top' = root-top p2 b rb kb cb in
          let low = root-lt p2 a ra ka forest2.inside (omega (arith, size)) ca in
          let low' = root-lt p2 b rb kb forest2.inside (omega (arith, size)) cb in
          (
            joined_groups (record s { parent = p2 }) ra rb,
            ra,
            rb,
            rw (found1, found2, p) refl,
            root1,
            root_b,
            link-IsForest p2 ra rb low low' apart top top' forest2,
            length-set p2 rb ra ∙ size,
            length-set (set s.groups ra (merged (group_at s ra) (group_at s rb))) rb no_group
                ∙ length-set s.groups ra (merged (group_at s ra) (group_at s rb)),
            (λ x q h. (let (k, c) = roots x q h in linked p2 ra rb x q k low' apart top top' c)),
          )
    ]
