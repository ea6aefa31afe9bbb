-- ===== src/PakFix/Choice.antt =====
-- src/pak_fix.cpp: the spelling that `choose` picks differs from the others in case only.
use bg3le.Common.{
  ℕ, suc, ◌+◌, ◌≡◌, ◌≢◌, refl, sym, ap, ◌∙◌, false, none, some, List, [], ◌∷◌, length, ◌==◌,
  Bool-cases, Option-cases, if_none-eq-some, if_some-eq-some, subst, inl, inr, arith, All,
}
use mathlib.Core.List.{map}
use mathlib.Core.Option.{some-injective}
use bg3le.Pak.Read.{same_bytes}
use bg3le.PakFix.Names.{lower}
use bg3le.PakFix.Groups.{
  Occurrence, Group, is_empty, all_same, archive_spelling, differs_at, lower_differing, front,
  choose_free, choose,
}

-- The same letters as `key`, in any case.
abbrev pub Spells : List ℕ → List ℕ → Type 0
Spells key s = map lower s ≡ map lower key

lower-lower : (c : ℕ) → lower (lower c) ≡ lower c
unfolding lower
lower-lower c = ground arith

lower_differing-Spells :
    (i : ℕ) (t : List ℕ) (spellings : List (List ℕ))
    → map lower (lower_differing i t spellings) ≡ map lower t
unfolding lower_differing
lower_differing-Spells i [] spellings = refl
lower_differing-Spells i (c ∷ t) spellings =
    let rest = lower_differing-Spells (i + 1) t spellings in
    elim (Bool-cases (differs_at i c spellings)) [
      | inl p ↦ rw p (λ j. lower-lower c j ∷ rest j)
      | inr p ↦ rw p (λ j. lower c ∷ rest j)
    ]

archive_spelling-Spells :
    (key : List ℕ) (os : List Occurrence) (spellings : List (List ℕ)) (archive target : List ℕ)
    → All (Spells key) spellings
    → (is_empty archive ≡ false → Spells key archive)
    → archive_spelling os spellings archive ≡ some target
    → Spells key target
unfolding archive_spelling
archive_spelling-Spells key os [] archive target h a e =
    let (filled, out) = if_none-eq-some (is_empty archive) (some archive) e in
    subst (Spells key) (some-injective _ _ out) (a filled)
archive_spelling-Spells key [] (s ∷ spellings) archive target h a e = cc
archive_spelling-Spells key (o ∷ os) (s ∷ spellings) archive target h a e =
    let first = archive_spelling-Spells key os spellings s target h.1 (λ filled. h.0) in
    let next = archive_spelling-Spells key os spellings archive target h.1 a in
    elim (Option-cases o.content) [
      | inr (c, p) ↦ next (rw p at e)
      | inl p ↦ elim (Bool-cases (is_empty archive)) [
        | inl q ↦ first (rw (p, q) at e)
        | inr q ↦ elim (Bool-cases (same_bytes archive s)) [
          | inl r ↦ next (rw (p, q, r) at e)
          | inr r ↦ let no : none ≡ some target = rw (p, q, r) at e in cc
        ]
      ]
    ]

front-Spells :
    (key : List ℕ) (spellings : List (List ℕ))
    → spellings ≢ []
    → All (Spells key) spellings
    → Spells key (front spellings)
front-Spells key [] some_spelling h = absurd (some_spelling refl)
front-Spells key (s ∷ spellings) some_spelling h = h.0

choose_free-Spells :
    (key : List ℕ) (group : Group) (spellings : List (List ℕ)) (target : List ℕ)
    → spellings ≢ []
    → All (Spells key) spellings
    → choose_free group spellings ≡ some target
    → Spells key target
unfolding choose_free
choose_free-Spells key group spellings target some_spelling h e =
    let (several, e') = if_none-eq-some (all_same (front spellings) spellings) _ e in
    elim (Bool-cases group.directory) [
      | inl p ↦
          archive_spelling-Spells key group.occurrences spellings [] target h (λ no. cc)
            (rw p at e')
      | inr p ↦
          let out : some (lower_differing 0 (front spellings) spellings) ≡ some target =
            rw p at e' in
          subst (Spells key) (some-injective _ _ out) (
            lower_differing-Spells 0 (front spellings) spellings
            ∙ front-Spells key spellings some_spelling h)
    ]

length-map-lower : (s : List ℕ) → length (map lower s) ≡ length s
length-map-lower [] = refl
length-map-lower (c ∷ s) = ap suc (length-map-lower s)

Spells-length : (key s : List ℕ) → Spells key s → length s ≡ length key
Spells-length key s h = sym (length-map-lower s) ∙ (ap length h ∙ length-map-lower key)

-- Where all spellings of a group, of which there is one at least, and its pin, if it has one, have
-- the letters of one key in some case, a spelling that `choose` returns for the group has them too,
-- and is as long as each of those that it replaces.
pub choose_lem :
    (key : List ℕ) (group : Group) (spellings : List (List ℕ)) (target : List ℕ)
    → spellings ≢ []
    → All (Spells key) spellings
    → (is_empty group.pinned ≡ false → Spells key group.pinned)
    → choose group spellings ≡ some target
    → Spells key target × All (λ s. length s ≡ length target) spellings
unfolding choose
choose_lem key group spellings target some_spelling h pin e = (found, same_length spellings h)
  where
    found : Spells key target
    found =
        let (agreed, e') = if_none-eq-some group.pin_conflict _ e in
        elim (Bool-cases (is_empty group.pinned)) [
          | inl p ↦ choose_free-Spells key group spellings target some_spelling h (rw p at e')
          | inr p ↦
              let (fits, out) =
                if_some-eq-some (length group.pinned == length (front spellings))
                  (some group.pinned) (rw p at e') in
              subst (Spells key) (some-injective _ _ out) (pin p)
        ]

    same_length :
        (ss : List (List ℕ)) → All (Spells key) ss → All (λ s. length s ≡ length target) ss
    same_length [] g = tt
    same_length (s ∷ ss) g =
        (Spells-length key s g.0 ∙ sym (Spells-length key target found), same_length ss g.1)
