-- ===== src/GameFiles/Lookup.antt =====
-- src/game_files.cpp: which archive the index names for a path.
use bg3le.Common.{
  ℕ, ◌≡◌, refl, sym, ap, ◌∙◌, Bool, true, false, ◌||◌, Option, none, some, List, [], ◌∷◌,
  if◌then◌else◌, Bool-cases, Option-cases, inl, inr, subst,
}
use bg3le.Pak.Read.{same_bytes}
use bg3le.Pak.Kept.{same_bytes-true}
use bg3le.GameFiles.Map.{less, find, insert, emplace}
use bg3le.GameFiles.Index.{add_names}

module _ {ℓ} {V : Type ℓ} where
  abbrev pub or_else : Option V → Option V → Option V
  or_else none b = b
  or_else (some v) b = some v

  pub or_else-none : (a : Option V) → or_else a none ≡ a
  or_else-none none = refl
  or_else-none (some v) = refl

  pub or_else_assoc : (a b c : Option V) → or_else (or_else a b) c ≡ or_else a (or_else b c)
  or_else_assoc none b c = refl
  or_else_assoc (some v) b c = refl

  pub find-insert :
      (key k : List ℕ) (v : V) (m : List (List ℕ × V))
      → find key m ≡ none
      → find k (insert key v m) ≡ (if same_bytes key k then some v else find k m)
  find-insert key k v [] h = refl
  find-insert key k v ((k0, w) ∷ m) h = elim (Bool-cases (same_bytes k0 key)) [
    | inl p ↦ let wrong : some w ≡ none = rw p at h in cc
    | inr p ↦ elim (Bool-cases (less k0 key)) [
      | inr q ↦ rw q refl
      | inl q ↦
          let rest : find key m ≡ none = rw p at h in
          let next = find-insert key k v m rest in
          elim (Bool-cases (same_bytes key k)) [
            | inr r ↦
                rw (q, r)
                  (let next' : find k (insert key v m) ≡ find k m = rw r at next in rw next' refl)
            | inl r ↦
                let apart : same_bytes k0 k ≡ false =
                  subst (λ (x : List ℕ). same_bytes k0 x ≡ false) (same_bytes-true key k r) p in
                let next' : find k (insert key v m) ≡ some v = rw r at next in
                rw (q, r, apart) next'
          ]
    ]
  ]

  abbrev pub given : Bool → V → Option V
  given b v = if b then some v else none

  pub find-emplace :
      (key k : List ℕ) (v : V) (m : List (List ℕ × V))
      → find k (emplace key v m) ≡ or_else (find k m) (given (same_bytes key k) v)
  find-emplace key k v m = elim (Option-cases (find key m)) [
    | inr (w, e) ↦
        rw (emplace, e)
          (elim (Bool-cases (same_bytes key k)) [
            | inr p ↦ rw p (sym (or_else-none (find k m)))
            | inl p ↦
                let there : find k m ≡ some w =
                  subst (λ (x : List ℕ). find x m ≡ some w) (same_bytes-true key k p) e in
                rw there refl
          ])
    | inl e ↦
        rw (emplace, e)
          (find-insert key k v m e ∙ (elim (Bool-cases (same_bytes key k)) [
            | inr p ↦ rw p (sym (or_else-none (find k m)))
            | inl p ↦
                let missing : find k m ≡ none =
                  subst (λ (x : List ℕ). find x m ≡ none) (same_bytes-true key k p) e in
                rw (p, missing) refl
          ]))
  ]

abbrev pub has : List (List ℕ) → List ℕ → Bool
has [] k = false
has (name ∷ names) k = same_bytes name k || has names k

given-or : (a b : Bool) (v : List ℕ) → or_else (given a v) (given b v) ≡ given (a || b) v
given-or true b v = refl
given-or false b v = refl

pub find-add_names :
    (pak k : List ℕ) (names : List (List ℕ)) (files : List (List ℕ × List ℕ))
    → find k (add_names pak names files) ≡ or_else (find k files) (given (has names k) pak)
unfolding add_names
find-add_names pak k [] files = sym (or_else-none (find k files))
find-add_names pak k (name ∷ names) files =
    find-add_names pak k names (emplace name pak files)
    ∙ (ap (λ o. or_else o (given (has names k) pak)) (find-emplace name k pak files)
        ∙ (or_else_assoc (find k files) (given (same_bytes name k) pak) (given (has names k) pak)
            ∙ ap (or_else (find k files)) (given-or (same_bytes name k) (has names k) pak)))
