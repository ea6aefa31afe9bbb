-- ===== src/GameFiles/Sorting.antt =====
-- src/game_files.cpp: the order of the archives, and the archive that a path is read from.
use bg3le.Common.{
  refl, ℕ, ◌≤◌, ◌≡◌, sym, true, false, some, List, [], ◌∷◌, All, ltb, ltb-false, ltb→lt, Bool-cases,
  Option, none, ◌&&◌, inl, inr, subst, arith,
}
use bg3le.Pak.Format.{Codecs}
use bg3le.Pak.Read.{same_bytes}
use bg3le.Pak.Kept.{same_bytes-true, same_bytes_self}
use bg3le.GameFiles.Host.{Host, priority, insert_pak, sort_paks, all_paks, archives_in, archives}
use bg3le.GameFiles.Lookup.{has}
use bg3le.GameFiles.Map.{find}
use bg3le.GameFiles.Index.{State, build}
use bg3le.GameFiles.Refinement.{names_of, owner, Represents, find-build}

All-map :
    {A : Type 0} (P Q : A → Type 0) → ((a : A) → P a → Q a) → (xs : List A) → All P xs → All Q xs
All-map P Q f [] h = tt
All-map P Q f (x ∷ xs) h = (f x h.0, All-map P Q f xs h.1)

All-has : (P : List ℕ → Type 0) (xs : List (List ℕ)) (k : List ℕ) → All P xs → has xs k ≡ true → P k
All-has P [] k h there = cc
All-has P (x ∷ xs) k h there = elim (Bool-cases (same_bytes x k)) [
  | inl p ↦ subst P (same_bytes-true x k p) h.0
  | inr p ↦ All-has P xs k h.1 (rw p at there)
]

module _ (host : Host) where
  -- No path has a higher priority than one before it.
  abbrev Ordered : List (List ℕ) → Type 0
  Ordered [] = Unit
  Ordered (p ∷ paths) =
      All (λ (q : List ℕ). priority host q ≤ priority host p) paths × Ordered paths

  All-insert_pak :
      (P : List ℕ → Type 0) (path : List ℕ) (paths : List (List ℕ))
      → P path
      → All P paths
      → All P (insert_pak host path paths)
  unfolding insert_pak
  All-insert_pak P path [] h k = (h, tt)
  All-insert_pak P path (p ∷ paths) h k =
      elim (Bool-cases (ltb (priority host path) (priority host p))) [
        | inl q ↦ rw q (k.0, All-insert_pak P path paths h k.1)
        | inr q ↦ rw q (h, k)
      ]

  insert_pak-Ordered :
      (path : List ℕ) (paths : List (List ℕ)) → Ordered paths → Ordered (insert_pak host path paths)
  unfolding insert_pak
  insert_pak-Ordered path [] h = (tt, tt)
  insert_pak-Ordered path (p ∷ paths) h =
      elim (Bool-cases (ltb (priority host path) (priority host p))) [
        | inl q ↦
            let low = ltb→lt (priority host path) (priority host p) q in
            let below =
              All-insert_pak (λ (r : List ℕ). priority host r ≤ priority host p) path paths
                (omega (arith, low)) h.0 in
            rw q (below, insert_pak-Ordered path paths h.1)
        | inr q ↦
            let high = ltb-false (priority host path) (priority host p) q in
            let below =
              All-map (λ (r : List ℕ). priority host r ≤ priority host p)
                (λ (r : List ℕ). priority host r ≤ priority host path)
                (λ r k. omega (arith, high, k)) paths h.0 in
            rw q ((high, below), h)
      ]

  sort_paks-Ordered : (paths : List (List ℕ)) → Ordered (sort_paks host paths)
  unfolding sort_paks
  sort_paks-Ordered [] = tt
  sort_paks-Ordered (path ∷ paths) =
      insert_pak-Ordered path (sort_paks host paths) (sort_paks-Ordered paths)

  archives_in-Ordered : (root : List ℕ) → Ordered (archives_in host root)
  unfolding archives_in
  archives_in-Ordered [] = tt
  archives_in-Ordered (c ∷ root) = sort_paks-Ordered (all_paks host (c ∷ root))

  module _ (codecs : Codecs) where
    -- A name is answered by an archive that is mounted and lists it, and of those that are mounted
    -- and list it none has a higher priority; without an answer, none that is mounted lists it.
    abbrev pub Highest : List ℕ → List (List ℕ) → Option (List ℕ) → Type 0
    Highest name paks none = All (λ (q : List ℕ). has (names_of codecs host q) name ≡ false) paks
    Highest name paks (some pak) =
        (has paks pak ≡ true)
        × ((has (names_of codecs host pak) name ≡ true)
            × All
                (λ (q : List ℕ).
                  (has (names_of codecs host q) name && ltb (priority host pak) (priority host q))
                  ≡ false)
                paks)

    Highest-skip :
        (p : List ℕ) (paks : List (List ℕ)) (name : List ℕ)
        → has (names_of codecs host p) name ≡ false
        → (o : Option (List ℕ)) → Highest name paks o
        → Highest name (p ∷ paks) o
    Highest-skip p paks name q none h = (q, h)
    Highest-skip p paks name q (some pak) h =
        let listed = h.0 in (ground arith, (h.1.0, (ground arith, h.1.1)))

    owner-Highest :
        (paks : List (List ℕ)) (name : List ℕ)
        → Ordered paks
        → Highest name paks (owner codecs host paks name)
    unfolding owner
    owner-Highest [] name h = tt
    owner-Highest (p ∷ paks) name h =
        let rest = owner-Highest paks name h.1 in
        elim (Bool-cases (has (names_of codecs host p) name)) [
          | inl q ↦
              let at_p = same_bytes_self p in
              let below =
                All-map (λ (r : List ℕ). priority host r ≤ priority host p)
                  (λ (r : List ℕ).
                    (has (names_of codecs host r) name && ltb (priority host p) (priority host r))
                    ≡ false)
                  (λ r k. ground arith) (p ∷ paks) (omega arith, h.0) in
              rw q (rw at_p refl, (q, below))
          | inr q ↦ rw q (Highest-skip p paks name q (owner codecs host paks name) rest)
        ]

    -- In the index that is built, a name has an archive that is mounted and lists the name, and no
    -- archive that is mounted and lists it has a higher priority; a name that is not in the index is
    -- listed by no archive that is mounted. The index may be the one at the start or one that an
    -- earlier call has built.
    pub find-build-Highest :
        (name : List ℕ) (s : State)
        → Represents codecs host s
        → Highest name (archives host) (find name (build codecs host s).files)
    unfolding archives
    find-build-Highest name s h =
        subst (λ (o : Option (List ℕ)). Highest name (archives host) o)
          (sym (find-build codecs host name s h))
          (owner-Highest (archives host) name (archives_in-Ordered _))
