-- ===== src/GameFiles/Prefix.antt =====
-- src/game_files.cpp: the names that `game_files_under` returns.
use bg3le.Common.{
  ℕ, ◌≡◌, refl, sym, ◌∙◌, ap, true, false, ◌&&◌, Option, none, some, List, [], ◌∷◌, All, Bool-cases,
  Option-cases, inl, inr, subst,
}
use bg3le.Pak.Format.{Codecs}
use bg3le.Pak.Read.{same_bytes}
use bg3le.Pak.Cache.{starts_with}
use bg3le.Pak.Kept.{same_bytes-true}
use bg3le.GameFiles.Map.{less, find, insert, emplace, lower_bound}
use bg3le.GameFiles.Host.{Host, archives}
use bg3le.GameFiles.Index.{State, add_names, starting, game_files_under}
use bg3le.GameFiles.Lookup.{has}
use bg3le.GameFiles.Refinement.{
  names_of, is_some, owner, indexed, Represents, find-indexed, build_lem,
}
use bg3le.GameFiles.Ordering.{less_trans, less_total, starts_with-less, less-starts_with}

abbrev Files : Type 0
Files = List (List ℕ × List ℕ)

-- The keys of a map are in order, and behind a key.
abbrev Behind : List ℕ → Files → Type 0
Behind k m = All (λ (e : List ℕ × List ℕ). less k e.0 ≡ true) m

abbrev IsSorted : Files → Type 0
IsSorted [] = Unit
IsSorted ((k, v) ∷ m) = Behind k m × IsSorted m

Behind-less : (k l : List ℕ) (m : Files) → less k l ≡ true → Behind l m → Behind k m
Behind-less k l [] h b = tt
Behind-less k l (e ∷ m) h b = (less_trans k l e.0 h b.0, Behind-less k l m h b.1)

insert-Behind :
    (k key v : List ℕ) (m : Files) → less k key ≡ true → Behind k m → Behind k (insert key v m)
insert-Behind k key v [] h b = (h, tt)
insert-Behind k key v ((l, w) ∷ m) h b = elim (Bool-cases (less l key)) [
  | inl p ↦ rw p (b.0, insert-Behind k key v m h b.1)
  | inr p ↦ rw p (h, b)
]

insert-IsSorted :
    (key v : List ℕ) (m : Files) → find key m ≡ none → IsSorted m → IsSorted (insert key v m)
insert-IsSorted key v [] h s = (tt, tt)
insert-IsSorted key v ((k, w) ∷ m) h s = elim (Bool-cases (same_bytes k key)) [
  | inl p ↦ let wrong : some w ≡ none = rw p at h in cc
  | inr p ↦ elim (Bool-cases (less k key)) [
    | inl q ↦ rw q (insert-Behind k key v m q s.0, insert-IsSorted key v m (rw p at h) s.1)
    | inr q ↦ let over = less_total k key q p in rw q ((over, Behind-less key k m over s.0), s)
  ]
]

emplace-IsSorted : (key v : List ℕ) (m : Files) → IsSorted m → IsSorted (emplace key v m)
emplace-IsSorted key v m s = elim (Option-cases (find key m)) [
  | inr (w, e) ↦ rw (emplace, e) s
  | inl e ↦ rw (emplace, e) (insert-IsSorted key v m e s)
]

add_names-IsSorted :
    (pak : List ℕ) (names : List (List ℕ)) (m : Files)
    → IsSorted m
    → IsSorted (add_names pak names m)
unfolding add_names
add_names-IsSorted pak [] m s = s
add_names-IsSorted pak (name ∷ names) m s =
    add_names-IsSorted pak names (emplace name pak m) (emplace-IsSorted name pak m s)

find-Behind :
    (k name : List ℕ) (m : Files) → Behind k m → is_some (find name m) ≡ true → less k name ≡ true
find-Behind k name [] b h = cc
find-Behind k name ((l, v) ∷ m) b h = elim (Bool-cases (same_bytes l name)) [
  | inl p ↦ subst (λ (x : List ℕ). less k x ≡ true) (same_bytes-true l name p) b.0
  | inr p ↦ find-Behind k name m b.1 (rw p at h)
]

-- No key of the map is below the prefix.
abbrev Above : List ℕ → Files → Type 0
Above prefix m = All (λ (e : List ℕ × List ℕ). less e.0 prefix ≡ false) m

Behind-Above : (k prefix : List ℕ) (m : Files) → less k prefix ≡ false → Behind k m → Above prefix m
Behind-Above k prefix [] h b = tt
Behind-Above k prefix ((l, v) ∷ m) h b = (
  (elim (Bool-cases (less l prefix)) [
    | inr p ↦ p
    | inl p ↦ let wrong : true ≡ false = sym (less_trans k l prefix b.0 p) ∙ h in cc
  ]),
  Behind-Above k prefix m h b.1,
)

starting-none :
    (prefix k v name : List ℕ) (m : Files)
    → less k prefix ≡ false
    → Behind k m
    → starts_with prefix k ≡ false
    → (starts_with prefix name && is_some (find name ((k, v) ∷ m))) ≡ false
starting-none prefix k v name m h b s = elim (Bool-cases (starts_with prefix name)) [
  | inr p ↦ rw p refl
  | inl p ↦ elim (Bool-cases (same_bytes k name)) [
    | inl q ↦
        let same =
          subst (λ (x : List ℕ). starts_with prefix x ≡ false) (same_bytes-true k name q) s in
        let wrong : true ≡ false = sym p ∙ same in cc
    | inr q ↦ elim (Bool-cases (is_some (find name m))) [
      | inr r ↦ rw (p, q) r
      | inl r ↦
          let after = find-Behind k name m b r in
          let wrong : true ≡ false = sym (starts_with-less prefix k name h after p) ∙ s in cc
    ]
  ]
]

has-starting :
    (prefix name : List ℕ) (m : Files)
    → IsSorted m
    → Above prefix m
    → has (starting prefix m) name ≡ (starts_with prefix name && is_some (find name m))
has-starting prefix name [] s a = elim (Bool-cases (starts_with prefix name)) [
  | inl p ↦ rw p refl
  | inr p ↦ rw p refl
]
has-starting prefix name ((k, v) ∷ m) s a = elim (Bool-cases (starts_with prefix k)) [
  | inr p ↦ rw p (sym (starting-none prefix k v name m a.0 s.0 p))
  | inl p ↦ elim (Bool-cases (same_bytes k name)) [
    | inl q ↦
        let same =
          subst (λ (x : List ℕ). starts_with prefix x ≡ true) (same_bytes-true k name q) p in
        rw (p, q, same) refl
    | inr q ↦ rw (p, q) (has-starting prefix name m s.1 a.1)
  ]
]

has-starting_from :
    (prefix name : List ℕ) (m : Files)
    → IsSorted m
    → has (starting prefix (lower_bound prefix m)) name
      ≡ (starts_with prefix name && is_some (find name m))
has-starting_from prefix name [] s = has-starting prefix name [] s tt
has-starting_from prefix name ((k, v) ∷ m) s = elim (Bool-cases (less k prefix)) [
  | inr p ↦ rw p (has-starting prefix name ((k, v) ∷ m) s (p, Behind-Above k prefix m p s.0))
  | inl p ↦
      let rest = has-starting_from prefix name m s.1 in
      elim (Bool-cases (same_bytes k name)) [
        | inr q ↦ rw (p, q) rest
        | inl q ↦
            let off : starts_with prefix name ≡ false =
              subst (λ (x : List ℕ). starts_with prefix x ≡ false) (same_bytes-true k name q)
                (less-starts_with prefix k p) in
            let rest' : has (starting prefix (lower_bound prefix m)) name ≡ false =
              rw off at rest in
            rw (p, q, off) rest'
      ]
]

module _ (codecs : Codecs) (host : Host) where
  indexed-IsSorted :
      (paks : List (List ℕ)) (m : Files) → IsSorted m → IsSorted (indexed codecs host paks m)
  unfolding indexed
  indexed-IsSorted [] m s = s
  indexed-IsSorted (pak ∷ paks) m s =
      indexed-IsSorted paks _ (add_names-IsSorted pak (names_of codecs host pak) m s)

  -- From a state whose kept lists are those on disk and whose index is empty or complete,
  -- `game_files_under` returns a name exactly if it starts with the prefix and one of the archives
  -- has a file with that name.
  pub game_files_under_lem :
      (prefix name : List ℕ) (s : State)
      → Represents codecs host s
      → has (game_files_under codecs host prefix s).0 name
        ≡ (starts_with prefix name && is_some (owner codecs host (archives host) name))
  unfolding game_files_under
  game_files_under_lem prefix name s h =
      let whole = indexed codecs host (archives host) [] in
      ap (λ (m : Files). has (starting prefix (lower_bound prefix m)) name)
        (build_lem codecs host s h).1
      ∙ (has-starting_from prefix name whole (indexed-IsSorted (archives host) [] tt)
          ∙ ap (λ (o : Option (List ℕ)). starts_with prefix name && is_some o)
              (find-indexed codecs host (archives host) name []))
