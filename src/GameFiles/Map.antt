-- ===== src/GameFiles/Map.antt =====
-- src/game_files.cpp: `std::map` with strings as keys, a list in the order of its keys.
use bg3le.Common.{
  ℕ, Bool, true, false, ◌&&◌, ◌||◌, Option, none, some, List, [], ◌∷◌, ltb, ◌==◌, if◌then◌else◌,
}
use bg3le.Pak.Read.{same_bytes}

-- `operator<` of strings, which compares bytes.
abbrev pub less : List ℕ → List ℕ → Bool
less [] [] = false
less [] (y ∷ ys) = true
less (x ∷ xs) [] = false
less (x ∷ xs) (y ∷ ys) = ltb x y || ((x == y) && less xs ys)

module _ {ℓ} {V : Type ℓ} where
  abbrev pub find : List ℕ → List (List ℕ × V) → Option V
  find key [] = none
  find key ((k, v) ∷ m) = let rest = find key m in if same_bytes k key then some v else rest

  -- Before the first key that is not less.
  abbrev pub insert : List ℕ → V → List (List ℕ × V) → List (List ℕ × V)
  insert key v [] = (key, v) ∷ []
  insert key v ((k, w) ∷ m) =
      let rest = insert key v m in if less k key then (k, w) ∷ rest else (key, v) ∷ ((k, w) ∷ m)

  -- A key that is there keeps its value.
  abbrev pub emplace : List ℕ → V → List (List ℕ × V) → List (List ℕ × V)
  emplace key v m = elim (find key m) [ none ↦ insert key v m | some w ↦ m ]

  -- The entries from `lower_bound(key)` on.
  abbrev pub lower_bound : List ℕ → List (List ℕ × V) → List (List ℕ × V)
  lower_bound key [] = []
  lower_bound key ((k, v) ∷ m) =
      let rest = lower_bound key m in if less k key then rest else (k, v) ∷ m
