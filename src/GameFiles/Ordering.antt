-- ===== src/GameFiles/Ordering.antt =====
-- src/game_files.cpp: the order of strings.
use bg3le.Common.{ℕ, ◌≡◌, refl, true, false, List, [], ◌∷◌, arith}
use bg3le.Pak.Read.{same_bytes}
use bg3le.Pak.Cache.{starts_with}
use bg3le.GameFiles.Map.{less}

pub less_trans : (a b c : List ℕ) → less a b ≡ true → less b c ≡ true → less a c ≡ true
less_trans [] [] c h k = cc
less_trans [] (y ∷ b) [] h k = cc
less_trans [] (y ∷ b) (z ∷ c) h k = refl
less_trans (x ∷ a) [] c h k = cc
less_trans (x ∷ a) (y ∷ b) [] h k = cc
less_trans (x ∷ a) (y ∷ b) (z ∷ c) h k =
    let rest : less a b ≡ true → less b c ≡ true → less a c ≡ true = less_trans a b c in
    ground arith

pub less_total : (a b : List ℕ) → less a b ≡ false → same_bytes a b ≡ false → less b a ≡ true
less_total [] [] h k = cc
less_total [] (y ∷ b) h k = cc
less_total (x ∷ a) [] h k = refl
less_total (x ∷ a) (y ∷ b) h k =
    let rest : less a b ≡ false → same_bytes a b ≡ false → less b a ≡ true = less_total a b in
    ground arith

pub starts_with-less :
    (prefix k name : List ℕ)
    → less k prefix ≡ false
    → less k name ≡ true
    → starts_with prefix name ≡ true
    → starts_with prefix k ≡ true
starts_with-less [] k name h l s = refl
starts_with-less (c ∷ prefix) [] name h l s = cc
starts_with-less (c ∷ prefix) (x ∷ k) [] h l s = cc
starts_with-less (c ∷ prefix) (x ∷ k) (d ∷ name) h l s =
    let rest : less k prefix ≡ false
        → less k name ≡ true
        → starts_with prefix name ≡ true
        → starts_with prefix k ≡ true =
      starts_with-less prefix k name in
    ground arith

pub less-starts_with : (prefix k : List ℕ) → less k prefix ≡ true → starts_with prefix k ≡ false
less-starts_with [] [] h = cc
less-starts_with [] (x ∷ k) h = cc
less-starts_with (c ∷ prefix) [] h = refl
less-starts_with (c ∷ prefix) (x ∷ k) h =
    let rest : less k prefix ≡ true → starts_with prefix k ≡ false = less-starts_with prefix k in
    ground arith
