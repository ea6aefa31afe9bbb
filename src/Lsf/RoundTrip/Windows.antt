-- ===== src/Lsf/RoundTrip/Windows.antt =====
-- Pieces of lists, as the fields of a document are read.
use bg3le.Common.{
  ℕ, zero, suc, ◌+◌, ◌≤◌, ◌≡◌, refl, sym, ap, ◌∙◌, List, [], ◌∷◌, ◌++◌, length, take, drop, arith,
}

module _ {ℓ} {A : Type ℓ} where
  pub window-append :
      (k n : ℕ) (x y : List A) → k + n ≤ length x → take n (drop k (x ++ y)) ≡ take n (drop k x)
  window-append zero zero x y h = refl
  window-append zero (suc n) [] y h = absurd (omega arith)
  window-append zero (suc n) (c ∷ x) y h = ap (λ t. c ∷ t) (window-append zero n x y (omega arith))
  window-append (suc k) zero [] y h = absurd (omega arith)
  window-append (suc k) n [] y h = absurd (omega arith)
  window-append (suc k) n (c ∷ x) y h = window-append k n x y (omega arith)

  pub window-take :
      (k n m : ℕ) (x : List A) → k + n ≤ m → take n (drop k (take m x)) ≡ take n (drop k x)
  window-take zero zero m x h = refl
  window-take zero (suc n) zero x h = absurd (omega arith)
  window-take zero (suc n) (suc m) [] h = refl
  window-take zero (suc n) (suc m) (c ∷ x) h =
      ap (λ t. c ∷ t) (window-take zero n m x (omega arith))
  window-take (suc k) n zero x h = absurd (omega arith)
  window-take (suc k) n (suc m) [] h = refl
  window-take (suc k) n (suc m) (c ∷ x) h = window-take k n m x (omega arith)

  drop-nil : (n : ℕ) → drop {A = A} n [] ≡ []
  drop-nil zero = refl
  drop-nil (suc n) = refl

  pub drop-drop : (j k : ℕ) (x : List A) → drop k (drop j x) ≡ drop (j + k) x
  drop-drop zero k x = ap (λ n. drop n x) (omega arith)
  drop-drop (suc j) k [] = drop-nil k ∙ sym (drop-nil (suc j + k))
  drop-drop (suc j) k (c ∷ x) =
      let moved : suc (j + k) ≡ suc j + k = omega arith in
      drop-drop j k x ∙ ap (λ n. drop n (c ∷ x)) moved
