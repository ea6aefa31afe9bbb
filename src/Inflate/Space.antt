-- ===== src/Inflate/Space.antt =====
-- src/inflate.cpp: what a match writes. The run may overlap the bytes that it copies.
use bg3le.Common.{
  ℕ, zero, suc, ◌+◌, ◌-◌, ◌<◌, ◌≤◌, ◌≡◌, refl, sym, ap, ◌∙◌, arith, List, [], ◌∷◌, ◌++◌, length,
  length-append, get_or, inl, inr, Bool-cases, ltb, ltb→lt, ltb-false,
}
use bg3le.Inflate.Codes.{copy}
use bg3le.Inflate.Advance.{length-copy}

get_or-append_left :
    (xs ys : List ℕ) (i d : ℕ) → i < length xs → get_or (xs ++ ys) i d ≡ get_or xs i d
get_or-append_left [] ys i d h = elim h [ ]
get_or-append_left (x ∷ xs) ys zero d h = refl
get_or-append_left (x ∷ xs) ys (suc i) d h = get_or-append_left xs ys i d (omega arith)

get_or-append_end : (xs : List ℕ) (y i d : ℕ) → i ≡ length xs → get_or (xs ++ y ∷ []) i d ≡ y
get_or-append_end [] y zero d h = refl
get_or-append_end [] y (suc i) d h = absurd (omega arith)
get_or-append_end (x ∷ xs) y zero d h = absurd (omega arith)
get_or-append_end (x ∷ xs) y (suc i) d h = get_or-append_end xs y i d (omega arith)

copy-keeps :
    (n distance : ℕ) (out : List ℕ) (i : ℕ)
    → i < length out
    → get_or (copy n distance out) i 0 ≡ get_or out i 0
unfolding copy
copy-keeps zero distance out i h = refl
copy-keeps (suc n) distance out i h =
    let b : List ℕ = get_or out (length out - distance) 0 ∷ [] in
    copy-keeps n distance (out ++ b) i (omega (arith, length-append out b))
    ∙ get_or-append_left out b i 0 h

copy_period :
    (n distance : ℕ) (out : List ℕ) (i : ℕ)
    → 0 < distance
    → distance ≤ length out
    → length out ≤ i
    → i < length out + n
    → get_or (copy n distance out) i 0 ≡ get_or (copy n distance out) (i - distance) 0
unfolding copy
copy_period zero distance out i p d lo hi = absurd (omega arith)
copy_period (suc n) distance out i p d lo hi =
    let v = get_or out (length out - distance) 0 in
    let b : List ℕ = v ∷ [] in
    let longer = length-append out b in
    elim (Bool-cases (ltb (length out) i)) [
      | inl q ↦
          copy_period n distance (out ++ b) i p (omega (arith, longer))
            (omega (arith, longer, ltb→lt (length out) i q)) (omega (arith, longer))
      | inr q ↦
          let here : i ≡ length out = omega (arith, ltb-false (length out) i q) in
          copy-keeps n distance (out ++ b) i (omega (arith, longer))
          ∙ get_or-append_end out v i 0 here
          ∙ ap (λ t. get_or out (t - distance) 0) (sym here)
          ∙ sym (get_or-append_left out b (i - distance) 0 (omega arith))
          ∙ sym (copy-keeps n distance (out ++ b) (i - distance) (omega (arith, longer)))
    ]

-- A match of `n` bytes at a distance of at least 1 inside the output keeps what was written, grows
-- it by `n`, and makes each new byte equal to the one `distance` before it in the result.
pub copy_lem :
    (n distance : ℕ) (out : List ℕ)
    → 0 < distance
    → distance ≤ length out
    → (length (copy n distance out) ≡ length out + n)
      × ((i : ℕ) → i < length out → get_or (copy n distance out) i 0 ≡ get_or out i 0)
      × ((i : ℕ)
          → length out ≤ i
          → i < length out + n
          → get_or (copy n distance out) i 0 ≡ get_or (copy n distance out) (i - distance) 0)
copy_lem n distance out p d =
    (length-copy n distance out, copy-keeps n distance out, λ i. copy_period n distance out i p d)
