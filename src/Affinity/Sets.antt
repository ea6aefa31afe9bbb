-- ===== src/Affinity/Sets.antt =====
-- src/affinity.cpp: sets that are full, and sets of one cpu.
use bg3le.Common.{
  ℕ, zero, suc, ◌+◌, ◌*◌, ◌<◌, ◌≤◌, ◌≡◌, ◌≢◌, refl, sym, ap, ◌∙◌, Bool, true, false, some, [], ◌∷◌,
  length, set, replicate, length-set, length-replicate, get_or-set_self, get_or-set_ne, ◌==◌,
  ==_iff, ==-false, Bool-cases, inl, inr, subst, arith,
}
use bg3le.Affinity.Masks.{
  Mask, is_set, count_set, all_set, unrestricted, set_all, fill, first_set, single_cpu,
}
use bg3le.Affinity.Calls.{only}

is_set-replicate : (n c : ℕ) → is_set (replicate n false) c ≡ false
is_set-replicate zero c = refl
is_set-replicate (suc n) zero = refl
is_set-replicate (suc n) (suc c) = is_set-replicate n c

is_set-set : (mask : Mask) (c d : ℕ) → is_set mask d ≡ true → is_set (set mask c true) d ≡ true
is_set-set [] c d h = h
is_set-set (b ∷ mask) zero zero h = refl
is_set-set (b ∷ mask) zero (suc d) h = h
is_set-set (b ∷ mask) (suc c) zero h = h
is_set-set (b ∷ mask) (suc c) (suc d) h = is_set-set mask c d h

set_all-keeps :
    (n c : ℕ) (mask : Mask) (d : ℕ) → is_set mask d ≡ true → is_set (set_all n c mask) d ≡ true
unfolding set_all
set_all-keeps zero c mask d h = h
set_all-keeps (suc n) c mask d h =
    set_all-keeps n (c + 1) (set mask c true) d (is_set-set mask c d h)

set_all-sets :
    (n c : ℕ) (mask : Mask) (d : ℕ)
    → c ≤ d
    → d < c + n
    → d < length mask
    → is_set (set_all n c mask) d ≡ true
unfolding set_all
set_all-sets zero c mask d low high within = absurd (omega arith)
set_all-sets (suc n) c mask d low high within = elim (Bool-cases (c == d)) [
  | inl p ↦
      let here : is_set (set mask c true) d ≡ true =
        subst (λ (k : ℕ). is_set (set mask c true) k ≡ true) ((==_iff c d).0 p)
          (get_or-set_self mask c true false (omega (arith, (==_iff c d).0 p))) in
      set_all-keeps n (c + 1) (set mask c true) d here
  | inr p ↦
      let apart : c ≢ d = ==-false c d p in
      set_all-sets n (c + 1) (set mask c true) d (ground arith) (omega arith)
        (omega (arith, length-set mask c true))
]

pub fill-sets : (n size c : ℕ) → c < n → c < 8 * size → is_set (fill n size) c ≡ true
unfolding fill
fill-sets n size c few within =
    set_all-sets n 0 (replicate (8 * size) false) c (omega arith) (omega arith)
      (omega (arith, length-replicate {A = Bool} (8 * size) false))

all_set_lem :
    (n i : ℕ) (mask : Mask) (d : ℕ)
    → all_set n i mask ≡ true
    → i ≤ d
    → d < i + n
    → is_set mask d ≡ true
unfolding all_set
all_set_lem zero i mask d h low high = absurd (omega arith)
all_set_lem (suc n) i mask d h low high = elim (Bool-cases (is_set mask i)) [
  | inr p ↦ let wrong : false ≡ true = rw p at h in cc
  | inl p ↦ elim (Bool-cases (i == d)) [
    | inl q ↦ subst (λ (k : ℕ). is_set mask k ≡ true) ((==_iff i d).0 q) p
    | inr q ↦
        let apart : i ≢ d = ==-false i d q in
        all_set_lem n (i + 1) mask d (rw p at h) (ground arith) (omega arith)
  ]
]

module _ (bits c : ℕ) (within : c < bits) where
  is_set-only : (d : ℕ) → c ≢ d → is_set (only bits c) d ≡ false
  is_set-only d h = get_or-set_ne (replicate bits false) c d true false h ∙ is_set-replicate bits d

  is_set-only_self : is_set (only bits c) c ≡ true
  is_set-only_self =
      get_or-set_self (replicate bits false) c true false
        (omega (arith, length-replicate {A = Bool} bits false))

  first_set-only : (n i : ℕ) → i ≤ c → c < i + n → first_set n i (only bits c) ≡ some c
  unfolding first_set
  first_set-only zero i low high = absurd (omega arith)
  first_set-only (suc n) i low high = elim (Bool-cases (c == i)) [
    | inl p ↦
        let here : is_set (only bits c) i ≡ true =
          subst (λ (k : ℕ). is_set (only bits c) k ≡ true) ((==_iff c i).0 p) is_set-only_self in
        rw here (ap (λ (k : ℕ). some k) (sym ((==_iff c i).0 p)))
    | inr p ↦
        let apart : c ≢ i = ==-false c i p in
        rw (is_set-only i apart) (first_set-only n (i + 1) (ground arith) (omega arith))
  ]

  pub unrestricted-only : (n : ℕ) → 2 ≤ n → unrestricted n (only bits c) ≡ false
  unfolding unrestricted
  unrestricted-only n several = elim (Bool-cases (all_set n 0 (only bits c))) [
    | inr p ↦ p
    | inl p ↦ elim (Bool-cases (c == 0)) [
      | inl q ↦
          let zero_one : c ≢ 1 = λ e. omega (arith, (==_iff c 0).0 q) in
          let on = all_set_lem n 0 (only bits c) 1 p (omega arith) (omega arith) in
          let off = is_set-only 1 zero_one in let wrong : false ≡ true = sym off ∙ on in cc
      | inr q ↦
          let on = all_set_lem n 0 (only bits c) 0 p (omega arith) (omega arith) in
          let off = is_set-only 0 (==-false c 0 q) in let wrong : false ≡ true = sym off ∙ on in cc
    ]
  ]

count_set-replicate : (n : ℕ) → count_set (replicate n false) ≡ 0
count_set-replicate zero = refl
count_set-replicate (suc n) = omega (arith, count_set-replicate n)

count_set-only : (n c : ℕ) → c < n → count_set (only n c) ≡ 1
count_set-only zero c h = absurd (omega arith)
count_set-only (suc n) zero h = omega (arith, count_set-replicate n)
count_set-only (suc n) (suc c) h = omega (arith, count_set-only n c (omega arith))

pub single_cpu-only : (n bits c : ℕ) → c < bits → c < n → single_cpu n (only bits c) ≡ some c
unfolding single_cpu
single_cpu-only n bits c within known =
    rw (count_set-only bits c within) (first_set-only bits c within n 0 (omega arith) (omega arith))
