-- ===== src/PakFix/PartNames.antt =====
-- src/pak_fix.cpp: that the path of a part leads back to its archive.
use bg3le.Common.{
  ℕ, zero, suc, ◌+◌, ◌-◌, ◌*◌, ◌/◌, ◌^◌, ◌%◌, ◌<◌, ◌≤◌, ◌≡◌, refl, sym, ap, ◌∙◌, true, false, none,
  some, List, [], ◌∷◌, ◌++◌, length, length-append, append_assoc, take-append, drop-append, All,
  take, drop, leb, ◌==◌, Bool-cases, inl, inr, subst, arith,
}
use native.Mathlib.Nat.{mod-lt, div-add-mod}
use bg3le.Pak.Read.{same_bytes}
use bg3le.Pak.Kept.{same_bytes-true, same_bytes_self}
use bg3le.Pak.Cache.{decimal}
use bg3le.PakFix.Names.{part_path}
use bg3le.PakFix.State.{range}
use bg3le.PakFix.Parts.{rfind, pak, all_digits, archive_of_part}

rfind-append : (c : ℕ) (a b : List ℕ) → rfind c b ≡ none → rfind c (a ++ (c ∷ b)) ≡ some (length a)
rfind-append c [] b h = rw h (let same : (c == c) ≡ true = ground arith in rw same refl)
rfind-append c (d ∷ a) b h = rw (rfind-append c a b h) refl

abbrev IsDigit : ℕ → Type 0
IsDigit c = (48 ≤ c) × (c < 58)

rfind-digits : (s t : List ℕ) → All IsDigit s → rfind b'_' t ≡ none → rfind b'_' (s ++ t) ≡ none
rfind-digits [] t h k = k
rfind-digits (c ∷ s) t h k =
    let rest = rfind-digits s t h.1 k in
    let apart : (c == 95) ≡ false = let low = h.0.1 in ground arith in rw (rest, apart) refl

decimal-IsDigit :
    (fuel n : ℕ) (digits : List ℕ) → All IsDigit digits → All IsDigit (decimal fuel n digits)
unfolding decimal
decimal-IsDigit zero n digits h = h
decimal-IsDigit (suc fuel) n digits h =
    let low : n % 10 < 10 = mod-lt n (omega arith) in
    let here : All IsDigit ((b'0' + n % 10) ∷ digits) = ((omega arith, omega (arith, low)), h) in
    let more = decimal-IsDigit fuel (n / 10) ((b'0' + n % 10) ∷ digits) here in
    elim (Bool-cases (n / 10 == 0)) [ inl p ↦ rw p here | inr p ↦ rw p more ]

decimal-grows : (fuel n : ℕ) (digits : List ℕ) → length digits ≤ length (decimal fuel n digits)
unfolding decimal
decimal-grows zero n digits = omega arith
decimal-grows (suc fuel) n digits =
    let more = decimal-grows fuel (n / 10) ((b'0' + n % 10) ∷ digits) in
    elim (Bool-cases (n / 10 == 0)) [
      | inl p ↦ rw p (omega arith)
      | inr p ↦ rw p (omega (arith, more))
    ]

decimal-some : (fuel n : ℕ) → 0 < length (decimal (suc fuel) n [])
unfolding decimal
decimal-some fuel n =
    let more = decimal-grows fuel (n / 10) ((b'0' + n % 10) ∷ []) in
    elim (Bool-cases (n / 10 == 0)) [
      | inl p ↦ rw p (omega arith)
      | inr p ↦ rw p (omega (arith, more))
    ]

all_digits-true : (s : List ℕ) → All IsDigit s → all_digits s ≡ true
all_digits-true [] h = refl
all_digits-true (c ∷ s) h =
    let rest = all_digits-true s h.1 in let low = h.0.0 in let high = h.0.1 in ground arith

module _ (stem : List ℕ) (n : ℕ) where
  -- The parts of the path: its name is the archive's, and its digits stand behind the last `_`.
  part_path_lem :
      (take (length stem) (part_path (stem ++ pak) n) ≡ stem)
      × ((rfind b'_' (part_path (stem ++ pak) n) ≡ some (length stem))
          × ((leb (length (part_path (stem ++ pak) n) - 4) (length stem + 1) ≡ false)
              × (range
                    (part_path (stem ++ pak) n)
                    (length stem + 1)
                    (length (part_path (stem ++ pak) n) - 4)
                  ≡ decimal 10 n [])))
  unfolding part_path
  part_path_lem =
      let digits = decimal 10 n [] in
      let are : All IsDigit digits = decimal-IsDigit 10 n [] tt in
      let some_digit = decimal-some 9 n in
      let path = stem ++ (b'_' ∷ (digits ++ pak)) in
      let short : take (length (stem ++ pak) - 4) (stem ++ pak) ≡ stem =
        take-append stem pak (length (stem ++ pak) - 4) (omega (arith, length-append stem pak)) in
      let size : length path ≡ length stem + (1 + (length digits + 4)) =
        omega (arith, length-append stem (b'_' ∷ (digits ++ pak)), length-append digits pak) in
      let behind : drop (length stem + 1) path ≡ digits ++ pak =
        ap (drop (length stem + 1)) (sym (append_assoc stem (b'_' ∷ []) (digits ++ pak)))
        ∙ drop-append (stem ++ (b'_' ∷ [])) (digits ++ pak) (length stem + 1)
            (omega (arith, length-append stem (b'_' ∷ []))) in
      let between : range path (length stem + 1) (length path - 4) ≡ digits =
        ap (take ((length path - 4) - (length stem + 1))) behind
        ∙ take-append digits pak ((length path - 4) - (length stem + 1)) (omega (arith, size)) in
      rw short (
        take-append stem (b'_' ∷ (digits ++ pak)) (length stem) refl,
        (
          rfind-append b'_' stem (digits ++ pak) (rfind-digits digits pak are refl),
          (ground arith, between),
        ),
      )

  archive_of_part-part : archive_of_part (part_path (stem ++ pak) n) ≡ some (stem ++ pak)
  unfolding archive_of_part
  archive_of_part-part =
      let (before, (under, (long, between))) = part_path_lem in
      let valid =
        ap all_digits between ∙ all_digits-true (decimal 10 n []) (decimal-IsDigit 10 n [] tt) in
      rw (under, long, valid, before) refl

-- The number that digits stand for, behind those that are read.
value : List ℕ → ℕ → ℕ
value [] read = read
value (c ∷ s) read = value s (read * 10 + (c - 48))

value-decimal :
    (fuel n : ℕ) (digits : List ℕ)
    → n < 10 ^ fuel
    → value (decimal fuel n digits) 0 ≡ value digits n
unfolding decimal value
value-decimal zero n digits h = ap (value digits) (omega (arith, h))
value-decimal (suc fuel) n digits h =
    let parts = div-add-mod n 10 in
    let more = value-decimal fuel (n / 10) ((b'0' + n % 10) ∷ digits) (omega (arith, h, parts)) in
    elim (Bool-cases (n / 10 == 0)) [
      | inl p ↦ rw p (ap (value digits) (ground arith))
      | inr p ↦ rw p (more ∙ ap (value digits) (omega (arith, parts)))
    ]

decimal-injective : (n m : ℕ) → n < 2 ^ 32 → m < 2 ^ 32 → decimal 10 n [] ≡ decimal 10 m [] → n ≡ m
unfolding value
decimal-injective n m h k e =
    sym (value-decimal 10 n [] (omega (arith, h)))
    ∙ (ap (λ (s : List ℕ). value s 0) e ∙ value-decimal 10 m [] (omega (arith, k)))

-- Whatever the name of an archive before its `.pak` and whatever the numbers of two parts, of 32
-- bits and 0 included, the path of the first leads `archive_of_part` back to the archive, and it is
-- the path of the second just when the numbers are equal.
pub archive_of_part-part_path :
    (stem : List ℕ) (n m : ℕ)
    → n < 2 ^ 32
    → m < 2 ^ 32
    → (archive_of_part (part_path (stem ++ pak) n) ≡ some (stem ++ pak))
      × (same_bytes (part_path (stem ++ pak) n) (part_path (stem ++ pak) m) ≡ (n == m))
archive_of_part-part_path stem n m h k = (
  archive_of_part-part stem n,
  elim (Bool-cases (n == m)) [
    | inl p ↦
        let same : n ≡ m = ground arith in
        rw p (
          subst
            (λ (x : ℕ). same_bytes (part_path (stem ++ pak) n) (part_path (stem ++ pak) x) ≡ true)
            same (same_bytes_self (part_path (stem ++ pak) n)))
    | inr p ↦
        rw p
          (elim (Bool-cases (same_bytes (part_path (stem ++ pak) n) (part_path (stem ++ pak) m))) [
            | inl q ↦
                let paths =
                  same_bytes-true (part_path (stem ++ pak) n) (part_path (stem ++ pak) m) q in
                let digits =
                  sym (part_path_lem stem n).1.1.1
                  ∙ (ap (λ (x : List ℕ). range x (length stem + 1) (length x - 4)) paths
                      ∙ (part_path_lem stem m).1.1.1) in
                let same = decimal-injective n m h k digits in ground arith
            | inr q ↦ q
          ])
  ],
)
