-- ===== src/FastAlloc/Classes.antt =====
-- src/fast_alloc.cpp: the size classes.
use bg3le.Common.{
  ℕ, zero, suc, ◌+◌, ◌*◌, ◌%◌, ◌^◌, ◌<◌, ◌≤◌, ◌≡◌, refl, ap, arith, ltb, leb, ltb→lt, ltb-false,
  leb→le, leb-false, Bool-cases, inl, inr, ◌⊎◌,
}
use bg3le.FastAlloc.Pool.{class_loop, class_of, bytes_of}
use native.Mathlib.Numerals.{towards_suc}

-- What the loop ends with: a class and its size, which is enough unless it is the last class, and
-- which is less than twice what is needed unless the loop did not move.
record LeastClass (need from : ℕ) (r : ℕ × ℕ) : Type 0 where
  size : r.1 ≡ 16 * 2 ^ r.0
  known : r.0 < 14
  enough : (need ≤ r.1) ⊎ (r.0 ≡ 13)
  tight : (r.0 ≡ from) ⊎ (r.1 < 2 * need)

doubled : (c : ℕ) → 16 * 2 ^ (c + 1) ≡ 16 * 2 ^ c * 2
doubled c = simp towards_suc (omega arith)

tighter :
    (need cls : ℕ) (r : ℕ × ℕ)
    → 16 * 2 ^ cls < need
    → r.1 ≡ 16 * 2 ^ r.0
    → (r.0 ≡ cls + 1) ⊎ (r.1 < 2 * need)
    → (r.0 ≡ cls) ⊎ (r.1 < 2 * need)
tighter need cls r h e (inl p) = inr (omega (arith, doubled cls, ap (λ (t : ℕ). 2 ^ t) p))
tighter need cls r h e (inr p) = inr p

class_loop_lem :
    (n need cls cap : ℕ)
    → cap ≡ 16 * 2 ^ cls
    → cls < 14
    → 14 ≤ cls + n
    → LeastClass need cls (class_loop n need cls cap)
unfolding class_loop
class_loop_lem zero need cls cap e h f = absurd (omega arith)
class_loop_lem (suc n) need cls cap e h f = elim (Bool-cases (ltb cap need)) [
  | inr p ↦
      rw p (record { size = e; known = h; enough = inl (ltb-false cap need p); tight = inl refl })
  | inl p ↦ elim (Bool-cases (ltb (cls + 1) 14)) [
    | inr q ↦
        rw (p, q)
          (record {
            size = e;
            known = h;
            enough = inr (omega (arith, ltb-false (cls + 1) 14 q));
            tight = inl refl;
          })
    | inl q ↦
        let rec =
          class_loop_lem n need (cls + 1) (cap * 2) (omega (arith, doubled cls))
            (ltb→lt (cls + 1) 14 q) (omega arith) in
        rw (p, q)
          (record {
            size = rec.size;
            known = rec.known;
            enough = rec.enough;
            tight = tighter need cls _ (omega (arith, ltb→lt cap need p)) rec.size rec.tight;
          })
  ]
]

tight_size : (need : ℕ) (r : ℕ × ℕ) → LeastClass need 0 r → (r.0 ≡ 0) ⊎ (16 * 2 ^ r.0 < 2 * need)
tight_size need r l = go l.tight
  where
    go : (r.0 ≡ 0) ⊎ (r.1 < 2 * need) → (r.0 ≡ 0) ⊎ (16 * 2 ^ r.0 < 2 * need)
    go (inl p) = inl p
    go (inr p) = inr (omega (arith, l.size))

too_large : (need : ℕ) (r : ℕ × ℕ) → LeastClass need 0 r → r.1 < need → 2 ^ 17 < need
too_large need r l h = go l.enough
  where
    go : (need ≤ r.1) ⊎ (r.0 ≡ 13) → 2 ^ 17 < need
    go (inl p) = absurd (omega arith)
    go (inr p) = omega (arith, l.size, ap (λ (t : ℕ). 2 ^ t) p)

-- A request of which the size with the 16-byte header fits in 64 bits either gets a class of the
-- table whose blocks hold it with its header, and of which the blocks are less than twice as large
-- unless it is the smallest class, or it needs more than the 128 KB of the largest class and gets
-- none.
pub class_of_lem :
    (size : ℕ)
    → size + 16 < 2 ^ 64
    → ((class_of size < 14)
        × (size + 16 ≤ bytes_of (class_of size))
        × ((class_of size ≡ 0) ⊎ (bytes_of (class_of size) < 2 * (size + 16))))
      ⊎ ((class_of size ≡ 14) × (2 ^ 17 < size + 16))
unfolding class_of bytes_of
class_of_lem size h =
    let need = size + 16 in
    let no_wrap : (size + 16) % 2 ^ 64 ≡ size + 16 = omega arith in
    let r = class_loop 14 need 0 16 in
    let l : LeastClass need 0 r = class_loop_lem 14 need 0 16 refl (omega arith) (omega arith) in
    rw no_wrap (elim (Bool-cases (leb need r.1)) [
      | inl p ↦ rw p (inl (l.known, omega (arith, l.size, leb→le need r.1 p), tight_size need r l))
      | inr p ↦ rw p (inr (refl, too_large need r l (leb-false need r.1 p)))
    ])
