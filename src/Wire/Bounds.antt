-- ===== src/Wire/Bounds.antt =====
-- src/pb.h: every read leaves a suffix, so a loop over a `Reader` ends; and what is read fits.
use bg3le.Common.{
  ℕ, ◌+◌, ◌*◌, ◌%◌, ◌^◌, ◌<◌, ◌≤◌, ◌≡◌, arith, some, List, [], ◌∷◌, length, length-drop,
  length-take, ◌>>=◌, >>=-eq-some,
}
use bg3le.Common.Bits.{bit_or-lt}
use bg3le.Wire.Write.{IsU64}
use bg3le.Wire.Read.{
  add_group, read_varint_loop, read_varint, next, read_fixed, read_bytes, advance, skip,
}

add_group-IsU64 : (v b s : ℕ) → IsU64 v → IsU64 (add_group v b s)
unfolding add_group
add_group-IsU64 v b s h = bit_or-lt 64 v (b % 128 * 2 ^ s % 2 ^ 64) h (omega arith)

read_varint_loop_bounds :
    (p : List ℕ) (acc s v : ℕ) (rest : List ℕ)
    → IsU64 acc
    → read_varint_loop p acc s ≡ some (v, rest)
    → IsU64 v × (length rest < length p)
unfolding read_varint_loop
read_varint_loop_bounds [] acc s v rest h e = cc
read_varint_loop_bounds (b ∷ p) acc s v rest h e = ground (
  arith,
  add_group-IsU64 acc b s h,
  read_varint_loop_bounds p (add_group acc b s) (s + 7) v rest (add_group-IsU64 acc b s h),
)

-- A varint that is read, from any bytes, fits in 64 bits, and takes at least one byte.
pub read_varint_bounds :
    (p : List ℕ) (v : ℕ) (rest : List ℕ)
    → read_varint p ≡ some (v, rest)
    → IsU64 v × (length rest < length p)
unfolding read_varint
read_varint_bounds p v rest e = read_varint_loop_bounds p 0 0 v rest (omega arith) e

-- A key takes at least one byte.
pub next_bounds :
    (p : List ℕ) (field wire : ℕ) (rest : List ℕ)
    → next p ≡ some (field, wire, rest)
    → (field < 2 ^ 32) × (wire < 8) × (length rest < length p)
unfolding next
next_bounds [] field wire rest e = cc
next_bounds (b ∷ p) field wire rest e =
    let ((k, r), got, out) = >>=-eq-some (read_varint (b ∷ p)) _ e in
    ground (arith, read_varint_bounds (b ∷ p) k r got)

pub length-read_fixed :
    (n : ℕ) (p s rest : List ℕ)
    → read_fixed n p ≡ some (s, rest)
    → (length s ≡ n) × (length p ≡ n + length rest)
unfolding read_fixed
length-read_fixed n p s rest e = ground (arith, length-drop n p, length-take n p)

-- A byte string that is read lies inside the input.
pub length-read_bytes :
    (p s rest : List ℕ) → read_bytes p ≡ some (s, rest) → length s + length rest < length p
unfolding read_bytes
length-read_bytes p s rest e =
    let ((n, r), got, out) = >>=-eq-some (read_varint p) _ e in
    omega (arith, read_varint_bounds p n r got, length-read_fixed n r s rest out)

length-advance : (n : ℕ) (p rest : List ℕ) → advance n p ≡ some rest → length rest ≤ length p
unfolding advance
length-advance n p rest e = ground (arith, length-drop n p)

skip_varint :
    (p rest : List ℕ) → (do (v, r) ← read_varint p; some r) ≡ some rest → length rest ≤ length p
skip_varint p rest e =
    let ((v, r), got, out) = >>=-eq-some (read_varint p) _ e in
    ground (arith, read_varint_bounds p v r got)

skip_bytes :
    (p rest : List ℕ) → (do (v, r) ← read_bytes p; some r) ≡ some rest → length rest ≤ length p
skip_bytes p rest e =
    let ((s, r), got, out) = >>=-eq-some (read_bytes p) _ e in
    ground (arith, length-read_bytes p s r got)

-- Skipping a field never moves back.
pub length-skip : (wire : ℕ) (p rest : List ℕ) → skip wire p ≡ some rest → length rest ≤ length p
unfolding skip
length-skip wire p rest e =
    ground (
      arith,
      skip_varint p rest,
      skip_bytes p rest,
      length-advance 8 p rest,
      length-advance 4 p rest,
    )
