-- ===== src/Wire/Read.antt =====
-- src/pb.h, class `Reader`.
use bg3le.Common.{
  ℕ, ◌+◌, ◌*◌, ◌/◌, ◌%◌, ◌^◌, bit_or, Option, none, some, List, [], ◌∷◌, length, take, drop, ltb,
  ◌==◌, if◌then◌else◌, ◌>>=◌,
}

-- `v |= (b & 0x7f) << shift` in 64 bits.
unfoldable pub add_group : ℕ → ℕ → ℕ → ℕ
add_group v b shift = bit_or v (b % 128 * 2 ^ shift % 2 ^ 64)

unfoldable pub read_varint_loop : List ℕ → ℕ → ℕ → Option (ℕ × List ℕ)
read_varint_loop [] v shift = none
read_varint_loop (b ∷ p) v shift =
    let v' = add_group v b shift in
    let more = read_varint_loop p v' (shift + 7) in
    if b / 128 == 0 then some (v', p) else if ltb 63 (shift + 7) then none else more

unfoldable pub read_varint : List ℕ → Option (ℕ × List ℕ)
unfolding read_varint_loop
read_varint p = read_varint_loop p 0 0

-- `field` is a 32-bit `unsigned`, and `wire` the low three bits of the key.
unfoldable pub next : List ℕ → Option (ℕ × ℕ × List ℕ)
next [] = none
next (b ∷ p) = do (k, rest) ← read_varint (b ∷ p); some (k / 8 % 2 ^ 32, k % 8, rest)

-- `read_bytes` after its length, and `read_fixed`.
unfoldable pub read_fixed : ℕ → List ℕ → Option (List ℕ × List ℕ)
read_fixed n p = if ltb (length p) n then none else some (take n p, drop n p)

unfoldable pub read_bytes : List ℕ → Option (List ℕ × List ℕ)
read_bytes p = do (len, rest) ← read_varint p; read_fixed len rest

unfoldable pub advance : ℕ → List ℕ → Option (List ℕ)
advance n p = if ltb (length p) n then none else some (drop n p)

unfoldable pub skip : ℕ → List ℕ → Option (List ℕ)
skip wire p =
    if wire == 0
    then (do (v, rest) ← read_varint p; some rest)
    else if wire == 1
    then advance 8 p
    else if wire == 2
    then (do (ignored, rest) ← read_bytes p; some rest)
    else if wire == 5
    then advance 4 p
    else none
