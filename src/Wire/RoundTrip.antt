-- ===== src/Wire/RoundTrip.antt =====
-- src/pb.h: what the writers write, the `Reader` reads back, whatever follows it.
use bg3le.Common.{
  ℕ, zero, suc, ◌+◌, ◌*◌, ◌/◌, ◌%◌, ◌^◌, ◌<◌, ◌≤◌, ◌≡◌, refl, ap, ◌∙◌, bit_or, arith, some, List,
  [], ◌∷◌, ◌++◌, append_assoc, length, length-append, take-append, drop-append, ltb, le→ltb-false,
  ltb→lt, ltb-false, Bool-cases, if◌then◌else◌, Acc, lt_wf,
}
use bg3le.Common.Bits.{bit_or_shifted, bit_or_comm}
use bg3le.Wire.Write.{IsU64, shift_shrinks, varint_loop, varint, key}
use bg3le.Wire.Read.{add_group, read_varint_loop, read_varint, next, read_fixed, read_bytes}
use mathlib.Core.Logic.{dif_neg, inl, inr}
use native.Mathlib.Decide.{dec_lt}
use native.Mathlib.Nat.{
  pow-le-pow_right, mod-eq_of_lt, div-add-mod, pow-suc, mul-le-mul_right, lt_irrefl, lt_of_lt_of_le,
}
use native.Mathlib.Numerals.{towards_suc}

-- One round of the writer's loop: the last byte, and a byte with its top bit set.
varint_loop-last :
    (out : List ℕ) (v : ℕ) (w : Acc ◌<◌ v) → v < 128 → varint_loop out v w ≡ out ++ v ∷ []
unfolding varint_loop
varint_loop-last out v (Acc.intro _ smaller) h = ground arith

top_bit : (g : ℕ) → g < 128 → bit_or g 128 ≡ g + 128
top_bit g h = bit_or_shifted 7 g 1 h

varint_loop-more :
    (out : List ℕ) (v : ℕ) (w : Acc ◌<◌ v)
    → 128 ≤ v
    → (w' : Acc ◌<◌ (v / 128)) × (varint_loop out v w
        ≡ varint_loop (out ++ (v % 128 + 128) ∷ []) (v / 128) w')
unfolding varint_loop
varint_loop-more out v (Acc.intro _ smaller) h =
    let big : ¬ (v < 0x80) = omega arith in
    (
      smaller (v / 128) (shift_shrinks v big),
      rw (dif_neg (dec_lt v 0x80) big, top_bit (v % 128) (omega arith)) refl,
    )

-- The bytes of `v` in groups of seven bits, for `v` below 128 ^ (k + 1).
pub groups : ℕ → ℕ → List ℕ
groups zero v = v ∷ []
groups (suc k) v =
    let rest = groups k (v / 128) in if ltb v 128 then v ∷ [] else (v % 128 + 128) ∷ rest

varint_loop-groups :
    (k : ℕ) (out : List ℕ) (v : ℕ) (w : Acc ◌<◌ v)
    → v < 128 ^ suc k
    → varint_loop out v w ≡ out ++ groups k v
unfolding groups
varint_loop-groups zero out v w h = varint_loop-last out v w (omega arith)
varint_loop-groups (suc k) out v w h = elim (Bool-cases (ltb v 128)) [
  | inl p ↦ rw p (varint_loop-last out v w (ltb→lt v 128 p))
  | inr p ↦
      let (w', e) = varint_loop-more out v w (ltb-false v 128 p) in
      rw (p, e)
        (varint_loop-groups k (out ++ (v % 128 + 128) ∷ []) (v / 128) w'
            (omega (arith, pow-suc 128 (suc k)))
          ∙ append_assoc out ((v % 128 + 128) ∷ []) (groups k (v / 128)))
]

-- On a 64-bit value the writer keeps what is there and appends the groups.
pub varint-groups : (out : List ℕ) (v : ℕ) → IsU64 v → varint out v ≡ out ++ groups 9 v
unfolding varint
varint-groups out v h = varint_loop-groups 9 out v (lt_wf.apply v) (omega arith)

group_fits :
    (acc g s : ℕ)
    → acc < 2 ^ s
    → acc + g * 2 ^ s < 2 ^ 64
    → bit_or acc (g * 2 ^ s % 2 ^ 64) ≡ acc + g * 2 ^ s
group_fits acc g s h fits =
    rw (mod-eq_of_lt {n = g * 2 ^ s} {m = 2 ^ 64} (omega arith)) (bit_or_shifted s acc g h)

seven_more : (s : ℕ) → 2 ^ (s + 7) ≡ 128 * 2 ^ s
seven_more s = simp towards_suc (omega arith)

-- A number at bit `s` is its low group there and the others seven bits further.
low_group : (n s : ℕ) → n * 2 ^ s ≡ n % 128 * 2 ^ s + n / 128 * 2 ^ (s + 7)
low_group n s =
    let whole = div-add-mod n 128 in
    omega (arith, ap (λ k. k * 2 ^ s) whole, ap (λ p. n / 128 * p) (seven_more s))

shift_small : (s : ℕ) → 2 ^ s < 2 ^ 64 → s < 64
shift_small s h = elim (Bool-cases (ltb s 64)) [
  | inl p ↦ ltb→lt s 64 p
  | inr p ↦
      absurd
        (lt_irrefl _ (lt_of_lt_of_le h (pow-le-pow_right {n = 2} (omega arith) (ltb-false s 64 p))))
]

read_last :
    (v acc s : ℕ) (rest : List ℕ)
    → v < 128
    → acc < 2 ^ s
    → IsU64 (acc + v * 2 ^ s)
    → read_varint_loop (v ∷ rest) acc s ≡ some (acc + v * 2 ^ s, rest)
unfolding read_varint_loop add_group
read_last v acc s rest h ha fits = ground (arith, group_fits acc v s)

read_more :
    (g acc s : ℕ) (rest : List ℕ)
    → g < 128
    → acc < 2 ^ s
    → IsU64 (acc + g * 2 ^ s)
    → s + 7 < 64
    → read_varint_loop ((g + 128) ∷ rest) acc s ≡ read_varint_loop rest (acc + g * 2 ^ s) (s + 7)
unfolding read_varint_loop add_group
read_more g acc s rest h ha fits hs = ground (arith, group_fits acc g s)

-- `w` is what is left of the number, and it counts from bit `s` on.
read_varint_loop-groups :
    (k w acc s : ℕ) (rest : List ℕ)
    → w < 128 ^ suc k
    → acc < 2 ^ s
    → IsU64 (acc + w * 2 ^ s)
    → read_varint_loop (groups k w ++ rest) acc s ≡ some (acc + w * 2 ^ s, rest)
unfolding groups
read_varint_loop-groups zero w acc s rest h ha fits = read_last w acc s rest (omega arith) ha fits
read_varint_loop-groups (suc k) w acc s rest h ha fits = elim (Bool-cases (ltb w 128)) [
  | inl p ↦ rw p (read_last w acc s rest (ltb→lt w 128 p) ha fits)
  | inr p ↦
      let big : 1 * 2 ^ (s + 7) ≤ w / 128 * 2 ^ (s + 7) =
        mul-le-mul_right (2 ^ (s + 7)) (omega (arith, ltb-false w 128 p)) in
      let low : w % 128 * 2 ^ s ≤ 127 * 2 ^ s = mul-le-mul_right (2 ^ s) (omega arith) in
      rw p (
        read_more (w % 128) acc s (groups k (w / 128) ++ rest) (omega arith) ha
          (omega (arith, low_group w s)) (shift_small (s + 7) (omega (arith, low_group w s)))
        ∙ read_varint_loop-groups k (w / 128) (acc + w % 128 * 2 ^ s) (s + 7) rest
            (omega (arith, pow-suc 128 (suc k))) (omega (arith, seven_more s))
            (omega (arith, low_group w s))
        ∙ ap (λ (t : ℕ). some (t, rest)) (omega (arith, low_group w s)))
]

pub read_varint-groups :
    (v : ℕ) (rest : List ℕ) → IsU64 v → read_varint (groups 9 v ++ rest) ≡ some (v, rest)
unfolding read_varint
read_varint-groups v rest h =
    read_varint_loop-groups 9 v 0 0 rest (omega arith) (omega arith) (omega arith)
    ∙ ap (λ (t : ℕ). some (t, rest)) (omega arith)

-- `read_varint` reads back every 64-bit integer that `varint` appended to a string, and leaves
-- whatever follows it.
pub read_varint-varint :
    (v : ℕ) (rest : List ℕ) → IsU64 v → read_varint (varint [] v ++ rest) ≡ some (v, rest)
read_varint-varint v rest h = rw (varint-groups [] v h) (read_varint-groups v rest h)

-- A field number and a wire type that a key can hold.
abbrev pub IsKey : ℕ → ℕ → Type 0
IsKey field wire = (field < 2 ^ 29) × (wire < 8)

key_value : (field wire : ℕ) → wire < 8 → bit_or (field * 8) wire ≡ wire + field * 8
key_value field wire h = bit_or_comm (field * 8) wire ∙ bit_or_shifted 3 wire field h

-- `key` appends one varint.
pub key-groups :
    (out : List ℕ) (field wire : ℕ)
    → IsKey field wire
    → key out field wire ≡ out ++ groups 9 (wire + field * 8)
unfolding key
key-groups out field wire h =
    rw (key_value field wire h.1) (varint-groups out (wire + field * 8) (omega arith))

groups-cons : (k v : ℕ) → (b : ℕ) × (bs : List ℕ) × (groups k v ≡ b ∷ bs)
unfolding groups
groups-cons zero v = (v, [], refl)
groups-cons (suc k) v = elim (Bool-cases (ltb v 128)) [
  | inl p ↦ (v, [], rw p)
  | inr p ↦ (v % 128 + 128, groups k (v / 128), rw p)
]

next-cons :
    (p : List ℕ) (b : ℕ) (bs : List ℕ) {k : ℕ} {rest : List ℕ}
    → p ≡ b ∷ bs
    → read_varint p ≡ some (k, rest)
    → next p ≡ some (k / 8 % 2 ^ 32, k % 8, rest)
unfolding next
next-cons [] b bs e r = cc
next-cons (x ∷ p) b bs e r = rw r

-- `next` returns the field number and the wire type that `key` wrote.
pub next-groups :
    (field wire : ℕ) (rest : List ℕ)
    → IsKey field wire
    → next (groups 9 (wire + field * 8) ++ rest) ≡ some (field, wire, rest)
next-groups field wire rest h =
    let (b, bs, e) = groups-cons 9 (wire + field * 8) in
    next-cons (groups 9 (wire + field * 8) ++ rest) b (bs ++ rest) (ap (λ t. t ++ rest) e)
      (read_varint-groups (wire + field * 8) rest (omega arith))
    ∙ ground (arith, h)

pub read_fixed-append : (s rest : List ℕ) → read_fixed (length s) (s ++ rest) ≡ some (s, rest)
unfolding read_fixed
read_fixed-append s rest =
    rw
      (
        le→ltb-false (length (s ++ rest)) (length s) (omega (arith, length-append s rest)),
        take-append s rest (length s) refl,
        drop-append s rest (length s) refl,
      )
      refl

-- `read_bytes` returns the bytes behind a length that `varint` wrote.
pub read_bytes-groups :
    (s rest : List ℕ)
    → IsU64 (length s)
    → read_bytes (groups 9 (length s) ++ (s ++ rest)) ≡ some (s, rest)
unfolding read_bytes
read_bytes-groups s rest h =
    rw (read_varint-groups (length s) (s ++ rest) h) (read_fixed-append s rest)
