-- ===== src/Inflate/Bits.antt =====
-- src/inflate.cpp, `struct Bits`: the bit reader.
use bg3le.Common.{
  ℕ, ◌+◌, ◌-◌, ◌*◌, ◌/◌, ◌%◌, ◌^◌, bit_or, Option, none, some, List, [], ◌∷◌, length, ltb,
  if◌then◌else◌, ◌>>=◌,
}

-- `rest` is `In` from `At` to `Size`.
pub record Bits : Type 0 where
  pub rest : List ℕ
  pub buffer : ℕ
  pub count : ℕ

-- `while (Count < need)`: the value, the bytes left and the count.
unfoldable pub fill : List ℕ → ℕ → ℕ → ℕ → Option (List ℕ × ℕ × ℕ)
fill [] need value count = if ltb count need then none else some ([], value, count)
fill (b ∷ rest) need value count =
    let more = fill rest need (bit_or value (b * 2 ^ count)) (count + 8) in
    if ltb count need then more else some (b ∷ rest, value, count)

-- The code buffers 64 bits and answers with an int; its callers ask for at most 13 bits.
-- `value & ((1L << need) - 1)` is `value % 2 ^ need`, and `value >> need` is `value / 2 ^ need`.
unfoldable pub take_bits : ℕ → Bits → Option (ℕ × Bits)
unfolding fill
take_bits need s = do
  (rest, value, count) ← fill s.rest need s.buffer s.count
  some (value % 2 ^ need, record { rest = rest; buffer = value / 2 ^ need; count = count - need })

-- How many bits can still be read.
abbrev pub left : Bits → ℕ
left s = s.count + 8 * length s.rest
