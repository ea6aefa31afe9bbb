-- ===== src/Inflate/Huffman.antt =====
-- src/inflate.cpp, `struct Huffman`, `construct` and `decode`: canonical Huffman codes.
use bg3le.Common.{
  ℕ, zero, suc, ◌+◌, ◌-◌, ◌*◌, bit_or, Option, none, some, List, [], ◌∷◌, get_or, set, replicate,
  ltb, ◌==◌, if◌then◌else◌, ◌>>=◌,
}
use bg3le.Inflate.Bits.{Bits, take_bits}

abbrev pub max_bits : ℕ
max_bits = 15

-- `Count` has 16 entries and `Symbol` 320; every object of the type starts as zeros.
pub record Huffman : Type 0 where
  pub counts : List ℕ
  pub symbols : List ℕ

-- `++h->Count[lengths[i]]` over the lengths.
unfoldable pub count_lengths : List ℕ → List ℕ → List ℕ
count_lengths [] counts = counts
count_lengths (l ∷ ls) counts = count_lengths ls (set counts l (get_or counts l 0 + 1))

-- `offsets[len + 1] = offsets[len] + h->Count[len]`, for the rounds left from `len` on.
unfoldable pub sum_counts : ℕ → ℕ → List ℕ → List ℕ → List ℕ
sum_counts zero len counts offsets = offsets
sum_counts (suc n) len counts offsets =
    sum_counts n (len + 1) counts
      (set offsets (len + 1) (get_or offsets len 0 + get_or counts len 0))

-- `h->Symbol[offsets[lengths[i]]++] = i` for each length that is not 0.
unfoldable pub place_symbols : List ℕ → ℕ → List ℕ → List ℕ → List ℕ
place_symbols [] i offsets symbols = symbols
place_symbols (l ∷ ls) i offsets symbols =
    let at = get_or offsets l 0 in
    let placed = place_symbols ls (i + 1) (set offsets l (at + 1)) (set symbols at i) in
    let skipped = place_symbols ls (i + 1) offsets symbols in if l == 0 then skipped else placed

unfoldable pub construct : List ℕ → Huffman
unfolding count_lengths sum_counts place_symbols
construct lengths =
    let counts = count_lengths lengths (replicate 16 0) in
    let offsets = sum_counts max_bits 1 counts (replicate 17 0) in
    record { counts = counts; symbols = place_symbols lengths 0 offsets (replicate 320 0) }

-- The rounds left of `for (len = 1; len <= kMaxBits; ++len)`. `code - count < first`, which is
-- over `int`, is written without the subtraction.
unfoldable pub decode_loop : ℕ → ℕ → ℕ → ℕ → ℕ → Huffman → Bits → Option (ℕ × Bits)
decode_loop zero len code first index h s = none
decode_loop (suc n) len code first index h s = do
  (bit, s') ← take_bits 1 s
  let code' = bit_or code bit
  let count = get_or h.counts len 0
  let more = decode_loop n (len + 1) (code' * 2) ((first + count) * 2) (index + count) h s'
  if ltb code' (first + count)
      then some (get_or h.symbols (index + (code' - first)) 0, s')
      else more

unfoldable pub decode : Bits → Huffman → Option (ℕ × Bits)
unfolding decode_loop
decode s h = decode_loop max_bits 1 0 0 0 h s
