-- ===== src/Inflate/Dynamic.antt =====
-- src/inflate.cpp, `dynamic_block`: a block that brings its own codes.
use bg3le.Common.{
  ℕ, zero, suc, ◌+◌, ◌-◌, true, false, ◌||◌, Option, none, some, List, [], ◌∷◌, get_or, set, take,
  drop, replicate, ltb, ◌==◌, if◌then◌else◌, ◌>>=◌, Run, ok, fail, stuck,
}
use bg3le.Inflate.Bits.{Bits, take_bits}
use bg3le.Inflate.Huffman.{Huffman, construct, decode}
use bg3le.Inflate.Codes.{Output, codes}

abbrev pub code_order : List ℕ
code_order = 16 ∷ 17 ∷ 18 ∷ 0 ∷ 8 ∷ 7 ∷ 9 ∷ 6 ∷ 10 ∷ 5 ∷ 11 ∷ 4 ∷ 12 ∷ 3 ∷ 13 ∷ 2 ∷ 14 ∷ 1 ∷ 15 ∷ []

-- `lengths[order[i]] = bits`, for the entries of `order` that the stream has; the others stay 0.
unfoldable pub read_code_lengths : List ℕ → List ℕ → Bits → Option (List ℕ × Bits)
read_code_lengths [] lengths s = some (lengths, s)
read_code_lengths (at ∷ order) lengths s = do
  (bits, s') ← take_bits 3 s
  read_code_lengths order (set lengths at bits) s'

-- `while (repeat-- > 0) lengths[index++] = value`
unfoldable pub repeat_length : ℕ → ℕ → ℕ → List ℕ → List ℕ
repeat_length zero value index lengths = lengths
repeat_length (suc n) value index lengths =
    repeat_length n value (index + 1) (set lengths index value)

-- What a symbol of the code-length code stands for: a value, how often, and the bits behind it.
unfoldable pub run_of : ℕ → ℕ → List ℕ → Bits → Option (ℕ × ℕ × Bits)
run_of symbol index lengths s =
    if ltb symbol 16
    then some (symbol, 1, s)
    else if symbol == 16
    then (if index == 0
        then none
        else do (extra, s') ← take_bits 2 s; some (get_or lengths (index - 1) 0, 3 + extra, s'))
    else if symbol == 17
    then (do (extra, s') ← take_bits 3 s; some (0, 3 + extra, s'))
    else do (extra, s') ← take_bits 7 s; some (0, 11 + extra, s')

-- One round of `while (index < literals + distances)`; the bound on a run is checked for each, and
-- holds by the loop's test for a run of one.
unfoldable pub length_round : ℕ → Huffman → ℕ → List ℕ → Bits → Option (ℕ × List ℕ × Bits)
unfolding run_of repeat_length
length_round total code index lengths s = do
  (symbol, s') ← decode s code
  (value, count, t) ← run_of symbol index lengths s'
  if ltb total (index + count)
      then none
      else some (index + count, repeat_length count value index lengths, t)

unfoldable pub read_lengths : ℕ → ℕ → Huffman → ℕ → List ℕ → Bits → Run (List ℕ × Bits)
read_lengths zero total code index lengths s = stuck
read_lengths (suc fuel) total code index lengths s = elim (ltb index total) [
  | false ↦ ok (lengths, s)
  | true ↦ elim (length_round total code index lengths s) [
    | none ↦ fail
    | some (index', lengths', s') ↦ read_lengths fuel total code index' lengths' s'
  ]
]

-- The block behind its lengths.
unfoldable pub coded_block : ℕ → ℕ → ℕ → Output → Run (List ℕ × Bits) → Run (Bits × Output)
coded_block fuel literals distances o (ok (lengths, s)) =
    if get_or lengths 256 0 == 0
    then fail
    else codes fuel (construct (take literals lengths))
        (construct (take distances (drop literals lengths))) s o
coded_block fuel literals distances o fail = fail
coded_block fuel literals distances o stuck = stuck

-- `nlen`, `ndist`, `ncode` and the lengths of the code-length code.
unfoldable pub dynamic_header : Bits → Option (ℕ × ℕ × List ℕ × Bits)
dynamic_header s = do
  (nlen, s1) ← take_bits 5 s
  (ndist, s2) ← take_bits 5 s1
  (ncode, s3) ← take_bits 4 s2
  if ltb 288 (nlen + 257) || ltb 32 (ndist + 1) then none else do
    (lengths, t) ← read_code_lengths (take (ncode + 4) code_order) (replicate 320 0) s3
    some (nlen + 257, ndist + 1, lengths, t)

unfoldable pub dynamic_body : ℕ → Output → Option (ℕ × ℕ × List ℕ × Bits) → Run (Bits × Output)
unfolding coded_block
dynamic_body fuel o none = fail
dynamic_body fuel o (some (literals, distances, lengths, s)) =
    coded_block fuel literals distances o
      (read_lengths 321 (literals + distances) (construct (take 19 lengths)) 0 lengths s)

unfoldable pub dynamic_block : ℕ → Bits → Output → Run (Bits × Output)
unfolding dynamic_body
dynamic_block fuel s o = dynamic_body fuel o (dynamic_header s)
