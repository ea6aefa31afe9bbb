-- ===== src/Inflate/Codes.antt =====
-- src/inflate.cpp, `struct Output`, `stored`, `codes` and `fixed_block`.
use bg3le.Common.{
  ℕ, zero, suc, ◌+◌, ◌-◌, ◌*◌, ◌%◌, bit_or, bit_xor, Option, none, some, List, [], ◌∷◌, ◌++◌,
  length, get_or, take, drop, replicate, ltb, leb, ◌==◌, if◌then◌else◌, ◌>>=◌, Run, ok, fail, stuck,
}
use bg3le.Inflate.Bits.{Bits, take_bits}
use bg3le.Inflate.Huffman.{Huffman, construct, decode}

-- `bytes` is what is written, so `Used` is its length.
pub record Output : Type 0 where
  pub bytes : List ℕ
  pub size : ℕ

unfoldable pub put : Output → ℕ → Option Output
put o byte =
    if leb o.size (length o.bytes)
    then none
    else some (record o { bytes = o.bytes ++ byte % 256 ∷ [] })

-- `stored` behind its four bytes: the block's length and the check.
unfoldable pub stored_data : ℕ → ℕ → List ℕ → Output → Option (Bits × Output)
stored_data len nlen rest o =
    if bit_xor len 0xffff == nlen
    then (if ltb (length rest) len
        then none
        else if ltb o.size (length o.bytes + len)
        then none
        else some (
          record { rest = drop len rest; buffer = 0; count = 0 },
          record o { bytes = o.bytes ++ take len rest },
        ))
    else none

unfoldable pub stored : Bits → Output → Option (Bits × Output)
unfolding stored_data
stored s o =
    if ltb (length s.rest) 4
    then none
    else stored_data (bit_or (get_or s.rest 0 0) (get_or s.rest 1 0 * 256))
        (bit_or (get_or s.rest 2 0) (get_or s.rest 3 0 * 256)) (drop 4 s.rest) o

abbrev pub lens : List ℕ
lens =
    3 ∷ 4 ∷ 5 ∷ 6 ∷ 7 ∷ 8 ∷ 9 ∷ 10 ∷ 11 ∷ 13 ∷ 15 ∷ 17 ∷ 19 ∷ 23 ∷ 27 ∷ 31 ∷ 35 ∷ 43 ∷ 51 ∷ 59 ∷ 67
    ∷ 83 ∷ 99 ∷ 115 ∷ 131 ∷ 163 ∷ 195 ∷ 227 ∷ 258 ∷ []

abbrev pub lext : List ℕ
lext =
    0 ∷ 0 ∷ 0 ∷ 0 ∷ 0 ∷ 0 ∷ 0 ∷ 0 ∷ 1 ∷ 1 ∷ 1 ∷ 1 ∷ 2 ∷ 2 ∷ 2 ∷ 2 ∷ 3 ∷ 3 ∷ 3 ∷ 3 ∷ 4 ∷ 4 ∷ 4 ∷ 4
    ∷ 5 ∷ 5 ∷ 5 ∷ 5 ∷ 0 ∷ []

abbrev pub dists : List ℕ
dists =
    1 ∷ 2 ∷ 3 ∷ 4 ∷ 5 ∷ 7 ∷ 9 ∷ 13 ∷ 17 ∷ 25 ∷ 33 ∷ 49 ∷ 65 ∷ 97 ∷ 129 ∷ 193 ∷ 257 ∷ 385 ∷ 513 ∷ 769
    ∷ 1025 ∷ 1537 ∷ 2049 ∷ 3073 ∷ 4097 ∷ 6145 ∷ 8193 ∷ 12289 ∷ 16385 ∷ 24577 ∷ []

abbrev pub dext : List ℕ
dext =
    0 ∷ 0 ∷ 0 ∷ 0 ∷ 1 ∷ 1 ∷ 2 ∷ 2 ∷ 3 ∷ 3 ∷ 4 ∷ 4 ∷ 5 ∷ 5 ∷ 6 ∷ 6 ∷ 7 ∷ 7 ∷ 8 ∷ 8 ∷ 9 ∷ 9 ∷ 10 ∷ 10
    ∷ 11 ∷ 11 ∷ 12 ∷ 12 ∷ 13 ∷ 13 ∷ []

-- Byte by byte: `At[Used] = At[Used - distance]`, `n` times.
unfoldable pub copy : ℕ → ℕ → List ℕ → List ℕ
copy zero distance out = out
copy (suc n) distance out = copy n distance (out ++ get_or out (length out - distance) 0 ∷ [])

-- One round of the loop of `codes`.
pub data Round : Type 0 where
  more finished : Bits → Output → Round

unfoldable pub write_match : ℕ → ℕ → Bits → Output → Option Round
unfolding copy
write_match len distance s o =
    if ltb (length o.bytes) distance
    then none
    else if ltb o.size (length o.bytes + len)
    then none
    else some (more s (record o { bytes = copy len distance o.bytes }))

unfoldable pub read_distance : ℕ → Huffman → Bits → Output → Option Round
read_distance len dist s o = do
  (dsym, s') ← decode s dist
  if leb 30 dsym then none else do
    (dextra, t) ← take_bits (get_or dext dsym 0) s'
    write_match len (get_or dists dsym 0 + dextra) t o

unfoldable pub read_match : ℕ → Huffman → Bits → Output → Option Round
read_match index dist s o = if leb 29 index then none else do
  (extra, s') ← take_bits (get_or lext index 0) s
  read_distance (get_or lens index 0 + extra) dist s' o

unfoldable pub act_on : ℕ → Huffman → Bits → Output → Option Round
act_on symbol dist s o =
    if ltb symbol 256
    then (do o' ← put o symbol; some (more s o'))
    else if symbol == 256
    then some (finished s o)
    else read_match (symbol - 257) dist s o

unfoldable pub codes_round : Huffman → Huffman → Bits → Output → Option Round
codes_round lit dist s o = do (symbol, s') ← decode s lit; act_on symbol dist s' o

unfoldable pub codes : ℕ → Huffman → Huffman → Bits → Output → Run (Bits × Output)
codes zero lit dist s o = stuck
codes (suc fuel) lit dist s o = elim (codes_round lit dist s o) [
  | none ↦ fail
  | some (more s' o') ↦ codes fuel lit dist s' o'
  | some (finished s' o') ↦ ok (s', o')
]

abbrev pub fixed_lengths : List ℕ
fixed_lengths = replicate 144 8 ++ (replicate 112 9 ++ (replicate 24 7 ++ replicate 8 8))

-- The static tables are built once, from the same lengths every time.
unfoldable pub fixed_block : ℕ → Bits → Output → Run (Bits × Output)
unfolding codes
fixed_block fuel s o = codes fuel (construct fixed_lengths) (construct (replicate 30 5)) s o
