-- ===== src/PakFix/Names.antt =====
-- src/pak_fix.cpp: the functions on names, and the checksum.
use bg3le.Common.{
  ℕ, zero, suc, ◌+◌, ◌-◌, ◌%◌, ◌/◌, bit_xor, Bool, true, false, ◌&&◌, ◌||◌, List, [], ◌∷◌, ◌++◌,
  length, take, drop, leb, ◌==◌, if◌then◌else◌,
}
use mathlib.Core.List.{map}
use bg3le.Pak.Read.{same_bytes}
use bg3le.Pak.Cache.{decimal}

unfoldable pub lower : ℕ → ℕ
lower c = if leb b'A' c && leb c b'Z' then c + 32 else c

-- A backslash is a slash.
unfoldable pub lowered : List ℕ → List ℕ
unfolding lower
lowered s = map (λ c. lower (if c == 92 then b'/' else c)) s

-- The loop behind the comparison of the sizes.
unfoldable pub iequals : List ℕ → List ℕ → Bool
unfolding lower
iequals [] [] = true
iequals [] (b ∷ t) = false
iequals (a ∷ s) [] = false
iequals (a ∷ s) (b ∷ t) = (lower a == lower b) && iequals s t

unfoldable pub iends_with : List ℕ → List ℕ → Bool
unfolding iequals
iends_with s suffix =
    leb (length suffix) (length s) && iequals (drop (length s - length suffix) s) suffix

-- What stands behind the last `mark`, or `default` if there is none.
unfoldable pub behind_last : ℕ → List ℕ → List ℕ → List ℕ
behind_last mark [] default = default
behind_last mark (c ∷ s) default =
    let here = behind_last mark s s in
    let rest = behind_last mark s default in if c == mark then here else rest

unfoldable pub last_component : List ℕ → List ℕ
unfolding behind_last
last_component name = behind_last b'/' name name

-- Behind the last dot of the leaf, unless it has none or begins with its only one.
unfoldable pub extension : List ℕ → List ℕ
unfolding lowered last_component
extension name = let leaf = last_component name in lowered (behind_last b'.' (drop 1 leaf) [])

-- The number has 32 bits, so ten digits hold it.
unfoldable pub part_path : List ℕ → ℕ → List ℕ
unfolding decimal
part_path pak n =
    take (length pak - 4) pak ++ (b'_' ∷ (decimal 10 n [] ++ (b'.' ∷ b'p' ∷ b'a' ∷ b'k' ∷ [])))

-- `std::set::count`
abbrev pub is_one_of : List (List ℕ) → List ℕ → Bool
is_one_of [] s = false
is_one_of (name ∷ names) s = same_bytes name s || is_one_of names s

unfoldable pub is_lsf : List ℕ → Bool
is_lsf ext =
    is_one_of
      ((b'l' ∷ b's' ∷ b'f' ∷ [])
        ∷ ((b'l' ∷ b's' ∷ b'f' ∷ b'x' ∷ [])
            ∷ ((b'l' ∷ b's' ∷ b'b' ∷ b'c' ∷ []) ∷ ((b'l' ∷ b's' ∷ b'b' ∷ b's' ∷ []) ∷ []))))
      ext

-- One of the eight steps for an entry of the table.
unfoldable pub crc_bits : ℕ → ℕ → ℕ
crc_bits zero c = c
crc_bits (suc k) c = crc_bits k (if c % 2 == 1 then bit_xor 0xedb88320 (c / 2) else c / 2)

unfoldable pub crc_bytes : List ℕ → ℕ → ℕ
unfolding crc_bits
crc_bytes [] c = c
crc_bytes (b ∷ data') c = crc_bytes data' (bit_xor (crc_bits 8 (bit_xor c b % 256)) (c / 256))

unfoldable pub crc32 : List ℕ → ℕ
unfolding crc_bytes
crc32 data' = bit_xor (crc_bytes data' 0xffffffff) 0xffffffff
