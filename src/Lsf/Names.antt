-- ===== src/Lsf/Names.antt =====
-- src/lsf.cpp: `is_string_type`, `read_names` and the loop over the attributes.
use bg3le.Common.{
  ℕ, zero, suc, ◌+◌, ◌-◌, ◌%◌, ◌/◌, ◌^◌, Bool, ◌&&◌, ◌||◌, Option, none, some, List, [], ◌∷◌,
  length, take, drop, get_or, ltb, leb, ◌==◌, if◌then◌else◌, ◌>>=◌,
}
use bg3le.Common.Bytes.{le_value}
use bg3le.Lsf.Document.{LsfString, u32}

-- String, Path, FixedString, LSString, WString, LSWString
unfoldable pub is_string_type : ℕ → Bool
is_string_type type =
    (type == 20)
    || ((type == 21) || ((type == 22) || ((type == 23) || ((type == 29) || (type == 30)))))

-- `get` of a 16-bit number.
unfoldable pub get_u16 : List ℕ → Option (ℕ × List ℕ)
get_u16 buf = if ltb (length buf) 2 then none else some (le_value (take 2 buf), drop 2 buf)

unfoldable pub read_links : ℕ → List ℕ → Option (List (List ℕ) × List ℕ)
unfolding get_u16
read_links zero buf = some ([], buf)
read_links (suc n) buf = do
  (len, rest) ← get_u16 buf
  if ltb (length rest) len
      then none
      else do (links, behind) ← read_links n (drop len rest); some (take len rest ∷ links, behind)

unfoldable pub read_chains : ℕ → List ℕ → Option (List (List (List ℕ)))
unfolding read_links
read_chains zero buf = some []
read_chains (suc n) buf = do
  (count, rest) ← get_u16 buf
  (links, behind) ← read_links count rest
  chains ← read_chains n behind
  some (links ∷ chains)

unfoldable pub read_names : List ℕ → Option (List (List (List ℕ)))
unfolding read_chains
read_names buf = if ltb (length buf) 4 then none else read_chains (u32 buf 0) (drop 4 buf)

-- The name behind a pair of indices, empty out of range.
unfoldable pub name_of : List (List (List ℕ)) → ℕ → List ℕ
name_of names name = get_or (get_or names (name / 2 ^ 16) []) (name % 2 ^ 16) []

abbrev pub attribute_size : Bool → ℕ
attribute_size v3 = if v3 then 16 else 12

-- The round of the loop at the attribute `a`, with the value's place: the string it is, if it is one
-- inside the values.
unfoldable pub string_at : List (List (List ℕ)) → ℕ → List ℕ → ℕ → Option LsfString
unfolding is_string_type name_of
string_at names values_size a offset =
    let type = u32 a 4 % 64 in
    let len = u32 a 4 / 64 in
    if is_string_type type && (ltb 1 len && leb (offset + len) values_size)
    then some (record { offset = offset; length = len - 1; attribute = name_of names (u32 a 0) })
    else none

-- The loop over `n` attributes; before version 3 a value stands behind the one before it.
unfoldable pub string_values : ℕ → Bool → List (List (List ℕ)) → ℕ → List ℕ → ℕ → List LsfString
unfolding string_at
string_values zero v3 names values_size attributes offset = []
string_values (suc n) v3 names values_size attributes offset =
    let here = if v3 then u32 attributes 12 else offset in
    let next = if v3 then here else (here + u32 attributes 4 / 64) % 2 ^ 32 in
    let rest = string_values n v3 names values_size (drop (attribute_size v3) attributes) next in
    elim (string_at names values_size attributes here) [ none ↦ rest | some s ↦ s ∷ rest ]
