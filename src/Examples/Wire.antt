-- ===== src/Examples/Wire.antt =====
-- src/pb.h at concrete inputs.
use bg3le.Common.{ℕ, ◌<◌, ◌≡◌, refl, some, List, [], ◌∷◌, ◌++◌, length, arith}
use bg3le.Wire.Write.{IsU64, varint}
use bg3le.Wire.Read.{add_group, read_varint}
use bg3le.Wire.RoundTrip.{read_varint-varint}
use bg3le.Wire.Bounds.{read_varint_bounds}

read_varint-varint_example : read_varint (varint [] 300 ++ (7 ∷ [])) ≡ some (300, 7 ∷ [])
read_varint-varint_example = read_varint-varint 300 (7 ∷ []) (omega arith)

abbrev behind : List ℕ
behind = 7 ∷ []

abbrev with_varint : List ℕ
with_varint = 172 ∷ 2 ∷ 7 ∷ []

read_varint_bounds_example : IsU64 300 × (length behind < length with_varint)
unfolding read_varint add_group
read_varint_bounds_example = read_varint_bounds with_varint 300 behind refl
