-- ===== src/Wire/Write.antt =====
-- src/pb.h, `varint`, `key`, `uint_field` and `bytes_field`: the writers.
use bg3le.Common.{
  ℕ, ◌*◌, ◌/◌, ◌%◌, ◌^◌, ◌<◌, bit_or, arith, List, [], ◌∷◌, ◌++◌, length, ◌==◌, if◌then◌else◌, Acc,
  lt_wf,
}
use mathlib.Core.Logic.{dite}
use native.Mathlib.Decide.{dec_lt}

abbrev pub IsU64 : ℕ → Type 0
IsU64 v = v < 2 ^ 64

pub shift_shrinks : (v : ℕ) → ¬ (v < 0x80) → v / 128 < v
shift_shrinks v h = omega arith

-- `while (v >= 0x80)`: `v & 0x7f` is `v % 128` and `v >>= 7` is `v / 128`.
unfoldable pub varint_loop : List ℕ → (v : ℕ) → Acc ◌<◌ v → List ℕ
varint_loop out v (Acc.intro _ smaller) =
    dite (dec_lt v 0x80) (λ _. out ++ v % 256 ∷ [])
      (λ more.
        varint_loop (out ++ bit_or (v % 128) 0x80 ∷ []) (v / 128)
          (smaller (v / 128) (shift_shrinks v more)))

unfoldable pub varint : List ℕ → ℕ → List ℕ
unfolding varint_loop lt_wf
varint out v = varint_loop out v (lt_wf.apply v)

-- `(field << 3) | wire`
unfoldable pub key : List ℕ → ℕ → ℕ → List ℕ
key out field wire = varint out (bit_or (field * 8) wire)

unfoldable pub uint_field : List ℕ → ℕ → ℕ → List ℕ
uint_field out field v = if v == 0 then out else varint (key out field 0) v

unfoldable pub bytes_field : List ℕ → ℕ → List ℕ → List ℕ
bytes_field out field v = varint (key out field 2) (length v) ++ v
