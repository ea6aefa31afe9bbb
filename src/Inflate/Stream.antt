-- ===== src/Inflate/Stream.antt =====
-- src/inflate.cpp, `inflate`: the zlib header and the blocks.
use bg3le.Common.{
  ℕ, zero, suc, ◌*◌, ◌%◌, bit_or, Bool, true, false, ◌&&◌, Option, none, some, List, [], ◌∷◌,
  length, ◌==◌, if◌then◌else◌, ◌>>=◌, Run, ok, fail, stuck,
}
use bg3le.Inflate.Bits.{Bits, take_bits, left}
use bg3le.Inflate.Codes.{Output, stored, fixed_block}
use bg3le.Inflate.Dynamic.{dynamic_block}

abbrev pub run_of_option {ℓ} : {A : Type ℓ} → Option A → Run A
run_of_option none = fail
run_of_option (some a) = ok a

-- `switch (type)`
unfoldable pub block : ℕ → ℕ → Bits → Output → Run (Bits × Output)
block type fuel s o =
    if type == 0
    then run_of_option (stored s o)
    else if type == 1
    then fixed_block fuel s o
    else if type == 2
    then dynamic_block fuel s o
    else fail

-- `last` and `type`.
unfoldable pub block_header : Bits → Option (ℕ × ℕ × Bits)
block_header s = do (last, s1) ← take_bits 1 s; (type, s2) ← take_bits 2 s1; some (last, type, s2)

abbrev pub with_last : ℕ → Run (Bits × Output) → Run (ℕ × Bits × Output)
with_last last (ok (s, o)) = ok (last, s, o)
with_last last fail = fail
with_last last stuck = stuck

unfoldable pub after_header : Output → Option (ℕ × ℕ × Bits) → Run (ℕ × Bits × Output)
unfolding block
after_header o none = fail
after_header o (some (last, type, s)) = with_last last (block type (suc (left s)) s o)

unfoldable pub block_round : Bits → Output → Run (ℕ × Bits × Output)
unfolding after_header block_header
block_round s o = after_header o (block_header s)

-- `for (;;)` with its `break` after the last block.
unfoldable pub blocks : ℕ → Bits → Output → Run Output
blocks zero s o = stuck
blocks (suc fuel) s o = elim (block_round s o) [
  | fail ↦ fail
  | stuck ↦ stuck
  | ok (last, s', o') ↦ elim (last == 0) [ true ↦ blocks fuel s' o' | false ↦ ok o' ]
]

-- Two bytes of a zlib header are passed over; a raw stream has none.
unfoldable pub has_zlib_header : ℕ → ℕ → Bool
has_zlib_header b0 b1 = (b0 % 16 == 8) && (bit_or (b0 * 256) b1 % 31 == 0)

abbrev pub full_output : Run Output → Run (List ℕ)
full_output (ok o) = if length o.bytes == o.size then ok o.bytes else fail
full_output fail = fail
full_output stuck = stuck

abbrev pub start : List ℕ → Bits
start input = record { rest = input; buffer = 0; count = 0 }

unfoldable pub inflate_from : List ℕ → ℕ → Run (List ℕ)
inflate_from input size =
    full_output (blocks (suc (8 * length input)) (start input) (record { bytes = []; size = size }))

-- The bytes written to `out`, all `outSize` of them, or `fail` for `false`. Neither pointer is null,
-- which the code refuses first.
unfoldable pub inflate : List ℕ → ℕ → Run (List ℕ)
unfolding inflate_from has_zlib_header
inflate [] size = fail
inflate (b0 ∷ []) size = fail
inflate (b0 ∷ b1 ∷ rest) size =
    if has_zlib_header b0 b1 then inflate_from rest size else inflate_from (b0 ∷ b1 ∷ rest) size
