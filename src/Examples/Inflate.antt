-- ===== src/Examples/Inflate.antt =====
-- src/inflate.cpp at concrete inputs.
use bg3le.Common.{ℕ, ◌+◌, ◌-◌, ◌<◌, ◌≤◌, ◌≡◌, none, List, [], ◌∷◌, get_or, length, arith}
use bg3le.Inflate.Bits.{Bits, take_bits}
use bg3le.Inflate.Codes.{copy}
use bg3le.Inflate.Stream.{inflate}
use bg3le.Inflate.Reading.{Taken, take_bits_lem, take_bits-none}
use bg3le.Inflate.Space.{copy_lem}
use bg3le.Inflate.Total.{Delivers, inflate-Delivers}

-- The bytes 2 0xff behind 3 bits in hand.
abbrev reader : Bits
reader = record { rest = 2 ∷ 0xff ∷ []; buffer = 5; count = 3 }

-- "aaaa" by the fixed codes: a literal and a match.
abbrev deflated : List ℕ
deflated = 0x4b ∷ 0x84 ∷ 0x02 ∷ 0x00 ∷ []

take_bits_example : Taken 6 reader
take_bits_example =
    take_bits_lem 6 reader (record { fits = omega arith; bytes = (omega arith, (omega arith, tt)) })
      (omega arith)

take_bits-none_example : take_bits 20 reader ≡ none
take_bits-none_example = take_bits-none 20 reader (omega arith)

abbrev written : List ℕ
written = 1 ∷ 2 ∷ 3 ∷ []

copy_example :
    (length (copy 5 2 written) ≡ length written + 5)
    × ((i : ℕ) → i < length written → get_or (copy 5 2 written) i 0 ≡ get_or written i 0)
    × ((i : ℕ)
        → length written ≤ i
        → i < length written + 5
        → get_or (copy 5 2 written) i 0 ≡ get_or (copy 5 2 written) (i - 2) 0)
copy_example = copy_lem 5 2 written (omega arith) (omega arith)

inflate-Delivers_example : Delivers 4 (inflate deflated 4)
inflate-Delivers_example =
    inflate-Delivers deflated 4 (omega arith, (omega arith, (omega arith, (omega arith, tt))))
