-- ===== src/Net/Guid/RoundTrip.antt =====
-- src/net.cpp: the string that `format_guid` writes is read back by `parse_guid`.
use bg3le.Common.{
  ℕ, ◌+◌, ◌/◌, ◌%◌, ◌<◌, ◌≡◌, refl, sym, ap, arith, some, true, ◌&&◌, ◌==◌, take-append,
  drop-append, List, [], ◌∷◌, ◌++◌, get_or, length,
}
use bg3le.Common.Bytes.{le_bytes, length-le_bytes, le_value-le_bytes}
use bg3le.Wire.Write.{IsU64}
use bg3le.Net.Guid.{
  nibble, parse_byte, parse_bytes, digit_positions, has_dashes, parse_guid, hex_digit, format_bytes,
  format_guid,
}

nibble-hex_digit : (d : ℕ) → d < 16 → nibble (hex_digit d) ≡ some d
unfolding nibble hex_digit
nibble-hex_digit d h = ground arith

-- The two digits of a byte, wherever they stand, read back to it.
parse_byte-digits :
    (s : List ℕ) (at b : ℕ)
    → b < 256
    → get_or s at 0 ≡ hex_digit (b / 16)
    → get_or s (at + 1) 0 ≡ hex_digit (b % 16)
    → parse_byte s at ≡ some b
unfolding parse_byte
parse_byte-digits s at b h p q =
    rw (p, q, nibble-hex_digit (b / 16) (omega arith), nibble-hex_digit (b % 16) (omega arith))
      (ap some (omega arith))

-- Each position of `s` holds the digits of the byte beside it.
abbrev Spells : List ℕ → List ℕ → List ℕ → Type 0
Spells s [] [] = Unit
Spells s [] (b ∷ bs) = ⊥
Spells s (at ∷ ps) [] = ⊥
Spells s (at ∷ ps) (b ∷ bs) = (parse_byte s at ≡ some b) × Spells s ps bs

parse_bytes-Spells : (s ps bs : List ℕ) → Spells s ps bs → parse_bytes s ps ≡ some bs
unfolding parse_bytes
parse_bytes-Spells s [] [] h = refl
parse_bytes-Spells s [] (b ∷ bs) h = absurd h
parse_bytes-Spells s (at ∷ ps) [] h = absurd h
parse_bytes-Spells s (at ∷ ps) (b ∷ bs) h = rw (h.0, parse_bytes-Spells s ps bs h.1)

module _ (lo hi : ℕ) where
  guid_bytes :
      parse_bytes (format_guid lo hi) digit_positions ≡ some (le_bytes 8 lo ++ le_bytes 8 hi)
  unfolding format_guid le_bytes
  guid_bytes = parse_bytes-Spells (format_guid lo hi) digit_positions _ (
    parse_byte-digits _ 6 _ (omega arith) refl refl,
    (
      parse_byte-digits _ 4 _ (omega arith) refl refl,
      (
        parse_byte-digits _ 2 _ (omega arith) refl refl,
        (
          parse_byte-digits _ 0 _ (omega arith) refl refl,
          (
            parse_byte-digits _ 11 _ (omega arith) refl refl,
            (
              parse_byte-digits _ 9 _ (omega arith) refl refl,
              (
                parse_byte-digits _ 16 _ (omega arith) refl refl,
                (
                  parse_byte-digits _ 14 _ (omega arith) refl refl,
                  (
                    parse_byte-digits _ 21 _ (omega arith) refl refl,
                    (
                      parse_byte-digits _ 19 _ (omega arith) refl refl,
                      (
                        parse_byte-digits _ 26 _ (omega arith) refl refl,
                        (
                          parse_byte-digits _ 24 _ (omega arith) refl refl,
                          (
                            parse_byte-digits _ 30 _ (omega arith) refl refl,
                            (
                              parse_byte-digits _ 28 _ (omega arith) refl refl,
                              (
                                parse_byte-digits _ 34 _ (omega arith) refl refl,
                                (parse_byte-digits _ 32 _ (omega arith) refl refl, tt),
                              ),
                            ),
                          ),
                        ),
                      ),
                    ),
                  ),
                ),
              ),
            ),
          ),
        ),
      ),
    ),
  )

  guid_shape : ((length (format_guid lo hi) == 36) && has_dashes (format_guid lo hi)) ≡ true
  unfolding format_guid format_bytes
  guid_shape = refl

-- `parse_guid` reads back, from the text that `format_guid` writes, the two halves of the GUID.
pub parse_guid-format_guid :
    (lo hi : ℕ) → IsU64 lo → IsU64 hi → parse_guid (format_guid lo hi) ≡ some (lo, hi)
unfolding parse_guid
parse_guid-format_guid lo hi hl hh = rw (
  guid_shape lo hi,
  guid_bytes lo hi,
  take-append (le_bytes 8 lo) (le_bytes 8 hi) 8 (sym (length-le_bytes 8 lo)),
  drop-append (le_bytes 8 lo) (le_bytes 8 hi) 8 (sym (length-le_bytes 8 lo)),
  le_value-le_bytes 8 lo hl,
  le_value-le_bytes 8 hi hh,
)
