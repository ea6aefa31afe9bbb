-- ===== src/Net/Guid.antt =====
-- src/net.cpp, `parse_guid` and `format_guid`: a UUID string and the two 64-bit halves that bg3se's
-- `Guid` keeps. Text is a list of character codes.
pub mod RoundTrip
use bg3le.Common.{
  ℕ, ◌+◌, ◌-◌, ◌*◌, ◌/◌, ◌%◌, Bool, ◌&&◌, Option, none, some, List, [], ◌∷◌, ◌++◌, length, get_or,
  take, drop, leb, ◌==◌, if◌then◌else◌, ◌>>=◌,
}
use bg3le.Common.Bytes.{le_bytes, le_value}

-- One hexadecimal digit, of either case.
unfoldable pub nibble : ℕ → Option ℕ
nibble c =
    if leb b'0' c && leb c b'9'
    then some (c - b'0')
    else if leb b'a' c && leb c b'f'
    then some (c - b'a' + 10)
    else if leb b'A' c && leb c b'F'
    then some (c - b'A' + 10)
    else none

-- The two digits of `s` from `at`.
unfoldable pub parse_byte : List ℕ → ℕ → Option ℕ
unfolding nibble
parse_byte s at = do
  high ← nibble (get_or s at 0)
  low ← nibble (get_or s (at + 1) 0)
  some (high * 16 + low)

unfoldable pub parse_bytes : List ℕ → List ℕ → Option (List ℕ)
parse_bytes s [] = some []
parse_bytes s (at ∷ rest) = do b ← parse_byte s at; bs ← parse_bytes s rest; some (b ∷ bs)

-- Where each byte in memory order has its digits.
abbrev pub digit_positions : List ℕ
digit_positions = 6 ∷ 4 ∷ 2 ∷ 0 ∷ 11 ∷ 9 ∷ 16 ∷ 14 ∷ 21 ∷ 19 ∷ 26 ∷ 24 ∷ 30 ∷ 28 ∷ 34 ∷ 32 ∷ []

abbrev pub has_dashes : List ℕ → Bool
has_dashes s =
    get_or s 8 0 == b'-' && get_or s 13 0 == b'-' && get_or s 18 0 == b'-' && get_or s 23 0 == b'-'

unfoldable pub parse_guid : List ℕ → Option (ℕ × ℕ)
unfolding parse_bytes parse_byte
parse_guid s =
    if (length s == 36) && has_dashes s
    then (do b ← parse_bytes s digit_positions; some (le_value (take 8 b), le_value (drop 8 b)))
    else none

-- `hex[d]`
unfoldable pub hex_digit : ℕ → ℕ
hex_digit d = if leb d 9 then b'0' + d else b'a' + (d - 10)

-- The digits of the bytes at some positions, one byte after the other.
unfoldable pub format_bytes : List ℕ → List ℕ → List ℕ
unfolding hex_digit
format_bytes b [] = []
format_bytes b (at ∷ rest) =
    hex_digit (get_or b at 0 / 16) ∷ hex_digit (get_or b at 0 % 16) ∷ format_bytes b rest

-- The dashes stand before the bytes 4, 6, 8 and 10.
unfoldable pub format_guid : ℕ → ℕ → List ℕ
unfolding format_bytes
format_guid lo hi =
    let b = le_bytes 8 lo ++ le_bytes 8 hi in
    format_bytes b (3 ∷ 2 ∷ 1 ∷ 0 ∷ [])
    ++ (b'-'
        ∷ (format_bytes b (5 ∷ 4 ∷ [])
            ++ (b'-'
                ∷ (format_bytes b (7 ∷ 6 ∷ [])
                    ++ (b'-'
                        ∷ (format_bytes b (9 ∷ 8 ∷ [])
                            ++ (b'-' ∷ format_bytes b (11 ∷ 10 ∷ 13 ∷ 12 ∷ 15 ∷ 14 ∷ []))))))))
