-- ===== src/Inflate/Stored.antt =====
-- src/inflate.cpp: stored blocks come back as they were.
use bg3le.Common.{ℕ, ◌<◌, bit_xor, List, [], ◌∷◌, ◌++◌, length}
use bg3le.Common.Bytes.{le_bytes}
use bg3le.Inflate.Bits.{Bits}
use bg3le.Inflate.Codes.{Output}

-- A stored block of RFC 1951: three bits of header padded to a byte, the length and its complement
-- in 16 bits each, and the bytes.
pub stored_block : ℕ → List ℕ → List ℕ
unfolding le_bytes
stored_block last chunk =
    last ∷ (le_bytes 2 (length chunk) ++ (le_bytes 2 (bit_xor (length chunk) 0xffff) ++ chunk))

-- A stream of stored blocks, the last one marked.
pub stored_stream : List ℕ → List (List ℕ) → List ℕ
unfolding stored_block
stored_stream chunk [] = stored_block 1 chunk
stored_stream chunk (next ∷ more) = stored_block 0 chunk ++ stored_stream next more

abbrev pub join : List (List ℕ) → List ℕ
join [] = []
join (chunk ∷ more) = chunk ++ join more

module _ (chunk rest : List ℕ) (o : Output) (buffer count : ℕ) where
  -- The bytes behind the header of a stored block.
  stored_input : Bits
  unfolding le_bytes
  stored_input = record {
    rest =
        le_bytes 2 (length chunk)
        ++ (le_bytes 2 (bit_xor (length chunk) 0xffff) ++ (chunk ++ rest));
    buffer = buffer;
    count = count;
  }

abbrev pub IsChunk : List ℕ → Type 0
IsChunk chunk = length chunk < 65536
