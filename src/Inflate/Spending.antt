-- ===== src/Inflate/Spending.antt =====
-- src/inflate.cpp: a read takes its bits off the input.
use bg3le.Common.{
  ℕ, zero, suc, ◌+◌, ◌*◌, ◌^◌, ◌<◌, ◌≤◌, ◌≡◌, bit_or, arith, some, List, [], ◌∷◌, length, get_or,
  >>=-eq-some,
}
use bg3le.Inflate.Bits.{Bits, fill, take_bits, left}
use bg3le.Inflate.Huffman.{Huffman, decode_loop, decode}

left-fill :
    (p : List ℕ) (need value count : ℕ) (rest : List ℕ) (v c : ℕ)
    → fill p need value count ≡ some (rest, v, c)
    → (c + 8 * length rest ≡ count + 8 * length p) × (need ≤ c)
unfolding fill
left-fill [] need value count rest v c e = ground arith
left-fill (b ∷ p) need value count rest v c e =
    ground (arith, left-fill p need (bit_or value (b * 2 ^ count)) (count + 8) rest v c)

-- A read of `need` bits leaves `need` fewer.
pub left-take_bits :
    (need : ℕ) (s : Bits) (v : ℕ) (t : Bits)
    → take_bits need s ≡ some (v, t)
    → left t + need ≡ left s
unfolding take_bits
left-take_bits need s v t e =
    let ((rest, value, count), got, out) = >>=-eq-some (fill s.rest need s.buffer s.count) _ e in
    ground (arith, left-fill s.rest need s.buffer s.count rest value count got)

left-decode_loop :
    (n len code first index : ℕ) (h : Huffman) (s : Bits) (v : ℕ) (t : Bits)
    → decode_loop n len code first index h s ≡ some (v, t)
    → left t < left s
unfolding decode_loop
left-decode_loop zero len code first index h s v t e = cc
left-decode_loop (suc n) len code first index h s v t e =
    let ((bit, s'), got, out) = >>=-eq-some (take_bits 1 s) _ e in
    let count = get_or h.counts len 0 in
    ground (
      arith,
      left-take_bits 1 s bit s' got,
      left-decode_loop n (len + 1) (bit_or code bit * 2) ((first + count) * 2) (index + count) h s'
          v t,
    )

pub left-decode :
    (s : Bits) (h : Huffman) (v : ℕ) (t : Bits) → decode s h ≡ some (v, t) → left t < left s
unfolding decode
left-decode s h v t e = left-decode_loop 15 1 0 0 0 h s v t e
