-- ===== src/Inflate/Reading.antt =====
-- src/inflate.cpp: `Bits::take` reads the input as one long number, lowest bit first.
use bg3le.Common.{
  ℕ, ◌+◌, ◌-◌, ◌*◌, ◌/◌, ◌%◌, ◌^◌, ◌<◌, ◌≤◌, ◌≡◌, refl, sym, ap, ◌∙◌, bit_or, arith, none, some,
  List, [], ◌∷◌, length, All, ltb, ltb-false, le→ltb-false, lt→ltb, Bool-cases, inl, inr,
}
use bg3le.Common.Bits.{bit_or_shifted, pow-add, two-pow-pos}
use bg3le.Common.Bytes.{IsByte, le_value}
use bg3le.Inflate.Bits.{Bits, fill, take_bits, left}
use native.Mathlib.Nat.{
  mul-le-mul_right, mul_assoc, add-mul-mod_self_left, add-mul-div_left, div-lt_iff_lt-mul,
}
use native.Mathlib.Numerals.{towards_suc}

-- The bits that the reader has in hand.
pub record IsReader (s : Bits) : Type 0 where
  pub fits : s.buffer < 2 ^ s.count
  pub bytes : All IsByte s.rest

-- The number that all bits still to be read spell.
unfoldable pub stream : Bits → ℕ
stream s = s.buffer + 2 ^ s.count * le_value s.rest

eight_more : (c : ℕ) → 2 ^ (c + 8) ≡ 256 * 2 ^ c
eight_more c = simp towards_suc (omega arith)

byte_fits : (v b c : ℕ) → v < 2 ^ c → b < 256 → v + b * 2 ^ c < 2 ^ (c + 8)
byte_fits v b c h k =
    let high : b * 2 ^ c ≤ 255 * 2 ^ c = mul-le-mul_right (2 ^ c) (omega arith) in
    omega (arith, eight_more c)

fill_lem :
    (rest : List ℕ) (need value count : ℕ)
    → value < 2 ^ count
    → All IsByte rest
    → need ≤ count + 8 * length rest
    → (rest' : List ℕ) × (value' : ℕ) × (count' : ℕ) × (fill rest need value count
        ≡ some (rest', value', count'))
      × (value' < 2 ^ count')
      × All IsByte rest'
      × (need ≤ count')
      × (count' + 8 * length rest' ≡ count + 8 * length rest)
      × (value' + 2 ^ count' * le_value rest' ≡ value + 2 ^ count * le_value rest)
unfolding fill le_value
fill_lem [] need value count h k n = (
  [],
  value,
  count,
  rw (le→ltb-false count need (omega arith)),
  h,
  k,
  omega arith,
  omega arith,
  refl,
)
fill_lem (b ∷ rest) need value count h k n = elim (Bool-cases (ltb count need)) [
  | inl p ↦
      let v = value + b * 2 ^ count in
      let (rest', value', count', e, f, g, m, l, q) =
        fill_lem rest need v (count + 8) (byte_fits value b count h k.0) k.1 (omega arith) in
      (
        rest',
        value',
        count',
        rw (p, bit_or_shifted count value b h) e,
        f,
        g,
        m,
        omega arith,
        q ∙ omega (arith, ap (λ (t : ℕ). t * le_value rest) (eight_more count)),
      )
  | inr p ↦ (b ∷ rest, value, count, rw p, h, k, ltb-false count need p, refl, refl)
]

module _ (need value count high : ℕ) (h : need ≤ count) where
  split_pow : 2 ^ count ≡ 2 ^ need * 2 ^ (count - need)
  split_pow = ap (λ (t : ℕ). 2 ^ t) (omega arith) ∙ pow-add need (count - need)

  split_value : value + 2 ^ count * high ≡ value + 2 ^ need * (2 ^ (count - need) * high)
  split_value =
      rw split_pow (ap (λ (t : ℕ). value + t) (mul_assoc (2 ^ need) (2 ^ (count - need)) high))

  low_part : (value + 2 ^ count * high) % 2 ^ need ≡ value % 2 ^ need
  low_part = rw split_value (add-mul-mod_self_left value (2 ^ need) (2 ^ (count - need) * high))

  high_part : (value + 2 ^ count * high) / 2 ^ need ≡ value / 2 ^ need + 2 ^ (count - need) * high
  high_part = rw split_value (add-mul-div_left value (2 ^ (count - need) * high) (two-pow-pos need))

  buffer_fits : value < 2 ^ count → value / 2 ^ need < 2 ^ (count - need)
  buffer_fits v = (div-lt_iff_lt-mul (two-pow-pos need)).1 (omega (arith, split_pow))

-- What `take` promises: the lowest `need` bits of the stream, with the rest of the stream behind.
pub record Taken (need : ℕ) (s : Bits) : Type 0 where
  pub next : Bits
  pub taken : take_bits need s ≡ some (stream s % 2 ^ need, next)
  pub behind : stream next ≡ stream s / 2 ^ need
  pub spent : left next + need ≡ left s
  pub reader : IsReader next

-- While `need` bits are left, `take` returns the lowest `need` bits of the number that the unread
-- bits spell, and the reader behind it spells that number with those bits shifted out and has
-- exactly `need` bits less.
pub take_bits_lem : (need : ℕ) (s : Bits) → IsReader s → need ≤ left s → Taken need s
unfolding take_bits stream
take_bits_lem need s r n =
    let (rest, value, count, e, f, g, m, l, q) =
      fill_lem s.rest need s.buffer s.count r.fits r.bytes n in
    record {
      next = record { rest = rest; buffer = value / 2 ^ need; count = count - need };
      taken = rw (e, ← q, low_part need value count (le_value rest) m) refl;
      behind = rw (← q) (sym (high_part need value count (le_value rest) m));
      spent = omega arith;
      reader = record { fits = buffer_fits need value count (le_value rest) m f; bytes = g };
    }

fill_short :
    (rest : List ℕ) (need value count : ℕ)
    → count + 8 * length rest < need
    → fill rest need value count ≡ none
unfolding fill
fill_short [] need value count h = rw (lt→ltb count need (omega arith))
fill_short (b ∷ rest) need value count h = rw (
  lt→ltb count need (omega arith),
  fill_short rest need (bit_or value (b * 2 ^ count)) (count + 8) (omega arith),
)

-- With fewer than `need` bits left `take` answers -1, whatever the bytes.
pub take_bits-none : (need : ℕ) (s : Bits) → left s < need → take_bits need s ≡ none
unfolding take_bits
take_bits-none need s h = rw (fill_short s.rest need s.buffer s.count h)
