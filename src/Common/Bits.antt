-- ===== src/Common/Bits.antt =====
-- `|` of disjoint bit fields is a sum, at every width.
use Prim.Native.Nat.{ℕ, zero, suc, ◌+◌, ◌*◌, ◌/◌, ◌%◌, ◌^◌, ◌≤◌, ◌<◌, max, bit_or, bit_xor}
use Prim.Native.Nat.{digits, differ, bit_or-bitwise, bit_xor-bitwise}
use mathlib.Core.Path.{◌≡◌, refl, sym, ap, ◌∙◌}
use mathlib.Core.WellFounded
use bg3le.Common.Order.{lt_wf}
use native.Mathlib.Nat.{pow-suc, add-zero, add-suc, mul_assoc, one-le-pow}
use native.Mathlib.Omega.{arith}

abbrev or_digits : ℕ → ℕ → ℕ → ℕ
or_digits n a b = digits (λ y. y) max n a b

-- Any fuel from the first number on gives the same digits.
or_digits_enough :
    (x y fuel other : ℕ) → x ≤ fuel → x ≤ other → or_digits fuel x y ≡ or_digits other x y
or_digits_enough zero y zero zero h g = refl
or_digits_enough zero y zero (suc other) h g = refl
or_digits_enough zero y (suc fuel) zero h g = refl
or_digits_enough zero y (suc fuel) (suc other) h g = refl
or_digits_enough (suc x) y zero other h g = absurd (omega arith)
or_digits_enough (suc x) y (suc fuel) zero h g = absurd (omega arith)
or_digits_enough (suc x) y (suc fuel) (suc other) h g =
    let half : suc x / 2 ≤ fuel = omega arith in
    omega (arith, or_digits_enough (suc x / 2) (y / 2) fuel other half (omega arith))

-- The lowest digit of `|`, and the digits above it.
pub bit_or_step : (x y : ℕ) → bit_or x y ≡ max (x % 2) (y % 2) + 2 * bit_or (x / 2) (y / 2)
bit_or_step zero y = omega (arith, bit_or-bitwise 0 y, bit_or-bitwise 0 (y / 2))
bit_or_step (suc x) y =
    let fewer = or_digits_enough (suc x / 2) (y / 2) x (suc x / 2) (omega arith) (omega arith) in
    omega (arith, fewer, bit_or-bitwise (suc x) y, bit_or-bitwise (suc x / 2) (y / 2))

pub zero-bit_or : (b : ℕ) → bit_or 0 b ≡ b
zero-bit_or b = simp bit_or-bitwise (omega arith)

half_shift : (q k : ℕ) → q * 2 ^ suc k ≡ 2 * (q * 2 ^ k)
half_shift q k = omega (arith, ap (λ (t : ℕ). q * t) (pow-suc 2 k))

-- `r | (q << k)` is a sum when `r` fits in `k` bits.
pub bit_or_shifted : (k r q : ℕ) → r < 2 ^ k → bit_or r (q * 2 ^ k) ≡ r + q * 2 ^ k
bit_or_shifted zero r q h =
    let small : r ≡ 0 = omega arith in rw small (rw zero-bit_or (omega arith))
bit_or_shifted (suc k) r q h = omega (
  arith,
  bit_or_step r (q * 2 ^ suc k),
  half_shift q k,
  pow-suc 2 k,
  ap (λ (t : ℕ). bit_or (r / 2) t) (half_of q k),
  bit_or_shifted k (r / 2) q (omega (arith, pow-suc 2 k)),
)
  where
    half_of : (q k : ℕ) → q * 2 ^ suc k / 2 ≡ q * 2 ^ k
    half_of q k = omega (arith, half_shift q k)

bit_or-zero : (x : ℕ) → bit_or x 0 ≡ x
bit_or-zero x = WellFounded.induction lt_wf {C = λ y. bit_or y 0 ≡ y} x from_half
  where
    from_half : (x : ℕ) → ((y : ℕ) → y < x → bit_or y 0 ≡ y) → bit_or x 0 ≡ x
    from_half zero ih = zero-bit_or 0
    from_half (suc x) ih =
        let half : suc x / 2 < suc x = omega arith in
        omega (arith, ih (suc x / 2) half, bit_or_step (suc x) 0)

pub bit_or_comm : (a b : ℕ) → bit_or a b ≡ bit_or b a
bit_or_comm a = WellFounded.induction lt_wf {C = λ k. (b : ℕ) → bit_or k b ≡ bit_or b k} a step
  where
    step :
        (n : ℕ)
        → ((m : ℕ) → m < n → (b : ℕ) → bit_or m b ≡ bit_or b m)
        → (b : ℕ) → bit_or n b ≡ bit_or b n
    step zero ih b = zero-bit_or b ∙ sym (bit_or-zero b)
    step (suc n) ih b =
        omega (
          arith,
          bit_or_step (suc n) b,
          bit_or_step b (suc n),
          ih (suc n / 2) (omega arith) (b / 2),
        )

pub bit_or-lt : (k a b : ℕ) → a < 2 ^ k → b < 2 ^ k → bit_or a b < 2 ^ k
bit_or-lt zero a b h k =
    let za : a ≡ 0 = omega arith in let zb : b ≡ 0 = omega arith in rw (za, zb) (omega arith)
bit_or-lt (suc k) a b ha hb = omega (
  arith,
  bit_or_step a b,
  pow-suc 2 k,
  bit_or-lt k (a / 2) (b / 2) (omega (arith, pow-suc 2 k)) (omega (arith, pow-suc 2 k)),
)

pub pow-add : (a b : ℕ) → 2 ^ (a + b) ≡ 2 ^ a * 2 ^ b
pow-add a zero = rw add-zero (omega arith)
pow-add a (suc b) =
    rw (add-suc a b, pow-suc 2 (a + b), pow-suc 2 b, pow-add a b) (mul_assoc (2 ^ a) (2 ^ b) 2)

pub two-pow-pos : (k : ℕ) → 0 < 2 ^ k
two-pow-pos k = one-le-pow k 2 (omega arith)

differ-lt : (x y : ℕ) → x < 2 → y < 2 → differ x y < 2
differ-lt zero y h k = k
differ-lt (suc x) zero h k = h
differ-lt (suc x) (suc y) h k = differ-lt x y (omega arith) (omega arith)

xor_digits-lt : (n k a b : ℕ) → a < 2 ^ k → b < 2 ^ k → digits (λ y. y) differ n a b < 2 ^ k
xor_digits-lt zero k a b h g = g
xor_digits-lt (suc n) k zero b h g = g
xor_digits-lt (suc n) zero (suc a) b h g = absurd (omega arith)
xor_digits-lt (suc n) (suc k) (suc a) b h g = omega (
  arith,
  pow-suc 2 k,
  xor_digits-lt n k (suc a / 2) (b / 2) (omega (arith, pow-suc 2 k)) (omega (arith, pow-suc 2 k)),
  differ-lt (suc a % 2) (b % 2) (omega arith) (omega arith),
)

pub bit_xor-lt : (k a b : ℕ) → a < 2 ^ k → b < 2 ^ k → bit_xor a b < 2 ^ k
bit_xor-lt k a b h g = rw bit_xor-bitwise (xor_digits-lt a k a b h g)
