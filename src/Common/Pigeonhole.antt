-- ===== src/Common/Pigeonhole.antt =====
-- No more numbers below a bound are different from one another than the bound.
use Prim.Native.Nat.{ℕ, zero, suc, ◌≤◌, ◌<◌}
use mathlib.Core.Path.{◌≡◌, sym, ◌∙◌}
use mathlib.Core.Logic.{inl, inr}
use native.Mathlib.Omega.{arith}
use bg3le.Common.Tests.{◌==◌, if◌then◌else◌, Bool-cases, ==_iff}

-- `f` with the value `top` replaced.
abbrev moved : ℕ → ℕ → (ℕ → ℕ) → ℕ → ℕ
moved top last f i = if f i == top then last else f i

pub injective-le :
    (n m : ℕ) (f : ℕ → ℕ)
    → ((i : ℕ) → i < m → f i < n)
    → ((i j : ℕ) → i < m → j < m → f i ≡ f j → i ≡ j)
    → m ≤ n
injective-le n zero f below apart = omega arith
injective-le zero (suc m) f below apart =
    let no : f 0 < 0 = below 0 (omega arith) in absurd (omega (arith, no))
injective-le (suc n) (suc m) f below apart =
    let rest =
      injective-le n m (moved n (f m) f)
        (λ i small.
          (let bi : f i < suc n = below i (omega arith) in
            let bm : f m < suc n = below m (omega arith) in
            let same : f i ≡ f m → i ≡ m = apart i m (omega arith) (omega arith) in
            elim (Bool-cases (f i == n)) [
              | inl p ↦
                  let at : f i ≡ n = (==_iff (f i) n).0 p in
                  let differ : f m ≡ n → ⊥ = λ e. omega (arith, same (at ∙ sym e)) in
                  rw p (ground arith)
              | inr p ↦ rw p (ground arith)
            ]))
        (λ i j small small' e.
          (let si : f i ≡ f j → i ≡ j = apart i j (omega arith) (omega arith) in
            let im : f i ≡ f m → i ≡ m = apart i m (omega arith) (omega arith) in
            let jm : f j ≡ f m → j ≡ m = apart j m (omega arith) (omega arith) in ground arith)) in
    omega (arith, rest)
