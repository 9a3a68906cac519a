-- ===== src/Aes/Power/Law.antt =====
-- `isPowerOfTwo` holds of the powers of two, and of nothing else.
use native.Mathlib.Decide.{ℕ_discrete}
use native.Mathlib.Nat.{pow-suc, one-le-pow}
use rd_rand.Prelude.{
  ℕ, zero, suc, ◌+◌, ◌-◌, ◌*◌, ◌/◌, ◌%◌, ◌^◌, ◌≤◌, ◌<◌, ◌≡◌, ◌↔◌, refl, subst, arith, bit_and, true,
}
use rd_rand.Bits.{bit_and_digit}
use rd_rand.Aes.Power.{is_power_of_two}

bit_and_self : (n x : ℕ) → x ≤ n → bit_and x x ≡ x
bit_and_self n zero h = refl
bit_and_self zero (suc x) h = absurd (omega arith)
bit_and_self (suc n) (suc x) h =
    omega (arith, bit_and_digit (suc x) (suc x), bit_and_self n (suc x / 2) (omega arith))

-- The test `x & (x - 1)` at an even number, and at an odd one.
and_pred-even : (y : ℕ) → 0 < y → bit_and (2 * y) (2 * y - 1) ≡ 2 * bit_and y (y - 1)
and_pred-even y pos =
    let a : 2 * y / 2 ≡ y = omega arith in
    let b : (2 * y - 1) / 2 ≡ y - 1 = omega arith in
    let c : 2 * y % 2 ≡ 0 = omega arith in
    rw (bit_and_digit (2 * y) (2 * y - 1), a, b, c) (omega arith)

and_pred-odd : (y : ℕ) → bit_and (2 * y + 1) (2 * y) ≡ 2 * y
and_pred-odd y =
    let a : (2 * y + 1) / 2 ≡ y = omega arith in
    let b : 2 * y / 2 ≡ y = omega arith in
    let c : 2 * y % 2 ≡ 0 = omega arith in
    rw (bit_and_digit (2 * y + 1) (2 * y), a, b, c, bit_and_self y y (omega arith)) (omega arith)

pow_accepted : (k : ℕ) → bit_and (2 ^ k) (2 ^ k - 1) ≡ 0
pow_accepted zero = refl
pow_accepted (suc k) =
    let twice : 2 ^ suc k ≡ 2 * 2 ^ k = omega (arith, pow-suc 2 k) in
    rw (twice, and_pred-even (2 ^ k) (one-le-pow k 2 (omega arith)), pow_accepted k) refl

-- By halving: fuel `n` is a bound of the number.
accepted_pow : (n x : ℕ) → x ≤ n → 0 < x → bit_and x (x - 1) ≡ 0 → (k : ℕ) × (x ≡ 2 ^ k)
accepted_pow zero x h pos e = absurd (omega arith)
accepted_pow (suc n) x h pos e = elim (ℕ_discrete (x % 2) 0) [
  | yes even ↦
      let y : ℕ = x / 2 in
      let double : x ≡ 2 * y = omega arith in
      let at_half : bit_and (2 * y) (2 * y - 1) ≡ 0 = subst (λ z. bit_and z (z - 1) ≡ 0) double e in
      let (k, half_pow) =
        accepted_pow n y (omega arith) (omega arith)
          (omega (arith, and_pred-even y (omega arith))) in
      (suc k, omega (arith, pow-suc 2 k))
  | no odd ↦
      let y : ℕ = x / 2 in
      let double : x ≡ 2 * y + 1 = omega arith in
      let pred : 2 * y + 1 - 1 ≡ 2 * y = omega arith in
      let at_half : bit_and (2 * y + 1) (2 * y) ≡ 0 =
        subst (λ z. bit_and (2 * y + 1) z ≡ 0) pred (subst (λ z. bit_and z (z - 1) ≡ 0) double e) in
      (zero, omega (arith, and_pred-odd y))
]

-- `isPowerOfTwo` returns a true value exactly for the powers of two.
pub is_power_of_two_iff : (x : ℕ) → (is_power_of_two x ≡ true) ↔ ((k : ℕ) × (x ≡ 2 ^ k))
unfolding is_power_of_two
is_power_of_two_iff x = (
  λ e. accepted_pow x x (omega arith) (ground arith) (ground arith),
  λ (k, p). rw p (ground (arith, pow_accepted k, one-le-pow k 2)),
)
