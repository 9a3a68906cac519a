-- ===== src/Bits.antt =====
-- Laws of the bitwise conjunction at variables: its lowest digit, and a mask of a single bit.
use Prim.Native.Nat.{digits, bit_and-bitwise}
use rd_rand.Prelude.{
  ℕ, zero, suc, ◌+◌, ◌*◌, ◌/◌, ◌%◌, ◌^◌, ◌≤◌, ◌≡◌, refl, sym, ◌∙◌, arith, bit_and, min,
}
use native.Mathlib.Nat.{pow-suc, div-div-eq-div-mul}

-- The conjunction of the `k` lowest digits.
unfoldable conjunction : ℕ → ℕ → ℕ → ℕ
conjunction zero a b = 0
conjunction (suc k) a b = conjunction k (a / 2) (b / 2) * 2 + min (a % 2) (b % 2)

-- There is nothing to find in a number without digits, on either side.
conjunction_left : (k b : ℕ) → conjunction k 0 b ≡ 0
unfolding conjunction
conjunction_left zero b = refl
conjunction_left (suc k) b = omega (arith, conjunction_left k (b / 2))

conjunction_right : (k a : ℕ) → conjunction k a 0 ≡ 0
unfolding conjunction
conjunction_right zero a = refl
conjunction_right (suc k) a = omega (arith, conjunction_right k (a / 2))

-- The native operation runs on the number itself as its fuel; any number of digits does that covers it.
digits-conjunction :
    (k fuel a b : ℕ) → a ≤ k → a ≤ fuel → digits (λ y. 0) min fuel a b ≡ conjunction k a b
unfolding conjunction
digits-conjunction k zero zero b low enough = sym (conjunction_left k b)
digits-conjunction k (suc fuel) zero b low enough = sym (conjunction_left k b)
digits-conjunction k zero (suc a) b low enough = absurd (omega arith)
digits-conjunction zero (suc fuel) (suc a) b low enough = absurd (omega arith)
digits-conjunction (suc k) (suc fuel) (suc a) b low enough =
    let rest = digits-conjunction k fuel (suc a / 2) (b / 2) (omega arith) (omega arith) in
    omega (arith, rest)

covered : (k a b : ℕ) → a ≤ k → bit_and a b ≡ conjunction k a b
covered k a b low = bit_and-bitwise a b ∙ digits-conjunction k a a b low (omega arith)

-- The lowest digit of a conjunction.
pub bit_and_digit : (a b : ℕ) → bit_and a b ≡ bit_and (a / 2) (b / 2) * 2 + min (a % 2) (b % 2)
unfolding conjunction
bit_and_digit a b =
    omega (arith, covered (suc a) a b (omega arith), covered a (a / 2) (b / 2) (omega arith))

-- The bit at position `k`, in its place.
pub bit_and-pow : (k a : ℕ) → bit_and a (2 ^ k) ≡ a / 2 ^ k % 2 * 2 ^ k
bit_and-pow zero a = omega (
  arith,
  bit_and_digit a 1,
  covered (a / 2) (a / 2) 0 (omega arith),
  conjunction_right (a / 2) (a / 2),
)
bit_and-pow (suc k) a =
    let twice : 2 ^ suc k ≡ 2 * 2 ^ k = omega (arith, pow-suc 2 k) in
    let halved : a / (2 * 2 ^ k) ≡ a / 2 / 2 ^ k = sym (div-div-eq-div-mul a 2 (2 ^ k)) in
    let half : 2 * 2 ^ k / 2 ≡ 2 ^ k = omega arith in
    let even : 2 * 2 ^ k % 2 ≡ 0 = omega arith in
    rw (twice, halved, bit_and_digit a (2 * 2 ^ k), half, even, bit_and-pow k (a / 2)) (omega arith)
