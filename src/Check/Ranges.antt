-- ===== src/Check/Ranges.antt =====
-- What the tests on byte ranges say of the memory.
use rd_rand.Prelude.{
  ℕ, zero, suc, ◌+◌, ◌-◌, ◌≤◌, ◌<◌, ◌≡◌, ◌↔◌, ◌⊎◌, inl, inr, refl, subst, ap, ◌∙◌, arith, true,
  Bool-cases, ◌==◌, replicate, length-replicate, get_or, length,
}
use rd_rand.Memory.{Mem, Machine, store_bytes}
use rd_rand.Memory.Store.{store_bytes_outside, store_bytes_inside}
use rd_rand.Arrays.Stub.{ones}
use rd_rand.Check.{zeroed, count_errs, test_bytes, test_zeros, test_ones}

-- Every byte of a range of the array is `byte`.
abbrev pub AllBytes : Mem → (byte arr from to : ℕ) → Type 0
AllBytes m byte arr from to = (i : ℕ) → from ≤ i → i < to → m (arr + i) ≡ byte

module _ (m : Mem) (byte arr : ℕ) where
  count_errs-le : (left i errs : ℕ) → errs ≤ count_errs m byte arr left i errs
  unfolding count_errs
  count_errs-le zero i errs = omega arith
  count_errs-le (suc left) i errs = elim (Bool-cases (m (arr + i) == byte)) [
    | inl same ↦ rw same (count_errs-le left (i + 1) errs)
    | inr other ↦ rw other (omega (arith, count_errs-le left (i + 1) (errs + 1)))
  ]

  count_errs-all :
      (left i : ℕ) → AllBytes m byte arr i (i + left) → count_errs m byte arr left i 0 ≡ 0
  unfolding count_errs
  count_errs-all zero i all = refl
  count_errs-all (suc left) i all = rw (all i (omega arith) (omega arith)) (
      let same : (byte == byte) ≡ true = ground arith in
      rw same (count_errs-all left (i + 1) (λ j from to. all j (omega arith) (omega arith))))

  AllBytes-suc :
      (i to : ℕ) → m (arr + i) ≡ byte → AllBytes m byte arr (i + 1) to → AllBytes m byte arr i to
  AllBytes-suc i to first all j from below = elim (Bool-cases (i == j)) [
    | inl same ↦ subst (λ k. m (arr + k) ≡ byte) (ground arith) first
    | inr other ↦ all j (ground arith) below
  ]

  all-count_errs :
      (left i : ℕ) → count_errs m byte arr left i 0 ≡ 0 → AllBytes m byte arr i (i + left)
  unfolding count_errs
  all-count_errs zero i none_left = λ j from to. absurd (omega arith)
  all-count_errs (suc left) i counted = elim (Bool-cases (m (arr + i) == byte)) [
    | inl same ↦ AllBytes-suc i (i + suc left) (ground arith) (
        subst (AllBytes m byte arr (i + 1)) (omega arith)
          (all-count_errs left (i + 1) (rw same at counted)))
    | inr other ↦ absurd (omega (arith, count_errs-le left (i + 1) 1, rw other at counted))
  ]

  test_bytes_iff :
      (arr_size from to : ℕ)
      → (test_bytes m byte arr arr_size from to ≡ true)
        ↔ ((from ≤ to) × (to ≤ arr_size) × AllBytes m byte arr from to)
  unfolding test_bytes
  test_bytes_iff arr_size from to = (forward, backward)
    where
      ranged :
          from ≤ to
          → to ≤ arr_size
          → count_errs m byte arr (to - from) from 0 ≡ 0
          → test_bytes m byte arr arr_size from to ≡ true
      ranged p q e = ground arith

      forward :
          test_bytes m byte arr arr_size from to ≡ true
          → (from ≤ to) × (to ≤ arr_size) × AllBytes m byte arr from to
      forward h =
          let range : (from ≤ to) × (to ≤ arr_size) = (ground arith, ground arith) in
          let none_differ : count_errs m byte arr (to - from) from 0 ≡ 0 = ground arith in
          let e : from + (to - from) ≡ to = omega arith in
          (
            range.0,
            range.1,
            subst (AllBytes m byte arr from) e (all-count_errs (to - from) from none_differ),
          )

      backward :
          (from ≤ to) × (to ≤ arr_size) × AllBytes m byte arr from to
          → test_bytes m byte arr arr_size from to ≡ true
      backward h =
          let e : to ≡ from + (to - from) = omega (arith, h.0) in
          let none_differ : count_errs m byte arr (to - from) from 0 ≡ 0 =
            count_errs-all (to - from) from (subst (AllBytes m byte arr from) e h.2) in
          ranged h.0 h.1 none_differ

-- `test_zeros` and `test_ones` are TRUE exactly when the range lies in the array and every byte of it
-- is 0, or 255.
pub test_ranges :
    (m : Mem) (arr arr_size from to : ℕ)
    → ((test_zeros m arr arr_size from to ≡ true)
        ↔ ((from ≤ to) × (to ≤ arr_size) × AllBytes m 0 arr from to))
      × ((test_ones m arr arr_size from to ≡ true)
          ↔ ((from ≤ to) × (to ≤ arr_size) × AllBytes m 255 arr from to))
unfolding test_zeros test_ones
test_ranges m arr arr_size from to =
    (test_bytes_iff m 0 arr arr_size from to, test_bytes_iff m 255 arr arr_size from to)

get_or-replicate : (k i b : ℕ) → i < k → get_or (replicate k b) i 0 ≡ b
get_or-replicate zero i b h = absurd (omega arith)
get_or-replicate (suc k) zero b h = refl
get_or-replicate (suc k) (suc i) b h = get_or-replicate k i b (omega arith)

pub store-replicate :
    (m : Mem) (a k b p : ℕ) → a ≤ p → p < a + k → store_bytes m a (replicate k b) p ≡ b
store-replicate m a k b p from below =
    let e : p ≡ a + (p - a) = omega arith in
    let sized : length (replicate k b) ≡ k = length-replicate k b in
    ap (store_bytes m a (replicate k b)) e
    ∙ store_bytes_inside m a (replicate k b) (p - a) (omega arith)
    ∙ get_or-replicate k (p - a) b (omega arith)

-- A local array, after `n` bytes of ones were stored at its byte `lo`: the bytes outside are
-- still zero, and those inside are ones.
module _ (size dst a lo n : ℕ) (m : Machine) (place : a ≡ dst + lo) where
  pub test_zeros-ones :
      (from to : ℕ)
      → from ≤ to
      → to ≤ size
      → (to ≤ lo) ⊎ (lo + n ≤ from)
      → test_zeros (ones a n (zeroed size dst m)).mem dst size from to ≡ true
  unfolding zeroed
  test_zeros-ones from to ordered inside outside =
      (test_ranges (ones a n (zeroed size dst m)).mem dst size from to).0.1 (
        ordered,
        inside,
        λ i p q.
            store_bytes_outside (zeroed size dst m).mem a (replicate n 255) (dst + i)
              (omega (arith, length-replicate {A = ℕ} n 255))
            ∙ store-replicate m.mem dst size 0 (dst + i) (omega arith) (omega arith),
      )

  pub test_ones-ones :
      (from to : ℕ)
      → from ≤ to
      → to ≤ size
      → lo ≤ from
      → to ≤ lo + n
      → test_ones (ones a n (zeroed size dst m)).mem dst size from to ≡ true
  test_ones-ones from to ordered inside low high =
      (test_ranges (ones a n (zeroed size dst m)).mem dst size from to).1.1 (
        ordered,
        inside,
        λ i p q.
            store-replicate (zeroed size dst m).mem a n 255 (dst + i) (omega arith) (omega arith),
      )
