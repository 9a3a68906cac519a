-- ===== src/Check/Steps/Passes.antt =====
-- When the tests of single numbers pass.
use rd_rand.Prelude.{ℕ, ◌≤◌, ◌≡◌, inr, refl, arith, Bool, true, List, [], ◌∷◌, ℤ, pos}
use rd_rand.Cpu.{
  Cpu, stub, rdrand_success, rdrand_failure, rdrand16_step, rdrand32_step, rdrand64_step,
}
use rd_rand.Retry.{
  fetch, effective_limit, rdrand_get_uint16_retry, rdrand_get_uint32_retry, rdrand_get_uint64_retry,
}
use rd_rand.Memory.{Machine, le_bytes}
use rd_rand.Arrays.Stub.{ones, retry-first}
use rd_rand.Check.{zeroed}
use rd_rand.Check.Ranges.{test_zeros-ones, test_ones-ones}
use rd_rand.Check.Steps.{
  dest_size, stepped, all_ones, rdrand_step_16_stub, rdrand_step_32_stub, rdrand_step_64_stub,
  rdrand_stub_methods_suite, fetched_into, retry_limits, for_each, rdrand_retry_16_test,
  rdrand_retry_32_test, rdrand_retry_64_test, rdrand_retry_methods_suite,
}

module _ (dst : ℕ) where
  all_ones-passes :
      (n : ℕ) (m : Machine)
      → n ≤ 9
      → all_ones n dst rdrand_success (ones dst n (zeroed dest_size dst m)).mem ≡ true
  unfolding all_ones
  all_ones-passes n m room = rw (
    test_zeros-ones 9 dst dst 0 n m (omega arith) n 9 room (omega arith) (inr (omega arith)),
    test_ones-ones 9 dst dst 0 n m (omega arith) 0 n (omega arith) room (omega arith) (omega arith),
  )

module _ (cpu : Cpu) (dst : ℕ) where
  pub stub_suite-passes : (m : Machine) → rdrand_stub_methods_suite cpu dst m ≡ true
  unfolding rdrand_stub_methods_suite rdrand_step_16_stub rdrand_step_32_stub rdrand_step_64_stub
      stepped rdrand16_step rdrand32_step rdrand64_step le_bytes
  stub_suite-passes m = rw (
    all_ones-passes dst 2 m (omega arith),
    all_ones-passes dst 4 m (omega arith),
    all_ones-passes dst 8 m (omega arith),
  )

  -- A test that passes on every machine passes in each round.
  for_each-passes :
      (test : ℤ → Machine → Bool × Machine)
      → ((retry : ℤ) (m : Machine) → (test retry m).0 ≡ true)
      → (limits : List ℤ) (m : Machine) → for_each test limits m ≡ true
  unfolding for_each
  for_each-passes test passes [] m = refl
  for_each-passes test passes (retry ∷ limits) m =
      rw (passes retry m, for_each-passes test passes limits (test retry m).1)

  retry_16-passes : (retry : ℤ) (m : Machine) → (rdrand_retry_16_test cpu dst retry m).0 ≡ true
  unfolding rdrand_retry_16_test rdrand_get_uint16_retry rdrand16_step fetched_into le_bytes fetch
  retry_16-passes retry m =
      rw (retry-first (rdrand16_step stub cpu) (pos 0) (effective_limit retry) m.ticks refl)
        (all_ones-passes dst 2 m (omega arith))

  retry_32-passes : (retry : ℤ) (m : Machine) → (rdrand_retry_32_test cpu dst retry m).0 ≡ true
  unfolding rdrand_retry_32_test rdrand_get_uint32_retry rdrand32_step fetched_into le_bytes fetch
  retry_32-passes retry m =
      rw (retry-first (rdrand32_step stub cpu) rdrand_failure (effective_limit retry) m.ticks refl)
        (all_ones-passes dst 4 m (omega arith))

  retry_64-passes : (retry : ℤ) (m : Machine) → (rdrand_retry_64_test cpu dst retry m).0 ≡ true
  unfolding rdrand_retry_64_test rdrand_get_uint64_retry rdrand64_step fetched_into le_bytes fetch
  retry_64-passes retry m =
      rw (retry-first (rdrand64_step stub cpu) rdrand_failure (effective_limit retry) m.ticks refl)
        (all_ones-passes dst 8 m (omega arith))

  pub retry_suite-passes : (m : Machine) → rdrand_retry_methods_suite cpu dst m ≡ true
  unfolding rdrand_retry_methods_suite
  retry_suite-passes m = rw (
    for_each-passes (rdrand_retry_16_test cpu dst) retry_16-passes retry_limits m,
    for_each-passes (rdrand_retry_32_test cpu dst) retry_32-passes retry_limits m,
    for_each-passes (rdrand_retry_64_test cpu dst) retry_64-passes retry_limits m,
  )
