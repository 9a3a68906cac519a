-- ===== src/Check/Steps.antt =====
-- The tests of single numbers (check_tests/check_rdrand.c, lines 34-303), in a build with
-- STUB_RDRAND. The native steps, which that build has too, execute RDRAND as the build `native` does.
-- `dst` is the address of the local array.
pub mod Passes
pub mod Native
use rd_rand.Prelude.{
  ℕ, Bool, true, not, ◌&&◌, Option, none, some, List, [], ◌∷◌, ℤ, pos, negsuc, ◌==ℤ◌,
}
use rd_rand.Cpu.{
  Cpu, Build, stub, Step, rdrand_success, rdrand16_step, rdrand32_step, rdrand64_step,
}
use rd_rand.Retry.{Fetch, rdrand_get_uint16_retry, rdrand_get_uint32_retry, rdrand_get_uint64_retry}
use rd_rand.Memory.{Mem, Machine, store_bytes, le_bytes}
use rd_rand.Check.{zeroed, test_zeros, test_ones}

abbrev pub dest_size : ℕ
dest_size = 9

-- The machine after a step that stores `n` bytes at `dst`.
unfoldable pub stepped : (n dst : ℕ) → Step → Machine → Machine
stepped n dst r m = record m { ticks = r.ticks; mem = store_bytes m.mem dst (le_bytes n r.x) }

-- The three assertions: the code, zeros behind the number, and ones in it.
unfoldable pub all_ones : (n dst : ℕ) → ℤ → Mem → Bool
all_ones n dst rc mem =
    rc ==ℤ rdrand_success
    && (test_zeros mem dst dest_size n dest_size && test_ones mem dst dest_size 0 n)

-- The same, with any number that is not zero.
unfoldable pub not_zero : (n dst : ℕ) → ℤ → Mem → Bool
not_zero n dst rc mem =
    rc ==ℤ rdrand_success
    && (test_zeros mem dst dest_size n dest_size && not (test_zeros mem dst dest_size 0 n))

module _ (cpu : Cpu) (dst : ℕ) where
  unfoldable pub rdrand_step_16_stub : Machine → Bool
  unfolding all_ones stepped zeroed
  rdrand_step_16_stub m =
      let r = rdrand16_step stub cpu m.ticks in
      all_ones 2 dst r.rc (stepped 2 dst r (zeroed dest_size dst m)).mem

  unfoldable pub rdrand_step_32_stub : Machine → Bool
  unfolding all_ones stepped zeroed
  rdrand_step_32_stub m =
      let r = rdrand32_step stub cpu m.ticks in
      all_ones 4 dst r.rc (stepped 4 dst r (zeroed dest_size dst m)).mem

  unfoldable pub rdrand_step_64_stub : Machine → Bool
  unfolding all_ones stepped zeroed
  rdrand_step_64_stub m =
      let r = rdrand64_step stub cpu m.ticks in
      all_ones 8 dst r.rc (stepped 8 dst r (zeroed dest_size dst m)).mem

  -- The suite runs each test in a process of its own.
  unfoldable pub rdrand_stub_methods_suite : Machine → Bool
  rdrand_stub_methods_suite m =
      rdrand_step_16_stub m && (rdrand_step_32_stub m && rdrand_step_64_stub m)

  module _ (native : Build) where
    unfoldable pub rdrand_step_16_native : Machine → Bool
    unfolding not_zero stepped zeroed
    rdrand_step_16_native m =
        let r = rdrand16_step native cpu m.ticks in
        not_zero 2 dst r.rc (stepped 2 dst r (zeroed dest_size dst m)).mem

    unfoldable pub rdrand_step_32_native : Machine → Bool
    unfolding not_zero stepped zeroed
    rdrand_step_32_native m =
        let r = rdrand32_step native cpu m.ticks in
        not_zero 4 dst r.rc (stepped 4 dst r (zeroed dest_size dst m)).mem

    unfoldable pub rdrand_step_64_native : Machine → Bool
    unfolding not_zero stepped zeroed
    rdrand_step_64_native m =
        let r = rdrand64_step native cpu m.ticks in
        not_zero 8 dst r.rc (stepped 8 dst r (zeroed dest_size dst m)).mem

    unfoldable pub rdrand_native_steps_methods_suite : Machine → Bool
    rdrand_native_steps_methods_suite m =
        rdrand_step_16_native m && (rdrand_step_32_native m && rdrand_step_64_native m)

-- What a function that fetches one number of `n` bytes does to the machine.
unfoldable pub fetched_into : (n dst : ℕ) → Fetch → Machine → Machine
fetched_into n dst f m = elim f.dest [
  | none ↦ record m { ticks = f.ticks }
  | some x ↦ record m { ticks = f.ticks; mem = store_bytes m.mem dst (le_bytes n x) }
]

-- `for (i = -2; i <= RETRY_LIMIT; i++) test(i)`, in one process.
abbrev pub retry_limits : List ℤ
retry_limits = negsuc 1 ∷ negsuc 0 ∷ pos 0 ∷ pos 1 ∷ pos 2 ∷ pos 3 ∷ []

unfoldable pub for_each : (ℤ → Machine → Bool × Machine) → List ℤ → Machine → Bool
for_each test [] m = true
for_each test (retry ∷ rest) m = let (passed, m') = test retry m in passed && for_each test rest m'

module _ (cpu : Cpu) (dst : ℕ) where
  unfoldable pub rdrand_retry_16_test : ℤ → Machine → Bool × Machine
  unfolding all_ones fetched_into zeroed
  rdrand_retry_16_test retry m =
      let f = rdrand_get_uint16_retry stub cpu retry m.ticks in
      let m' = fetched_into 2 dst f (zeroed dest_size dst m) in (all_ones 2 dst f.rc m'.mem, m')

  unfoldable pub rdrand_retry_32_test : ℤ → Machine → Bool × Machine
  unfolding all_ones fetched_into zeroed
  rdrand_retry_32_test retry m =
      let f = rdrand_get_uint32_retry stub cpu retry m.ticks in
      let m' = fetched_into 4 dst f (zeroed dest_size dst m) in (all_ones 4 dst f.rc m'.mem, m')

  unfoldable pub rdrand_retry_64_test : ℤ → Machine → Bool × Machine
  unfolding all_ones fetched_into zeroed
  rdrand_retry_64_test retry m =
      let f = rdrand_get_uint64_retry stub cpu retry m.ticks in
      let m' = fetched_into 8 dst f (zeroed dest_size dst m) in (all_ones 8 dst f.rc m'.mem, m')

  unfoldable pub rdrand_retry_methods_suite : Machine → Bool
  unfolding for_each rdrand_retry_16_test rdrand_retry_32_test rdrand_retry_64_test
  rdrand_retry_methods_suite m =
      for_each rdrand_retry_16_test retry_limits m
      && (for_each rdrand_retry_32_test retry_limits m
          && for_each rdrand_retry_64_test retry_limits m)
