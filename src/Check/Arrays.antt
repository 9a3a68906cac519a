-- ===== src/Check/Arrays.antt =====
-- The tests of arrays (check_tests/check_rdrand.c, lines 306-616), in a build with STUB_RDRAND.
pub mod Passes
use rd_rand.Prelude.{ℕ, ◌+◌, ◌*◌, ◌/◌, Bool, ◌&&◌, ℤ, pos, ◌==◌}
use rd_rand.Cpu.{Cpu, stub}
use rd_rand.Memory.{Machine}
use rd_rand.Arrays.{
  rdrand_get_uint8_array_retry, rdrand_get_uint16_array_retry, rdrand_get_uint32_array_retry,
  rdrand_get_uint64_array_retry,
}
use rd_rand.Bytes.{rdrand_get_bytes_retry}
use rd_rand.Reseed.{rdrand_get_uint64_array_reseed_delay, rdrand_get_uint64_array_reseed_skip}
use rd_rand.Check.{zeroed, test_zeros, test_ones}

abbrev pub array_size : ℕ
array_size = 65

abbrev pub size : ℕ
size = 64

abbrev pub offset : ℕ
offset = 16

-- RETRY_LIMIT of the tests.
abbrev pub test_retry_limit : ℤ
test_retry_limit = pos 3

-- A function that fills an array: the address, the number of items, the retry limit.
abbrev pub Filler : Type 0
Filler = ℕ → ℕ → ℤ → Machine → ℕ × Machine

-- The three blocks of a test, each with an array of its own, for items of `multiplier` bytes.
module _ (fill : Filler) (multiplier dst : ℕ) where
  -- Generate one size.
  unfoldable pub one_size : Machine → Bool × Machine
  unfolding zeroed
  one_size m =
      let count = size / multiplier in
      let (n, m') = fill dst count test_retry_limit (zeroed array_size dst m) in
      let passed =
        n == count
        && (test_zeros m'.mem dst array_size size array_size
            && test_ones m'.mem dst array_size 0 size) in
      (passed, m')

  -- Generate half size.
  unfoldable pub half_size : Machine → Bool × Machine
  unfolding zeroed
  half_size m =
      let count = size / (2 * multiplier) in
      let (n, m') = fill dst count test_retry_limit (zeroed array_size dst m) in
      let passed =
        n == count
        && (test_zeros m'.mem dst array_size (size / 2) array_size
            && test_ones m'.mem dst array_size 0 (size / 2)) in
      (passed, m')

  -- Generate half size with offset: the pointer moves by `offset / multiplier` items, and the bytes
  -- from `size / 2` on are not looked at.
  unfoldable pub half_size_with_offset : Machine → Bool × Machine
  unfolding zeroed
  half_size_with_offset m =
      let count = size / (2 * multiplier) in
      let start = dst + multiplier * (offset / multiplier) in
      let (n, m') = fill start count test_retry_limit (zeroed array_size dst m) in
      let passed =
        n == count
        && (test_zeros m'.mem dst array_size (size / 2 + offset) array_size
            && (test_zeros m'.mem dst array_size 0 offset
                && test_ones m'.mem dst array_size offset (size / 2))) in
      (passed, m')

-- The test: all blocks, one after another. (An assertion that fails ends the test at once.)
unfoldable pub array_test : Filler → (multiplier dst : ℕ) → Machine → Bool
unfolding one_size half_size half_size_with_offset
array_test fill multiplier dst m =
    let (whole, m1) = one_size fill multiplier dst m in
    let (half, m2) = half_size fill multiplier dst m1 in
    let (moved, _) = half_size_with_offset fill multiplier dst m2 in whole && (half && moved)

module _ (cpu : Cpu) (dst : ℕ) (m : Machine) where
  unfoldable pub array_bytes : Bool
  array_bytes = array_test (rdrand_get_bytes_retry stub cpu) 1 dst m

  unfoldable pub array_8 : Bool
  array_8 = array_test (rdrand_get_uint8_array_retry stub cpu) 1 dst m

  unfoldable pub array_16 : Bool
  array_16 = array_test (rdrand_get_uint16_array_retry stub cpu) 2 dst m

  unfoldable pub array_32 : Bool
  array_32 = array_test (rdrand_get_uint32_array_retry stub cpu) 4 dst m

  unfoldable pub array_64 : Bool
  array_64 = array_test (rdrand_get_uint64_array_retry stub cpu) 8 dst m

  unfoldable pub array_reseed_delay_64 : Bool
  array_reseed_delay_64 = array_test (rdrand_get_uint64_array_reseed_delay stub cpu) 8 dst m

  unfoldable pub array_reseed_skip_64 : Bool
  array_reseed_skip_64 = array_test (rdrand_get_uint64_array_reseed_skip stub cpu) 8 dst m

  unfoldable pub arrays_suite : Bool
  arrays_suite =
      array_8
      && (array_16
          && (array_32
              && (array_64 && (array_bytes && (array_reseed_delay_64 && array_reseed_skip_64)))))
