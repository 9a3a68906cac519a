-- ===== src/Check/Arrays/Passes.antt =====
-- The tests of arrays pass.
use rd_rand.Prelude.{
  ℕ, ◌+◌, ◌*◌, ◌/◌, ◌%◌, ◌^◌, ◌<◌, ◌≡◌, refl, ap, ◌∙◌, arith, true, inl, inr, ◌==◌,
}
use rd_rand.Cpu.{Cpu, stub}
use rd_rand.Memory.{Machine}
use rd_rand.Arrays.{
  rdrand_get_uint8_array_retry, rdrand_get_uint16_array_retry, rdrand_get_uint32_array_retry,
  rdrand_get_uint64_array_retry,
}
use rd_rand.Bytes.{rdrand_get_bytes_retry}
use rd_rand.Reseed.{rdrand_get_uint64_array_reseed_delay, rdrand_get_uint64_array_reseed_skip}
use rd_rand.Arrays.Stub.{ones, Ones, uint64_array-Ones}
use rd_rand.Arrays.Stub.Widths.{uint8_array-Ones, uint16_array-Ones, uint32_array-Ones}
use rd_rand.Bytes.Stub.{bytes_retry-Ones}
use rd_rand.Reseed.Stub.{reseed_delay-Ones, reseed_skip-Ones}
use rd_rand.Check.{zeroed}
use rd_rand.Check.Ranges.{test_zeros-ones, test_ones-ones}
use rd_rand.Check.Arrays.{
  array_size, size, offset, test_retry_limit, Filler, one_size, half_size, half_size_with_offset,
  array_test, array_bytes, array_8, array_16, array_32, array_64, array_reseed_delay_64,
  array_reseed_skip_64, arrays_suite,
}

-- A function that fills its array with ones, for a number of items that fills whole words.
abbrev FillsOnes : ℕ → Filler → Type 0
FillsOnes multiplier fill =
    (dest count : ℕ) (m : Machine)
    → count < 2 ^ 32
    → count % 4 ≡ 0
    → ((fill dest count test_retry_limit m).0 ≡ count)
      × ((fill dest count test_retry_limit m).1.mem ≡ (ones dest (multiplier * count) m).mem)

same : (n : ℕ) → (n == n) ≡ true
same n = ground arith

module _ (fill : Filler) (multiplier dst : ℕ) (fills : FillsOnes multiplier fill) where
  one_size-passes :
      (m : Machine)
      → multiplier * (size / multiplier) ≡ 64
      → size / multiplier < 2 ^ 32
      → size / multiplier % 4 ≡ 0
      → (one_size fill multiplier dst m).0 ≡ true
  unfolding one_size
  one_size-passes m bytes small fours =
      let f = fills dst (size / multiplier) (zeroed array_size dst m) small fours in
      rw (
        f.0,
        f.1,
        bytes,
        same (size / multiplier),
        test_zeros-ones 65 dst dst 0 64 m (omega arith) 64 65 (omega arith) (omega arith)
            (inr (omega arith)),
        test_ones-ones 65 dst dst 0 64 m (omega arith) 0 64 (omega arith) (omega arith)
            (omega arith) (omega arith),
      )

  half_size-passes :
      (m : Machine)
      → multiplier * (size / (2 * multiplier)) ≡ 32
      → size / (2 * multiplier) < 2 ^ 32
      → size / (2 * multiplier) % 4 ≡ 0
      → (half_size fill multiplier dst m).0 ≡ true
  unfolding half_size
  half_size-passes m bytes small fours =
      let f = fills dst (size / (2 * multiplier)) (zeroed array_size dst m) small fours in
      rw (
        f.0,
        f.1,
        bytes,
        same (size / (2 * multiplier)),
        test_zeros-ones 65 dst dst 0 32 m (omega arith) 32 65 (omega arith) (omega arith)
            (inr (omega arith)),
        test_ones-ones 65 dst dst 0 32 m (omega arith) 0 32 (omega arith) (omega arith)
            (omega arith) (omega arith),
      )

  half_size_with_offset-passes :
      (m : Machine)
      → multiplier * (offset / multiplier) ≡ 16
      → multiplier * (size / (2 * multiplier)) ≡ 32
      → size / (2 * multiplier) < 2 ^ 32
      → size / (2 * multiplier) % 4 ≡ 0
      → (half_size_with_offset fill multiplier dst m).0 ≡ true
  unfolding half_size_with_offset
  half_size_with_offset-passes m moved bytes small fours =
      let f = fills (dst + 16) (size / (2 * multiplier)) (zeroed array_size dst m) small fours in
      rw (
        moved,
        f.0,
        f.1,
        bytes,
        same (size / (2 * multiplier)),
        test_zeros-ones 65 dst (dst + 16) 16 32 m refl 48 65 (omega arith) (omega arith)
            (inr (omega arith)),
        test_zeros-ones 65 dst (dst + 16) 16 32 m refl 0 16 (omega arith) (omega arith)
            (inl (omega arith)),
        test_ones-ones 65 dst (dst + 16) 16 32 m refl 16 32 (omega arith) (omega arith)
            (omega arith) (omega arith),
      )

-- Items of `k` bytes fill the ranges of the tests, in whole words.
record Fits (k : ℕ) : Type 0 where
  whole : k * (size / k) ≡ 64
  half : k * (size / (2 * k)) ≡ 32
  moved : k * (offset / k) ≡ 16
  whole_small : size / k < 2 ^ 32
  half_small : size / (2 * k) < 2 ^ 32
  whole_words : size / k % 4 ≡ 0
  half_words : size / (2 * k) % 4 ≡ 0

array_test-passes :
    (fill : Filler) (multiplier dst : ℕ) (m : Machine)
    → FillsOnes multiplier fill
    → Fits multiplier
    → array_test fill multiplier dst m ≡ true
unfolding array_test
array_test-passes fill multiplier dst m fills fits = rw (
  one_size-passes fill multiplier dst fills m fits.whole fits.whole_small fits.whole_words,
  half_size-passes fill multiplier dst fills (one_size fill multiplier dst m).1 fits.half
      fits.half_small fits.half_words,
  half_size_with_offset-passes fill multiplier dst fills
      (half_size fill multiplier dst (one_size fill multiplier dst m).1).1 fits.moved fits.half
      fits.half_small fits.half_words,
)

-- From an equation of the whole result.
filled :
    (unit : ℕ) (fill : Filler)
    → ((dest count : ℕ) (m : Machine)
        → count < 2 ^ 32
        → count % 4 ≡ 0
        → Ones unit dest count m (fill dest count test_retry_limit m))
    → FillsOnes unit fill
filled unit fill h dest count m small fours =
    (ap (λ r. r.0) (h dest count m small fours), ap (λ r. r.1.mem) (h dest count m small fours))

Fits-1 : Fits 1
Fits-1 = omega arith

Fits-2 : Fits 2
Fits-2 = omega arith

Fits-4 : Fits 4
Fits-4 = omega arith

Fits-8 : Fits 8
Fits-8 = omega arith

module _ (cpu : Cpu) (dst : ℕ) (m : Machine) where
  array_bytes-passes : array_bytes cpu dst m ≡ true
  unfolding array_bytes
  array_bytes-passes =
      array_test-passes (rdrand_get_bytes_retry stub cpu) 1 dst m
        (filled 1 (rdrand_get_bytes_retry stub cpu)
          (λ dest count k small fours. bytes_retry-Ones cpu dest count test_retry_limit k small))
        Fits-1

  array_8-passes : array_8 cpu dst m ≡ true
  unfolding array_8
  array_8-passes =
      array_test-passes (rdrand_get_uint8_array_retry stub cpu) 1 dst m
        (filled 1 (rdrand_get_uint8_array_retry stub cpu)
          (λ dest count k small fours. uint8_array-Ones cpu dest count test_retry_limit k small))
        Fits-1

  array_16-passes : array_16 cpu dst m ≡ true
  unfolding array_16
  array_16-passes =
      array_test-passes (rdrand_get_uint16_array_retry stub cpu) 2 dst m
        (filled 2 (rdrand_get_uint16_array_retry stub cpu) (λ dest count k small fours.
          uint16_array-Ones cpu dest count test_retry_limit k small
          ∙ ap (λ n. (n, ones dest (2 * n) k)) (omega (arith, fours))))
        Fits-2

  array_32-passes : array_32 cpu dst m ≡ true
  unfolding array_32
  array_32-passes =
      array_test-passes (rdrand_get_uint32_array_retry stub cpu) 4 dst m
        (filled 4 (rdrand_get_uint32_array_retry stub cpu)
          (λ dest count k small fours. uint32_array-Ones cpu dest count test_retry_limit k small))
        Fits-4

  array_64-passes : array_64 cpu dst m ≡ true
  unfolding array_64
  array_64-passes =
      array_test-passes (rdrand_get_uint64_array_retry stub cpu) 8 dst m
        (filled 8 (rdrand_get_uint64_array_retry stub cpu)
          (λ dest count k small fours. uint64_array-Ones cpu dest count test_retry_limit k))
        Fits-8

  array_reseed_delay_64-passes : array_reseed_delay_64 cpu dst m ≡ true
  unfolding array_reseed_delay_64
  array_reseed_delay_64-passes =
      array_test-passes (rdrand_get_uint64_array_reseed_delay stub cpu) 8 dst m
        (λ dest count k small fours. (
          ap (λ r. r.0) (reseed_delay-Ones cpu dest count test_retry_limit k),
          ap (λ r. r.1.mem) (reseed_delay-Ones cpu dest count test_retry_limit k),
        ))
        Fits-8

  array_reseed_skip_64-passes : array_reseed_skip_64 cpu dst m ≡ true
  unfolding array_reseed_skip_64
  array_reseed_skip_64-passes =
      array_test-passes (rdrand_get_uint64_array_reseed_skip stub cpu) 8 dst m
        (filled 8 (rdrand_get_uint64_array_reseed_skip stub cpu)
          (λ dest count k small fours. reseed_skip-Ones cpu dest count test_retry_limit k))
        Fits-8

  pub arrays_suite-passes : arrays_suite cpu dst m ≡ true
  unfolding arrays_suite
  arrays_suite-passes = rw (
    array_bytes-passes, array_8-passes, array_16-passes, array_32-passes, array_64-passes,
    array_reseed_delay_64-passes, array_reseed_skip_64-passes,
  )
