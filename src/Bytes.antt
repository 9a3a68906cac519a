-- ===== src/Bytes.antt =====
-- `rdrand_get_bytes_retry` (src/librdrand.c, lines 590-672): the bytes up to the first aligned 64-bit
-- block, the aligned blocks, and the rest. `size` is a 64-bit size_t, the parts are unsigned int.
pub mod Layout
pub mod Safety
pub mod Stub
pub mod Complete
use rd_rand.Prelude.{ℕ, ◌+◌, ◌-◌, ◌*◌, ◌/◌, ◌%◌, if◌then◌else◌, ltb, ◌==◌, ℤ, pos}
use rd_rand.Cpu.{Cpu, Build}
use rd_rand.Retry.{effective_limit}
use rd_rand.Memory.{Machine}
use rd_rand.Arrays.{u32, rdrand_get_uint64_array_retry, rdrand_get_uint8_array_retry}

-- `-----|OFFSET|QWORDS (aligned to 64bit blocks)|REST|-----`
pub record Blocks : Type 0 where
  pub offset : ℕ
  pub aligned_start : ℕ
  pub aligned_bytes : ℕ

-- `(start & ~7) + 8` is `start - start % 8 + 8`.
unfoldable pub blocks : ℕ → ℕ → Blocks
blocks start size =
    let offset = 8 - start % 8 in
    if ltb size 8
    then record { offset = 0; aligned_start = start; aligned_bytes = u32 size }
    else if offset == 0
    then record { offset = offset; aligned_start = start; aligned_bytes = u32 size }
    else record {
      offset = offset;
      aligned_start = start - start % 8 + 8;
      aligned_bytes = u32 (size - offset);
    }

unfoldable pub rest_of : Blocks → ℕ
rest_of b = b.aligned_bytes % 8

unfoldable pub q_words : Blocks → ℕ
unfolding rest_of
q_words b = (b.aligned_bytes - rest_of b) / 8

module _ (build : Build) (cpu : Cpu) where
  -- `if (n != 0) generatedBytes += rdrand_get_uint8_array_retry(dest, n, retry_limit)`.
  unfoldable pub fill_bytes : ℕ → ℕ → ℕ → ℕ × Machine → ℕ × Machine
  fill_bytes dest n limit (generated, m) =
      let (g, m') = rdrand_get_uint8_array_retry build cpu dest n (pos limit) m in
      if n == 0 then (generated, m) else (generated + g, m')

  -- `if (n) generatedBytes += 8 * rdrand_get_uint64_array_retry(dest, n, retry_limit)`.
  unfoldable pub fill_blocks : ℕ → ℕ → ℕ → ℕ × Machine → ℕ × Machine
  fill_blocks dest n limit (generated, m) =
      let (g, m') = rdrand_get_uint64_array_retry build cpu dest n (pos limit) m in
      if n == 0 then (generated, m) else (generated + u32 (8 * g), m')

  unfoldable pub rdrand_get_bytes_retry : ℕ → ℕ → ℤ → Machine → ℕ × Machine
  rdrand_get_bytes_retry start size retry_limit m =
      let limit = effective_limit retry_limit in
      let b = blocks start size in
      let after_offset = fill_bytes start b.offset limit (0, m) in
      let after_blocks = fill_blocks b.aligned_start (q_words b) limit after_offset in
      fill_bytes (b.aligned_start + 8 * q_words b) (rest_of b) limit after_blocks
