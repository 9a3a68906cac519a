-- ===== src/Arrays.antt =====
-- The functions that fill an array (src/librdrand.c, lines 376-588). `dest` is an address; `count`
-- and the counts that are returned are `unsigned int`.
pub mod Drawn
pub mod Words
pub mod Fill
pub mod Full
pub mod Stub
use rd_rand.Prelude.{
  ℕ, zero, suc, ◌+◌, ◌-◌, ◌*◌, ◌/◌, ◌%◌, ◌^◌, if◌then◌else◌, ltb, ℤ, pos, ◌==ℤ◌, take,
}
use rd_rand.Cpu.{
  Cpu, Build, Step, rdrand_success, rdrand_failure, rdrand16_step, rdrand32_step, rdrand64_step,
}
use rd_rand.Retry.{effective_limit, retry}
use rd_rand.Memory.{Machine, store_bytes, le_bytes}

-- Conversion to a 32-bit unsigned int.
abbrev pub u32 : ℕ → ℕ
u32 x = x % 2 ^ 32

module _ (build : Build) (cpu : Cpu) where
  -- The `for` loop; the second argument is `count - i`. `count` is below 2 ^ 32, so
  -- `generated_64`, which starts at 0, does not wrap.
  unfoldable pub uint64_array_loop : ℕ → ℕ → ℕ → ℕ → Machine → ℕ × Machine
  uint64_array_loop limit zero dest generated_64 m = (generated_64, m)
  uint64_array_loop limit (suc left) dest generated_64 m =
      let r = retry (rdrand64_step build cpu) rdrand_failure limit m.ticks in
      let stored = record m { ticks = r.ticks; mem = store_bytes m.mem dest (le_bytes 8 r.x) } in
      let rest = uint64_array_loop limit left (dest + 8) (generated_64 + 1) stored in
      if r.rc ==ℤ rdrand_success then rest else (generated_64, record m { ticks = r.ticks })

  unfoldable pub rdrand_get_uint64_array_retry : ℕ → ℕ → ℤ → Machine → ℕ × Machine
  unfolding uint64_array_loop effective_limit
  rdrand_get_uint64_array_retry dest count retry_limit m =
      uint64_array_loop (effective_limit retry_limit) count dest 0 m

  -- The rest of the array after `generated` numbers of `per_word` to a 64-bit word.
  unfoldable pub fill_words : ℕ → ℕ → ℕ → ℕ → ℕ → Machine → ℕ × Machine
  fill_words per_word generated dest_64 count_64 limit m =
      let (generated_64, m') = rdrand_get_uint64_array_retry dest_64 count_64 (pos limit) m in
      (u32 (generated + u32 (per_word * generated_64)), m')

  unfoldable pub rdrand_get_uint16_array_retry : ℕ → ℕ → ℤ → Machine → ℕ × Machine
  unfolding effective_limit fill_words
  rdrand_get_uint16_array_retry dest count retry_limit m =
      let count_64 = count / 4 in
      let count_16 = count - 4 * count_64 in
      let limit = effective_limit retry_limit in
      let r = retry (rdrand16_step build cpu) rdrand_failure limit m.ticks in
      let stored = record m { ticks = r.ticks; mem = store_bytes m.mem dest (le_bytes 2 r.x) } in
      if ltb 0 count_16
      then (if r.rc ==ℤ rdrand_success
          then fill_words 4 1 (dest + 2) count_64 limit stored
          else (0, record m { ticks = r.ticks }))
      else fill_words 4 0 dest count_64 limit m

  unfoldable pub rdrand_get_uint32_array_retry : ℕ → ℕ → ℤ → Machine → ℕ × Machine
  unfolding effective_limit fill_words
  rdrand_get_uint32_array_retry dest count retry_limit m =
      let count_64 = count / 2 in
      let count_32 = count - 2 * count_64 in
      let limit = effective_limit retry_limit in
      let r = retry (rdrand32_step build cpu) rdrand_failure limit m.ticks in
      let stored = record m { ticks = r.ticks; mem = store_bytes m.mem dest (le_bytes 4 r.x) } in
      if ltb 0 count_32
      then (if r.rc ==ℤ rdrand_success
          then fill_words 2 1 (dest + 4) count_64 limit stored
          else (0, record m { ticks = r.ticks }))
      else fill_words 2 0 dest count_64 limit m

  -- The head of `count % 8` bytes comes from one 64-bit number.
  unfoldable pub rdrand_get_uint8_array_retry : ℕ → ℕ → ℤ → Machine → ℕ × Machine
  unfolding effective_limit fill_words
  rdrand_get_uint8_array_retry dest count retry_limit m =
      let count_64 = count / 8 in
      let count_8 = count % 8 in
      let limit = effective_limit retry_limit in
      let r = retry (rdrand64_step build cpu) rdrand_failure limit m.ticks in
      let head = take count_8 (le_bytes 8 r.x) in
      let stored = record m { ticks = r.ticks; mem = store_bytes m.mem dest head } in
      if ltb 0 count_8
      then (if r.rc ==ℤ rdrand_success
          then fill_words 8 count_8 (dest + count_8) count_64 limit stored
          else (0, record m { ticks = r.ticks }))
      else fill_words 8 0 dest count_64 limit m
