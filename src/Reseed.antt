-- ===== src/Reseed.antt =====
-- The two functions that force a reseed before each number (src/librdrand.c, lines 714-799).
pub mod Refine
pub mod Spacing
pub mod Stub
use rd_rand.Prelude.{ℕ, zero, suc, ◌+◌, Option, none, some, if◌then◌else◌, ℤ, pos, ◌==ℤ◌}
use rd_rand.Cpu.{Cpu, Build, rdrand_success, rdrand64_step}
use rd_rand.Retry.{Fetch, effective_limit, rdrand_get_uint64_retry}
use rd_rand.Memory.{Machine, store_bytes, le_bytes}

-- In microseconds.
abbrev pub reseed_delay : ℕ
reseed_delay = 20

-- The number that a successful fetch stored in the local variable; 0 stands for its old content.
abbrev pub fetched : Option ℕ → ℕ
fetched none = 0
fetched (some x) = x

module _ (build : Build) (cpu : Cpu) where
  -- The second argument is `count - i`.
  unfoldable pub delay_loop : ℕ → ℕ → ℕ → ℕ → Machine → ℕ × Machine
  delay_loop limit zero dest generated_64 m = (generated_64, m)
  delay_loop limit (suc left) dest generated_64 m =
      let r = rdrand_get_uint64_retry build cpu (pos limit) m.ticks in
      let slept = m.slept + reseed_delay in
      let stored : Machine = record {
        ticks = r.ticks;
        mem = store_bytes m.mem dest (le_bytes 8 (fetched r.dest));
        slept = slept;
      } in
      let rest = delay_loop limit left (dest + 8) (generated_64 + 1) stored in
      if r.rc ==ℤ rdrand_success
      then rest
      else (generated_64, record m { ticks = r.ticks; slept = slept })

  unfoldable pub rdrand_get_uint64_array_reseed_delay : ℕ → ℕ → ℤ → Machine → ℕ × Machine
  unfolding delay_loop effective_limit
  rdrand_get_uint64_array_reseed_delay dest count retry_limit m =
      delay_loop (effective_limit retry_limit) count dest 0 m

  -- `for (n = 0; n < 1024; n++) rdrand64_step(&x_64)`, whatever the steps return.
  unfoldable pub skip : ℕ → ℕ → ℕ
  skip zero t = t
  skip (suc n) t = skip n (rdrand64_step build cpu t).ticks

  unfoldable pub skip_loop : ℕ → ℕ → ℕ → ℕ → Machine → ℕ × Machine
  skip_loop limit zero dest generated_64 m = (generated_64, m)
  skip_loop limit (suc left) dest generated_64 m =
      let r = rdrand_get_uint64_retry build cpu (pos limit) (skip 1024 m.ticks) in
      let stored = record m {
        ticks = r.ticks;
        mem = store_bytes m.mem dest (le_bytes 8 (fetched r.dest));
      } in
      let rest = skip_loop limit left (dest + 8) (generated_64 + 1) stored in
      if r.rc ==ℤ rdrand_success then rest else (generated_64, record m { ticks = r.ticks })

  unfoldable pub rdrand_get_uint64_array_reseed_skip : ℕ → ℕ → ℤ → Machine → ℕ × Machine
  unfolding skip_loop effective_limit
  rdrand_get_uint64_array_reseed_skip dest count retry_limit m =
      skip_loop (effective_limit retry_limit) count dest 0 m
