-- ===== src/Retry.antt =====
-- The retry loops, and the functions that fetch one number (src/librdrand.c, lines 272-374).
pub mod Attempts
pub mod Outcome
use rd_rand.Prelude.{ℕ, zero, suc, ◌-◌, Option, none, some, if◌then◌else◌, ℤ, pos, negsuc, ◌==ℤ◌}
use rd_rand.Cpu.{
  Cpu, Build, Step, rdrand_success, rdrand_failure, rdrand16_step, rdrand32_step, rdrand64_step,
}

abbrev pub retry_limit_default : ℕ
retry_limit_default = 10

-- `if (retry_limit < 0) retry_limit = RETRY_LIMIT`.
unfoldable pub effective_limit : ℤ → ℕ
effective_limit (pos n) = n
effective_limit (negsuc n) = retry_limit_default

-- `do { rc = step(&x); ++count; } while (rc == again && count < retry_limit)`. The second argument
-- is how many rounds `count < retry_limit` allows after this one.
unfoldable pub retry_loop : (ℕ → Step) → ℤ → ℕ → ℕ → Step
retry_loop step again zero t = step t
retry_loop step again (suc left) t =
    let rest = retry_loop step again left (step t).ticks in
    if (step t).rc ==ℤ again then rest else step t

-- The loop, run until `count` has reached `limit`; its body is run at least once.
unfoldable pub retry : (ℕ → Step) → ℤ → ℕ → ℕ → Step
unfolding retry_loop
retry step again limit t = retry_loop step again (limit - 1) t

-- A function that fetches one number: its return code, what it stored in `*dest`, if it did, and the
-- number of executions of RDRAND so far.
pub record Fetch : Type 0 where
  pub rc : ℤ
  pub dest : Option ℕ
  pub ticks : ℕ

-- `if (rc == RDRAND_SUCCESS) { *dest = x; return RDRAND_SUCCESS; } return RDRAND_FAILURE;`
unfoldable pub fetch : Step → Fetch
fetch r =
    if r.rc ==ℤ rdrand_success
    then record { rc = rdrand_success; dest = some r.x; ticks = r.ticks }
    else record { rc = rdrand_failure; dest = none; ticks = r.ticks }

module _ (build : Build) (cpu : Cpu) where
  -- This loop tests `rc == 0`, the two below `rc == RDRAND_FAILURE`.
  unfoldable pub rdrand_get_uint16_retry : ℤ → ℕ → Fetch
  unfolding effective_limit retry fetch
  rdrand_get_uint16_retry retry_limit t =
      fetch (retry (rdrand16_step build cpu) (pos 0) (effective_limit retry_limit) t)

  unfoldable pub rdrand_get_uint32_retry : ℤ → ℕ → Fetch
  unfolding effective_limit retry fetch
  rdrand_get_uint32_retry retry_limit t =
      fetch (retry (rdrand32_step build cpu) rdrand_failure (effective_limit retry_limit) t)

  unfoldable pub rdrand_get_uint64_retry : ℤ → ℕ → Fetch
  unfolding effective_limit retry fetch
  rdrand_get_uint64_retry retry_limit t =
      fetch (retry (rdrand64_step build cpu) rdrand_failure (effective_limit retry_limit) t)
