-- ===== src/Retry/Attempts.antt =====
-- What a retry loop is for: a number of attempts, the first of which to succeed counts.
use rd_rand.Prelude.{
  ℕ, zero, suc, ◌+◌, ◌-◌, ◌%◌, ◌^◌, ◌≡◌, refl, ◌⊎◌, false, none, arith, if◌then◌else◌, ℤ, ◌==ℤ◌,
}
use rd_rand.Cpu.{Cpu, Step, rdrand_success, rdrand_failure}
use rd_rand.Retry.{Fetch, retry_loop, fetch}

-- The outcome of `n` attempts, described without a return code to wait for.
unfoldable pub attempts : (ℕ → Step) → ℕ → ℕ → Fetch
unfolding fetch
attempts step zero t = record { rc = rdrand_failure; dest = none; ticks = t }
attempts step (suc n) t =
    let rest = attempts step n (step t).ticks in
    if (step t).rc ==ℤ rdrand_success then fetch (step t) else rest

-- The number of times that the body of the loop may run.
abbrev pub rounds : ℕ → ℕ
rounds limit = suc (limit - 1)

-- A step that executes RDRAND once, with an operand of `w` bits, and returns `code` on failure.
abbrev pub Executes : (ℕ → Step) → Cpu → ℕ → ℤ → Type 0
Executes step cpu w code =
    (t : ℕ)
    → step t ≡ record {
      rc = if (cpu t w).carry then rdrand_success else code;
      x = (cpu t w).value % 2 ^ w;
      ticks = t + 1;
    }

module _ (step : ℕ → Step) (again : ℤ) where
  pub retry_loop-attempts :
      (again ==ℤ rdrand_success) ≡ false
      → ((t : ℕ) → ((step t).rc ≡ rdrand_success) ⊎ ((step t).rc ≡ again))
      → (left t : ℕ) → fetch (retry_loop step again left t) ≡ attempts step (suc left) t
  unfolding retry_loop attempts fetch
  retry_loop-attempts ne codes zero t = ground (arith, codes t)
  retry_loop-attempts ne codes (suc left) t =
      ground (arith, codes t, retry_loop-attempts ne codes left (step t).ticks)

  pub retry_loop-once :
      ((t : ℕ) → ((step t).rc ==ℤ again) ≡ false)
      → (left t : ℕ) → retry_loop step again left t ≡ step t
  unfolding retry_loop
  retry_loop-once never zero t = refl
  retry_loop-once never (suc left) t = ground (arith, never t)
