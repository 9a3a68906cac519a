-- ===== src/Retry/Outcome.antt =====
-- The outcome of the functions that fetch one number, in terms of what the processor returns.
use rd_rand.Prelude.{
  ℕ, zero, suc, ◌+◌, ◌-◌, ◌%◌, ◌^◌, ◌<◌, ◌≤◌, ◌≡◌, ◌≢◌, refl, ◌∙◌, ◌⊎◌, true, false, none, some,
  arith, ℤ, ◌==ℤ◌, pos,
}
use native.Mathlib.Decide.{dec_lt}
use native.Mathlib.Nat.{le_refl}
use rd_rand.Cpu.{
  Cpu, Build, asm_64, asm_32, intrinsics, stub, Step, rdrand_success, rdrand_failure, rdrand16_step,
  rdrand32_step, rdrand64_step,
}
use rd_rand.Retry.{
  fetch, effective_limit, rdrand_get_uint16_retry, rdrand_get_uint32_retry, rdrand_get_uint64_retry,
}
use rd_rand.Retry.Attempts.{attempts, rounds, Executes, retry_loop-attempts, retry_loop-once}

module _ (step : ℕ → Step) (cpu : Cpu) (w : ℕ) (code : ℤ) (ne : (code ==ℤ rdrand_success) ≡ false)
    (e : Executes step cpu w code) where
  attempts-first :
      (n t j : ℕ)
      → t ≤ j
      → j < t + n
      → ((i : ℕ) → t ≤ i → i < j → (cpu i w).carry ≡ false)
      → (cpu j w).carry ≡ true
      → attempts step n t
        ≡ record { rc = rdrand_success; dest = some ((cpu j w).value % 2 ^ w); ticks = j + 1 }
  unfolding attempts fetch
  attempts-first zero t j h below before now = absurd (omega arith)
  attempts-first (suc n) t j h below before now = elim (dec_lt t j) [
    | yes later ↦
        rw (e t, before t (le_refl t) later)
          (rw ne (
            attempts-first n (t + 1) j (omega arith) (omega arith)
              (λ i p q. before i (omega arith) q) now))
    | no here ↦ let same : t ≡ j = omega arith in rw (e t, same, now) refl
  ]

  attempts-exhausted :
      (n t : ℕ)
      → ((i : ℕ) → t ≤ i → i < t + n → (cpu i w).carry ≡ false)
      → attempts step n t ≡ record { rc = rdrand_failure; dest = none; ticks = t + n }
  unfolding attempts
  attempts-exhausted zero t before = ground arith
  attempts-exhausted (suc n) t before =
      rw (e t, before t (le_refl t) (omega arith))
        (rw ne (
          attempts-exhausted n (t + 1) (λ i p q. before i (omega arith) (omega arith))
          ∙ ground arith))

asm_step-Executes : (cpu : Cpu) → Executes (rdrand64_step asm_64 cpu) cpu 64 rdrand_failure
unfolding rdrand64_step
asm_step-Executes cpu t = refl

abbrev Codes : (ℕ → Step) → Type 0
Codes step = (t : ℕ) → ((step t).rc ≡ rdrand_success) ⊎ ((step t).rc ≡ rdrand_failure)

uint64-Codes : (build : Build) (cpu : Cpu) → build ≢ intrinsics → Codes (rdrand64_step build cpu)
unfolding rdrand64_step
uint64-Codes stub cpu ne t = ground arith
uint64-Codes intrinsics cpu ne t = absurd (ne refl)
uint64-Codes asm_64 cpu ne t = ground arith
uint64-Codes asm_32 cpu ne t = ground arith

uint32-Codes : (build : Build) (cpu : Cpu) → build ≢ intrinsics → Codes (rdrand32_step build cpu)
unfolding rdrand32_step
uint32-Codes stub cpu ne t = ground arith
uint32-Codes intrinsics cpu ne t = absurd (ne refl)
uint32-Codes asm_64 cpu ne t = ground arith
uint32-Codes asm_32 cpu ne t = ground arith

-- In every build but that with the intrinsics, `rdrand_get_uint64_retry` makes up to `retry_limit`
-- attempts (ten if that is negative, one if it is 0), and the first to succeed is its result.
pub uint64_retry-attempts :
    (build : Build) (cpu : Cpu) (retry_limit : ℤ) (t : ℕ)
    → build ≢ intrinsics
    → rdrand_get_uint64_retry build cpu retry_limit t
      ≡ attempts (rdrand64_step build cpu) (rounds (effective_limit retry_limit)) t
unfolding rdrand_get_uint64_retry
uint64_retry-attempts build cpu retry_limit t ne =
    retry_loop-attempts (rdrand64_step build cpu) rdrand_failure refl (uint64-Codes build cpu ne)
      (effective_limit retry_limit - 1) t

pub uint32_retry-attempts :
    (build : Build) (cpu : Cpu) (retry_limit : ℤ) (t : ℕ)
    → build ≢ intrinsics
    → rdrand_get_uint32_retry build cpu retry_limit t
      ≡ attempts (rdrand32_step build cpu) (rounds (effective_limit retry_limit)) t
unfolding rdrand_get_uint32_retry
uint32_retry-attempts build cpu retry_limit t ne =
    retry_loop-attempts (rdrand32_step build cpu) rdrand_failure refl (uint32-Codes build cpu ne)
      (effective_limit retry_limit - 1) t

-- With the inline assembly on a 64-bit target: if execution `j` of RDRAND, one of those that the
-- limit allows from execution `t` on, is the first to set the carry flag, then
-- `rdrand_get_uint64_retry` succeeds, stores that execution's register, and executes no more.
pub uint64_retry-first :
    (cpu : Cpu) (retry_limit : ℤ) (t j : ℕ)
    → t ≤ j
    → j < t + rounds (effective_limit retry_limit)
    → ((i : ℕ) → t ≤ i → i < j → (cpu i 64).carry ≡ false)
    → (cpu j 64).carry ≡ true
    → rdrand_get_uint64_retry asm_64 cpu retry_limit t
      ≡ record { rc = rdrand_success; dest = some ((cpu j 64).value % 2 ^ 64); ticks = j + 1 }
uint64_retry-first cpu retry_limit t j h below before now =
    uint64_retry-attempts asm_64 cpu retry_limit t (λ p. cc)
    ∙ attempts-first (rdrand64_step asm_64 cpu) cpu 64 rdrand_failure refl (asm_step-Executes cpu)
        (rounds (effective_limit retry_limit)) t j h below before now

-- With the inline assembly on a 64-bit target: if every execution of RDRAND that the limit allows
-- from execution `t` on clears the carry flag, then `rdrand_get_uint64_retry` fails, stores nothing,
-- and has made exactly that many executions.
pub uint64_retry-exhausted :
    (cpu : Cpu) (retry_limit : ℤ) (t : ℕ)
    → ((i : ℕ) → t ≤ i → i < t + rounds (effective_limit retry_limit) → (cpu i 64).carry ≡ false)
    → rdrand_get_uint64_retry asm_64 cpu retry_limit t ≡ record {
      rc = rdrand_failure;
      dest = none;
      ticks = t + rounds (effective_limit retry_limit);
    }
uint64_retry-exhausted cpu retry_limit t before =
    uint64_retry-attempts asm_64 cpu retry_limit t (λ p. cc)
    ∙ attempts-exhausted (rdrand64_step asm_64 cpu) cpu 64 rdrand_failure refl
        (asm_step-Executes cpu) (rounds (effective_limit retry_limit)) t before

-- With the intrinsics, which return 0 on failure, the loops that wait for `RDRAND_FAILURE` make one
-- attempt whatever the limit: a failing first execution of RDRAND is the result of
-- `rdrand_get_uint32_retry` and `rdrand_get_uint64_retry`.
pub intrinsics_never_retry :
    (cpu : Cpu) (retry_limit : ℤ) (t : ℕ)
    → (rdrand_get_uint32_retry intrinsics cpu retry_limit t
        ≡ attempts (rdrand32_step intrinsics cpu) 1 t)
      × (rdrand_get_uint64_retry intrinsics cpu retry_limit t
          ≡ attempts (rdrand64_step intrinsics cpu) 1 t)
unfolding rdrand_get_uint32_retry rdrand_get_uint64_retry attempts
intrinsics_never_retry cpu retry_limit t = (
  rw (retry_loop-once (rdrand32_step intrinsics cpu) rdrand_failure never32 left t) once32,
  rw (retry_loop-once (rdrand64_step intrinsics cpu) rdrand_failure never64 left t) once64,
)
  where
    left : ℕ
    left = effective_limit retry_limit - 1

    never32 : (s : ℕ) → ((rdrand32_step intrinsics cpu s).rc ==ℤ rdrand_failure) ≡ false
    never32 s = unfold rdrand32_step in ground arith

    never64 : (s : ℕ) → ((rdrand64_step intrinsics cpu s).rc ==ℤ rdrand_failure) ≡ false
    never64 s = unfold rdrand64_step in ground arith

    once32 : fetch (rdrand32_step intrinsics cpu t) ≡ attempts (rdrand32_step intrinsics cpu) 1 t
    once32 = unfold rdrand32_step in ground arith

    once64 : fetch (rdrand64_step intrinsics cpu t) ≡ attempts (rdrand64_step intrinsics cpu) 1 t
    once64 = unfold rdrand64_step in ground arith

-- With the inline assembly, which returns `RDRAND_FAILURE` on failure, the loop of
-- `rdrand_get_uint16_retry`, which waits for 0, makes one attempt whatever the limit; with the
-- intrinsics, which return 0, it makes the attempts that the limit allows.
pub uint16_retry-attempts :
    (cpu : Cpu) (retry_limit : ℤ) (t : ℕ)
    → (rdrand_get_uint16_retry asm_64 cpu retry_limit t ≡ attempts (rdrand16_step asm_64 cpu) 1 t)
      × (rdrand_get_uint16_retry asm_32 cpu retry_limit t ≡ attempts (rdrand16_step asm_32 cpu) 1 t)
      × (rdrand_get_uint16_retry intrinsics cpu retry_limit t
          ≡ attempts (rdrand16_step intrinsics cpu) (rounds (effective_limit retry_limit)) t)
unfolding rdrand_get_uint16_retry attempts
uint16_retry-attempts cpu retry_limit t = (
  rw (retry_loop-once (rdrand16_step asm_64 cpu) (pos 0) never64 left t) once64,
  rw (retry_loop-once (rdrand16_step asm_32 cpu) (pos 0) never32 left t) once32,
  retry_loop-attempts (rdrand16_step intrinsics cpu) (pos 0) refl codes left t,
)
  where
    left : ℕ
    left = effective_limit retry_limit - 1

    never64 : (s : ℕ) → ((rdrand16_step asm_64 cpu s).rc ==ℤ pos 0) ≡ false
    never64 s = unfold rdrand16_step in ground arith

    never32 : (s : ℕ) → ((rdrand16_step asm_32 cpu s).rc ==ℤ pos 0) ≡ false
    never32 s = unfold rdrand16_step in ground arith

    once64 : fetch (rdrand16_step asm_64 cpu t) ≡ attempts (rdrand16_step asm_64 cpu) 1 t
    once64 = unfold rdrand16_step in ground arith

    once32 : fetch (rdrand16_step asm_32 cpu t) ≡ attempts (rdrand16_step asm_32 cpu) 1 t
    once32 = unfold rdrand16_step in ground arith

    codes :
        (s : ℕ)
        → ((rdrand16_step intrinsics cpu s).rc ≡ rdrand_success)
          ⊎ ((rdrand16_step intrinsics cpu s).rc ≡ pos 0)
    codes s = unfold rdrand16_step in ground arith
