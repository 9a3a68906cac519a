-- ===== src/Cpu.antt =====
-- The RDRAND instruction and the functions that execute it once (src/librdrand.c, lines 91-269, and
-- the return codes of src/librdrand.h). The processor is a parameter: what its executions of RDRAND
-- and CPUID return.
pub mod Support
pub mod Detect
use rd_rand.Prelude.{ℕ, ◌+◌, ◌-◌, ◌*◌, ◌%◌, ◌^◌, Bool, true, false, if◌then◌else◌, ℤ, pos, negsuc}

-- One execution of RDRAND: the carry flag, set on success, and the destination register.
pub record Draw : Type 0 where
  pub carry : Bool
  pub value : ℕ

-- `cpu n w` is the n-th execution of RDRAND, with an operand of `w` bits.
abbrev pub Cpu : Type 0
Cpu = ℕ → ℕ → Draw

-- How the library was compiled: with STUB_RDRAND, with the intrinsics of x86intrin.h, or with the
-- inline assembly on a 64-bit or a 32-bit target.
pub data Build : Type 0 where
  stub intrinsics asm_64 asm_32 : Build

abbrev pub rdrand_success : ℤ
rdrand_success = pos 1

abbrev pub rdrand_failure : ℤ
rdrand_failure = negsuc 0

-- What a call leaves: its return code, `*x`, and the number of executions of RDRAND so far.
-- On failure `*x` is what the instruction left there, and nothing reads it.
pub record Step : Type 0 where
  pub rc : ℤ
  pub x : ℕ
  pub ticks : ℕ

-- The stub sets all bits and executes nothing.
stub_step : ℕ → ℕ → Step
stub_step w t = record { rc = rdrand_success; x = 2 ^ w - 1; ticks = t }

-- `_rdrandN_step` returns the carry flag, 1 or 0.
intrinsic_step : Cpu → ℕ → ℕ → Step
intrinsic_step cpu w t = record {
  rc = if (cpu t w).carry then pos 1 else pos 0;
  x = (cpu t w).value % 2 ^ w;
  ticks = t + 1;
}

-- The carry flag is read by `setc`.
asm_step : Cpu → ℕ → ℕ → Step
asm_step cpu w t = record {
  rc = if (cpu t w).carry then rdrand_success else rdrand_failure;
  x = (cpu t w).value % 2 ^ w;
  ticks = t + 1;
}

-- On a 32-bit target `rdrand64_step` fills the two halves one after the other.
asm_step_halves : Cpu → ℕ → Step
unfolding asm_step
asm_step_halves cpu t =
    let low = asm_step cpu 32 t in
    let high = asm_step cpu 32 low.ticks in
    if (cpu t 32).carry
    then record { rc = high.rc; x = low.x + high.x * 2 ^ 32; ticks = high.ticks }
    else low

unfoldable pub rdrand16_step : Build → Cpu → ℕ → Step
unfolding stub_step intrinsic_step asm_step
rdrand16_step stub cpu t = stub_step 16 t
rdrand16_step intrinsics cpu t = intrinsic_step cpu 16 t
rdrand16_step asm_64 cpu t = asm_step cpu 16 t
rdrand16_step asm_32 cpu t = asm_step cpu 16 t

unfoldable pub rdrand32_step : Build → Cpu → ℕ → Step
unfolding stub_step intrinsic_step asm_step
rdrand32_step stub cpu t = stub_step 32 t
rdrand32_step intrinsics cpu t = intrinsic_step cpu 32 t
rdrand32_step asm_64 cpu t = asm_step cpu 32 t
rdrand32_step asm_32 cpu t = asm_step cpu 32 t

unfoldable pub rdrand64_step : Build → Cpu → ℕ → Step
unfolding stub_step intrinsic_step asm_step asm_step_halves
rdrand64_step stub cpu t = stub_step 64 t
rdrand64_step intrinsics cpu t = intrinsic_step cpu 64 t
rdrand64_step asm_64 cpu t = asm_step cpu 64 t
rdrand64_step asm_32 cpu t = asm_step_halves cpu t
