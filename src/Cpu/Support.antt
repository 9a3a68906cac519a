-- ===== src/Cpu/Support.antt =====
-- `rdrand_testSupport`: bit 30 of ECX after CPUID with EAX = 1, which is a parameter.
use rd_rand.Prelude.{ℕ, Bool, true, false, ◌==◌, if◌then◌else◌, ℤ, pos, negsuc, bit_and}

abbrev pub rdrand_supported : ℤ
rdrand_supported = pos 2

abbrev pub rdrand_unsupported : ℤ
rdrand_unsupported = negsuc 1

abbrev pub rdrand_mask : ℕ
rdrand_mask = 0x40000000

-- The four registers that `cpuid` fills.
pub record Cpuid : Type 0 where
  pub eax : ℕ
  pub ebx : ℕ
  pub ecx : ℕ
  pub edx : ℕ

-- `stubbed` is whether STUB_RDRAND is defined; `cpuid eax` is what the instruction returns.
unfoldable pub rdrand_test_support : (stubbed : Bool) → (cpuid : ℕ → Cpuid) → ℤ
rdrand_test_support true cpuid = rdrand_supported
rdrand_test_support false cpuid =
    if bit_and (cpuid 1).ecx rdrand_mask == 0 then rdrand_unsupported else rdrand_supported
