-- ===== src/Cpu/Detect.antt =====
-- The outcome of `rdrand_testSupport`.
use rd_rand.Prelude.{ℕ, ◌*◌, ◌/◌, ◌%◌, ◌^◌, ◌≡◌, ◌≢◌, ◌↔◌, arith, pos, bit_and, true, false, Bool}
use rd_rand.Bits.{bit_and-pow}
use rd_rand.Cpu.Support.{
  Cpuid, rdrand_supported, rdrand_unsupported, rdrand_mask, rdrand_test_support,
}

-- `rdrand_testSupport` returns `RDRAND_SUPPORTED` exactly when bit 30 of ECX is set after CPUID with
-- EAX = 1, and `RDRAND_UNSUPPORTED` exactly when it is clear; both are non-zero, so that the test
-- `!rdrand_testSupport()` never holds.
pub test_support_bit :
    (cpuid : ℕ → Cpuid)
    → ((rdrand_test_support false cpuid ≡ rdrand_supported) ↔ ((cpuid 1).ecx / 2 ^ 30 % 2 ≡ 1))
      × ((rdrand_test_support false cpuid ≡ rdrand_unsupported) ↔ ((cpuid 1).ecx / 2 ^ 30 % 2 ≡ 0))
      × ((stubbed : Bool) → rdrand_test_support stubbed cpuid ≢ pos 0)
unfolding rdrand_test_support
test_support_bit cpuid = (
  (λ e. ground (arith, bit), λ e. ground (arith, bit)),
  (λ e. ground (arith, bit), λ e. ground (arith, bit)),
  nonzero,
)
  where
    bit : bit_and (cpuid 1).ecx rdrand_mask ≡ (cpuid 1).ecx / 2 ^ 30 % 2 * 2 ^ 30
    bit = bit_and-pow 30 (cpuid 1).ecx

    nonzero : (stubbed : Bool) → rdrand_test_support stubbed cpuid ≢ pos 0
    nonzero true e = cc
    nonzero false e = ground arith
