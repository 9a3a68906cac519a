-- ===== src/Check/Library.antt =====
-- `main` of the library's tests (check_tests/check_rdrand.c, lines 622-662).
use rd_rand.Prelude.{ℕ, Bool, true, false, ◌&&◌, ◌≡◌, ◌↔◌, ◌⊎◌, if◌then◌else◌, arith, ◌==ℤ◌}
use rd_rand.Cpu.{Cpu, Build, intrinsics, asm_64}
use rd_rand.Cpu.Support.{Cpuid, rdrand_unsupported, rdrand_test_support}
use rd_rand.Memory.{Machine}
use rd_rand.Check.Steps.{
  rdrand_stub_methods_suite, rdrand_native_steps_methods_suite, rdrand_retry_methods_suite,
}
use rd_rand.Check.Steps.Passes.{stub_suite-passes, retry_suite-passes}
use rd_rand.Check.Steps.Native.{Draws, native_suite_iff}
use rd_rand.Check.Arrays.{arrays_suite}
use rd_rand.Check.Arrays.Passes.{arrays_suite-passes}

module _ (cpu : Cpu) (cpuid : ℕ → Cpuid) (dst : ℕ) (native : Build) (m : Machine) where
  -- EXIT_SUCCESS is true: no test has failed. The tests are built with STUB_RDRAND.
  unfoldable pub check_rdrand : Bool
  check_rdrand =
      let passed =
        rdrand_stub_methods_suite cpu dst m
        && (rdrand_native_steps_methods_suite cpu dst native m
            && (rdrand_retry_methods_suite cpu dst m && arrays_suite cpu dst m)) in
      if rdrand_test_support true cpuid ==ℤ rdrand_unsupported then false else passed

  -- The tests of the library pass, all of them, exactly when the native steps draw three numbers that
  -- are not zero, one of each size: the tests of the stub, of the retry functions and of all arrays
  -- pass with every processor, wherever the local arrays lie and whatever the memory holds. (With the
  -- intrinsics, or with the inline assembly on a 64-bit target.)
  pub check_rdrand_iff :
      (native ≡ intrinsics) ⊎ (native ≡ asm_64)
      → (check_rdrand ≡ true) ↔ (Draws cpu m.ticks 16 × Draws cpu m.ticks 32 × Draws cpu m.ticks 64)
  unfolding check_rdrand rdrand_test_support
  check_rdrand_iff direct =
      rw (stub_suite-passes cpu dst m, retry_suite-passes cpu dst m, arrays_suite-passes cpu dst m)
        (
          (λ h. (native_suite_iff cpu dst m native direct).0 (ground arith)),
          (λ h. rw ((native_suite_iff cpu dst m native direct).1 h)),
        )
