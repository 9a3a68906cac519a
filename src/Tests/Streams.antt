-- ===== src/Tests/Streams.antt =====
-- The reseeding functions, `rdrand_fwrite` and the detection of RDRAND.
use rd_rand.Prelude.{
  suc, ◌+◌, ◌*◌, ◌/◌, ◌%◌, ◌^◌, ◌≡◌, ◌≢◌, ◌↔◌, refl, Bool, false, [], ◌∷◌, ◌++◌, take, pos, min,
}
use rd_rand.Cpu.{asm_64}
use rd_rand.Cpu.Support.{rdrand_test_support, rdrand_supported, rdrand_unsupported}
use rd_rand.Cpu.Detect.{test_support_bit}
use rd_rand.Retry.{rdrand_get_uint64_retry}
use rd_rand.Memory.{words}
use rd_rand.Arrays.{rdrand_get_uint64_array_retry}
use rd_rand.Arrays.Drawn.{wrote}
use rd_rand.Reseed.{rdrand_get_uint64_array_reseed_delay, rdrand_get_uint64_array_reseed_skip}
use rd_rand.Reseed.Refine.{reseed_delay-array}
use rd_rand.Reseed.Spacing.{spaced, reseed_skip-spaced}
use rd_rand.Fwrite.{rdrand_fwrite}
use rd_rand.Fwrite.Stale.{latched, fwrite-latched}
use rd_rand.Tests.Samples.{steady, steady-NeverFails, late, idle, with_rdrand, append_bytes}

test_support_bit_example :
    ((rdrand_test_support false with_rdrand ≡ rdrand_supported)
      ↔ ((with_rdrand 1).ecx / 2 ^ 30 % 2 ≡ 1))
    × ((rdrand_test_support false with_rdrand ≡ rdrand_unsupported)
        ↔ ((with_rdrand 1).ecx / 2 ^ 30 % 2 ≡ 0))
    × ((stubbed : Bool) → rdrand_test_support stubbed with_rdrand ≢ pos 0)
test_support_bit_example = test_support_bit with_rdrand

reseed_delay-array_example :
    let r = rdrand_get_uint64_array_retry asm_64 late 8 4 (pos 3) idle in
    rdrand_get_uint64_array_reseed_delay asm_64 late 8 4 (pos 3) idle
    ≡ (r.0, record r.1 { slept = 0 + 20 * min 4 (r.0 + 1) })
reseed_delay-array_example = reseed_delay-array asm_64 late 8 4 (pos 3) idle

reseed_skip-spaced_example :
    rdrand_get_uint64_array_reseed_skip asm_64 steady 8 4 (pos 3) idle
    ≡ (4, wrote idle 8 (words (spaced steady 4 0)) (0 + 1025 * 4))
reseed_skip-spaced_example = reseed_skip-spaced steady steady-NeverFails 8 4 (pos 3) idle

fwrite-latched_example :
    (rdrand_fwrite asm_64 late append_bytes 9 (1 ∷ []) 20 (pos 1) 0).file
    ≡ (1 ∷ [])
      ++ take 20 (words (latched (rdrand_get_uint64_retry asm_64 late (pos 1)) (suc (20 / 8)) 0 9))
fwrite-latched_example =
    fwrite-latched asm_64 late append_bytes (λ file bytes. refl) 9 (1 ∷ []) 20 (pos 1) 0
