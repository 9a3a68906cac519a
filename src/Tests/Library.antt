-- ===== src/Tests/Library.antt =====
-- The library on a processor that never fails, always fails, or fails twice.
use rd_rand.Prelude.{◌+◌, ◌%◌, ◌^◌, ◌≤◌, ◌≡◌, refl, inl, arith, length, pos, some}
use rd_rand.Cpu.{asm_64, asm_32, rdrand_success}
use rd_rand.Retry.{effective_limit, rdrand_get_uint64_retry}
use rd_rand.Retry.Outcome.{uint64_retry-first}
use rd_rand.Memory.{words}
use rd_rand.Arrays.{
  rdrand_get_uint8_array_retry, rdrand_get_uint32_array_retry, rdrand_get_uint64_array_retry,
}
use rd_rand.Arrays.Drawn.{drawn, drawn_ticks, wrote, uint64_array-drawn}
use rd_rand.Arrays.Full.{arrays_full}
use rd_rand.Bytes.{blocks, rdrand_get_bytes_retry}
use rd_rand.Bytes.Layout.{Divides, blocks-Divides}
use rd_rand.Bytes.Safety.{bytes_retry_within, bytes_retry_full}
use rd_rand.Tests.Samples.{steady, steady-NeverFails, late, idle}

uint64_retry-first_example :
    rdrand_get_uint64_retry asm_64 late (pos 3) 0
    ≡ record { rc = rdrand_success; dest = some (77 % 2 ^ 64); ticks = 2 + 1 }
uint64_retry-first_example =
    uint64_retry-first late (pos 3) 0 2 (omega arith) (unfold effective_limit in omega arith)
      (λ i from below. ground arith) refl

uint64_array-drawn_example :
    let next = rdrand_get_uint64_retry asm_64 late (pos (effective_limit (pos 3))) in
    rdrand_get_uint64_array_retry asm_64 late 64 2 (pos 3) idle
    ≡ (length (drawn next 2 0), wrote idle 64 (words (drawn next 2 0)) (drawn_ticks next 2 0))
uint64_array-drawn_example = uint64_array-drawn asm_64 late 64 2 (pos 3) idle

arrays_full_example :
    ((rdrand_get_uint8_array_retry asm_32 steady 9 10 (pos 0) idle).0 ≡ 10)
    × ((rdrand_get_uint32_array_retry asm_32 steady 9 10 (pos 0) idle).0 ≡ 10)
    × ((rdrand_get_uint64_array_retry asm_32 steady 9 10 (pos 0) idle).0 ≡ 10)
arrays_full_example = arrays_full asm_32 steady steady-NeverFails 9 10 (pos 0) idle (omega arith)

blocks-Divides_example : Divides 1003 100 (blocks 1003 100)
blocks-Divides_example = blocks-Divides 1003 100 (omega arith)

bytes_retry_within_example :
    ((rdrand_get_bytes_retry asm_64 late 1003 100 (pos 3) idle).0 ≤ 100)
    × ((rdrand_get_bytes_retry asm_64 late 1003 100 (pos 3) idle).1.mem 1002 ≡ idle.mem 1002)
bytes_retry_within_example =
    bytes_retry_within asm_64 late 1003 100 (pos 3) idle 1002 (omega arith) (inl (omega arith))

bytes_retry_full_example : (rdrand_get_bytes_retry asm_64 steady 1003 100 (pos 3) idle).0 ≡ 100
bytes_retry_full_example =
    bytes_retry_full asm_64 steady 1003 100 (pos 3) idle steady-NeverFails (omega arith)
