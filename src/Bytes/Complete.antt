-- ===== src/Bytes/Complete.antt =====
-- Processors and builds with which `rdrand_get_bytes_retry` fills every buffer.
use rd_rand.Prelude.{ℕ, ◌^◌, ◌<◌, ◌≡◌, ap, ℤ}
use rd_rand.Cpu.{Cpu, Build, stub}
use rd_rand.Memory.{Machine}
use rd_rand.Arrays.Full.{NeverFails}
use rd_rand.Bytes.{rdrand_get_bytes_retry}
use rd_rand.Bytes.Safety.{bytes_retry_full}
use rd_rand.Bytes.Stub.{bytes_retry-Ones}

abbrev pub Complete : Build → Cpu → Type 0
Complete build cpu =
    (start size : ℕ) (retry_limit : ℤ) (m : Machine)
    → size < 2 ^ 32
    → (rdrand_get_bytes_retry build cpu start size retry_limit m).0 ≡ size

pub never-Complete : (build : Build) (cpu : Cpu) → NeverFails cpu → Complete build cpu
never-Complete build cpu never start size retry_limit m small =
    bytes_retry_full build cpu start size retry_limit m never small

pub stub-Complete : (cpu : Cpu) → Complete stub cpu
stub-Complete cpu start size retry_limit m small =
    ap (λ r. r.0) (bytes_retry-Ones cpu start size retry_limit m small)
