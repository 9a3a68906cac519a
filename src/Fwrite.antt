-- ===== src/Fwrite.antt =====
-- `rdrand_fwrite` (src/librdrand.c, lines 674-712). The stream is a parameter: `fwrite file bytes` is
-- its content after a call of fwrite, whose result the function does not look at.
pub mod Stale
use rd_rand.Prelude.{
  ℕ, zero, suc, ◌+◌, ◌*◌, ◌/◌, ◌%◌, Option, none, some, List, if◌then◌else◌, ℤ, pos, ◌==ℤ◌, ◌==◌,
  take,
}
use rd_rand.Cpu.{Cpu, Build}
use rd_rand.Retry.{rdrand_get_uint64_retry}
use rd_rand.Memory.{le_bytes}

-- The local variables, the executions of RDRAND so far, and the content of the stream.
pub record Writer : Type 0 where
  pub ticks : ℕ
  pub tmprand : ℕ
  pub generated : ℕ
  pub file : List ℕ

-- `*dest` after a fetch that stores into it only on success.
abbrev pub store_in : Option ℕ → ℕ → ℕ
store_in none old = old
store_in (some x) old = x

module _ (build : Build) (cpu : Cpu) (fwrite : List ℕ → List ℕ → List ℕ) where
  -- `rdrand_get_uint64_retry(&tmprand, retry_limit)`, which is followed by the test `!rc`.
  unfoldable pub fetch_tmp : ℤ → Writer → ℤ × Writer
  fetch_tmp retry_limit s =
      let r = rdrand_get_uint64_retry build cpu retry_limit s.ticks in
      (r.rc, record s { ticks = r.ticks; tmprand = store_in r.dest s.tmprand })

  -- `fwrite(&tmprand, ...)` of the first `n` bytes, and `generated += n`.
  unfoldable pub put : ℕ → Writer → Writer
  put n s = record s {
    generated = s.generated + n;
    file = fwrite s.file (take n (le_bytes 8 s.tmprand));
  }

  -- The rest unaligned bytes.
  unfoldable pub fwrite_rest : ℤ → ℕ → Writer → Writer
  unfolding fetch_tmp put
  fwrite_rest retry_limit count8 s =
      let (rc, s') = fetch_tmp retry_limit s in
      if count8 == 0 then s else if rc ==ℤ pos 0 then s' else put count8 s'

  -- The 64-bit blocks, `count64` of them, and what follows.
  unfoldable pub fwrite_loop : ℤ → ℕ → ℕ → Writer → Writer
  unfolding fetch_tmp put fwrite_rest
  fwrite_loop retry_limit count8 zero s = fwrite_rest retry_limit count8 s
  fwrite_loop retry_limit count8 (suc count64) s =
      let (rc, s') = fetch_tmp retry_limit s in
      let rest = fwrite_loop retry_limit count8 count64 (put 8 s') in
      if rc ==ℤ pos 0 then s' else rest

  -- `junk` is what the uninitialised `tmprand` holds. The result is `generated` of the last state.
  unfoldable pub rdrand_fwrite : (junk : ℕ) → (file : List ℕ) → (count : ℕ) → ℤ → ℕ → Writer
  unfolding fwrite_loop
  rdrand_fwrite junk file count retry_limit t =
      fwrite_loop retry_limit (count % 8) (count / 8)
        (record { ticks = t; tmprand = junk; generated = 0; file = file })
