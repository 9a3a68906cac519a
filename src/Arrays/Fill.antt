-- ===== src/Arrays/Fill.antt =====
-- What the array functions write: consecutive bytes from `dest` on, as many as their result says.
use rd_rand.Prelude.{
  ℕ, ◌+◌, ◌-◌, ◌*◌, ◌/◌, ◌%◌, ◌^◌, ◌≤◌, ◌<◌, ◌≡◌, refl, sym, subst, ap, ◌∙◌, List, arith, length,
  length-take, take, ℤ, pos, ◌==ℤ◌, ltb, min, if_elim, ltb→lt,
}
use rd_rand.Cpu.{
  Cpu, Build, Step, rdrand_success, rdrand_failure, rdrand64_step, rdrand16_step, rdrand32_step,
}
use rd_rand.Retry.{Fetch, retry, effective_limit, rdrand_get_uint64_retry}
use rd_rand.Memory.{Machine, le_bytes, words}
use rd_rand.Memory.Store.{length-le_bytes, length-words}
use rd_rand.Arrays.{
  rdrand_get_uint64_array_retry, rdrand_get_uint16_array_retry, rdrand_get_uint32_array_retry,
  rdrand_get_uint8_array_retry,
}
use rd_rand.Arrays.Drawn.{drawn, drawn_ticks, wrote, length-drawn-le, uint64_array-drawn}
use rd_rand.Arrays.Words.{Fills, no_head-Fills, head-Fills, failed-Fills}

module _ (build : Build) (cpu : Cpu) where
  pub uint8_array-Fills :
      (dest count : ℕ) (retry_limit : ℤ) (m : Machine)
      → count < 2 ^ 32
      → Fills 1 dest count m (rdrand_get_uint8_array_retry build cpu dest count retry_limit m)
  uint8_array-Fills dest count retry_limit m small =
      unfold rdrand_get_uint8_array_retry in
      if_elim (Fills 1 dest count m) (ltb 0 (count % 8))
        (λ _.
          if_elim (Fills 1 dest count m) (r.rc ==ℤ rdrand_success)
            (λ _.
              head-Fills build cpu 1 8 (count % 8) dest (dest + count % 8) (count / 8) limit r.ticks
                count head m (omega (arith, sized)) refl (omega (arith, sized)) (omega arith) small)
            (λ _. failed-Fills build cpu 1 dest count r.ticks m))
        (λ none_left.
          no_head-Fills build cpu 1 8 dest (count / 8) limit count m refl (ground arith) small)
    where
      limit : ℕ
      limit = effective_limit retry_limit

      r : Step
      r = retry (rdrand64_step build cpu) rdrand_failure limit m.ticks

      head : List ℕ
      head = take (count % 8) (le_bytes 8 r.x)

      sized : length head ≡ count % 8
      sized = omega (arith, length-take (count % 8) (le_bytes 8 r.x), length-le_bytes 8 r.x)

  pub uint16_array-Fills :
      (dest count : ℕ) (retry_limit : ℤ) (m : Machine)
      → count < 2 ^ 32
      → Fills 2 dest
          (min 1 (count % 4) + 4 * (count / 4))
          m
          (rdrand_get_uint16_array_retry build cpu dest count retry_limit m)
  uint16_array-Fills dest count retry_limit m small =
      unfold rdrand_get_uint16_array_retry in
      if_elim (Fills 2 dest most m) (ltb 0 (count - 4 * (count / 4)))
        (λ some_left.
          if_elim (Fills 2 dest most m) (r.rc ==ℤ rdrand_success)
            (λ _.
              head-Fills build cpu 2 4 1 dest (dest + 2) (count / 4) limit r.ticks most
                (le_bytes 2 r.x) m (omega (arith, sized)) refl sized
                (omega (arith, ltb→lt 0 _ some_left)) (omega arith))
            (λ _. failed-Fills build cpu 2 dest most r.ticks m))
        (λ none_left.
          no_head-Fills build cpu 2 4 dest (count / 4) limit most m refl (ground arith)
            (omega arith))
    where
      most : ℕ
      most = min 1 (count % 4) + 4 * (count / 4)

      limit : ℕ
      limit = effective_limit retry_limit

      r : Step
      r = retry (rdrand16_step build cpu) rdrand_failure limit m.ticks

      sized : length (le_bytes 2 r.x) ≡ 2
      sized = length-le_bytes 2 r.x

  pub uint32_array-Fills :
      (dest count : ℕ) (retry_limit : ℤ) (m : Machine)
      → count < 2 ^ 32
      → Fills 4 dest count m (rdrand_get_uint32_array_retry build cpu dest count retry_limit m)
  uint32_array-Fills dest count retry_limit m small =
      unfold rdrand_get_uint32_array_retry in
      if_elim (Fills 4 dest count m) (ltb 0 (count - 2 * (count / 2)))
        (λ some_left.
          if_elim (Fills 4 dest count m) (r.rc ==ℤ rdrand_success)
            (λ _.
              head-Fills build cpu 4 2 1 dest (dest + 4) (count / 2) limit r.ticks count
                (le_bytes 4 r.x) m (omega (arith, sized)) refl sized
                (omega (arith, ltb→lt 0 _ some_left)) small)
            (λ _. failed-Fills build cpu 4 dest count r.ticks m))
        (λ none_left.
          no_head-Fills build cpu 4 2 dest (count / 2) limit count m refl (ground arith) small)
    where
      limit : ℕ
      limit = effective_limit retry_limit

      r : Step
      r = retry (rdrand32_step build cpu) rdrand_failure limit m.ticks

      sized : length (le_bytes 4 r.x) ≡ 4
      sized = length-le_bytes 4 r.x

  -- When two or three 16-bit numbers remain beside the 64-bit words, `rdrand_get_uint16_array_retry`
  -- returns less than `count`, also if no execution of RDRAND fails.
  pub uint16_array_short :
      (dest count : ℕ) (retry_limit : ℤ) (m : Machine)
      → count < 2 ^ 32
      → 2 ≤ count % 4
      → (rdrand_get_uint16_array_retry build cpu dest count retry_limit m).0 < count
  uint16_array_short dest count retry_limit m small two =
      omega (arith, (uint16_array-Fills dest count retry_limit m small).bounded)

  pub uint64_array-Fills :
      (dest count : ℕ) (retry_limit : ℤ) (m : Machine)
      → Fills 8 dest count m (rdrand_get_uint64_array_retry build cpu dest count retry_limit m)
  uint64_array-Fills dest count retry_limit m = record {
    bytes = words ds;
    ticks = drawn_ticks next count m.ticks;
    stores = ap (λ p. p.1) run;
    sized = length-words ds ∙ ap (λ p. 8 * p.0) (sym run);
    bounded = subst (λ n. n ≤ count) (ap (λ p. p.0) (sym run)) (length-drawn-le next count m.ticks);
  }
    where
      next : ℕ → Fetch
      next = rdrand_get_uint64_retry build cpu (pos (effective_limit retry_limit))

      ds : List ℕ
      ds = drawn next count m.ticks

      run :
          rdrand_get_uint64_array_retry build cpu dest count retry_limit m
          ≡ (length ds, wrote m dest (words ds) (drawn_ticks next count m.ticks))
      run = uint64_array-drawn build cpu dest count retry_limit m

  -- The functions for arrays of 8-bit, 16-bit and 32-bit numbers store consecutive numbers from `dest`
  -- on, as many as they return, and change no other byte, whatever the processor returns. They return
  -- `count` at most; that for 16-bit numbers fetches, of the `count % 4` numbers that do not fill a
  -- 64-bit word, one at most.
  pub narrow_arrays-Fills :
      (dest count : ℕ) (retry_limit : ℤ) (m : Machine)
      → count < 2 ^ 32
      → Fills 1 dest count m (rdrand_get_uint8_array_retry build cpu dest count retry_limit m)
        × Fills 2 dest
            (min 1 (count % 4) + 4 * (count / 4))
            m
            (rdrand_get_uint16_array_retry build cpu dest count retry_limit m)
        × Fills 4 dest count m (rdrand_get_uint32_array_retry build cpu dest count retry_limit m)
  narrow_arrays-Fills dest count retry_limit m small = (
    uint8_array-Fills dest count retry_limit m small,
    uint16_array-Fills dest count retry_limit m small,
    uint32_array-Fills dest count retry_limit m small,
  )
