-- ===== src/Arrays/Full.antt =====
-- With a processor on which RDRAND never fails the array functions return `count`.
use rd_rand.Prelude.{
  ℕ, zero, suc, ◌+◌, ◌-◌, ◌*◌, ◌/◌, ◌%◌, ◌^◌, ◌<◌, ◌≡◌, refl, ap, ◌∙◌, arith, length, some, ℤ, pos,
  true, ltb, ltb→lt, if_elim,
}
use rd_rand.Cpu.{
  Cpu, Build, stub, intrinsics, asm_64, asm_32, Step, rdrand_success, rdrand_failure, rdrand32_step,
  rdrand64_step,
}
use rd_rand.Retry.{Fetch, fetch, retry_loop, retry, effective_limit, rdrand_get_uint64_retry}
use rd_rand.Memory.{Machine}
use rd_rand.Arrays.{
  u32, fill_words, rdrand_get_uint64_array_retry, rdrand_get_uint32_array_retry,
  rdrand_get_uint8_array_retry,
}
use rd_rand.Arrays.Drawn.{drawn, drawn-some, uint64_array-drawn}

-- Every execution of RDRAND sets the carry flag.
abbrev pub NeverFails : Cpu → Type 0
NeverFails cpu = (t w : ℕ) → (cpu t w).carry ≡ true

retry-step :
    (step : ℕ → Step) (limit t : ℕ)
    → (step t).rc ≡ rdrand_success
    → retry step rdrand_failure limit t ≡ step t
unfolding retry
retry-step step limit t ok = loop-step (limit - 1)
  where
    loop-step : (left : ℕ) → retry_loop step rdrand_failure left t ≡ step t
    loop-step zero = refl
    loop-step (suc left) = rw (retry_loop, ok)

length-drawn :
    (one : ℕ → Fetch)
    → ((t : ℕ) → (x : ℕ) × ((one t).dest ≡ some x))
    → (count t : ℕ) → length (drawn one count t) ≡ count
length-drawn one ok zero t = unfold drawn in refl
length-drawn one ok (suc count) t =
    ap length (drawn-some one count t (ok t).1) ∙ ap suc (length-drawn one ok count (one t).ticks)

module _ (cpu : Cpu) (never : NeverFails cpu) where
  step32-ok : (build : Build) (t : ℕ) → (rdrand32_step build cpu t).rc ≡ rdrand_success
  unfolding rdrand32_step
  step32-ok stub t = refl
  step32-ok intrinsics t = rw (never t 32)
  step32-ok asm_64 t = rw (never t 32)
  step32-ok asm_32 t = rw (never t 32)

  pub step64-ok : (build : Build) (t : ℕ) → (rdrand64_step build cpu t).rc ≡ rdrand_success
  unfolding rdrand64_step
  step64-ok stub t = refl
  step64-ok intrinsics t = rw (never t 64)
  step64-ok asm_64 t = rw (never t 64)
  step64-ok asm_32 t = ground (arith, never t 32, never (t + 1) 32)

module _ (build : Build) (cpu : Cpu) (never : NeverFails cpu) where
  retry64-ok :
      (limit t : ℕ) → (retry (rdrand64_step build cpu) rdrand_failure limit t).rc ≡ rdrand_success
  retry64-ok limit t =
      ap (λ r. r.rc) (retry-step (rdrand64_step build cpu) limit t (step64-ok cpu never build t))
      ∙ step64-ok cpu never build t

  retry32-ok :
      (limit t : ℕ) → (retry (rdrand32_step build cpu) rdrand_failure limit t).rc ≡ rdrand_success
  retry32-ok limit t =
      ap (λ r. r.rc) (retry-step (rdrand32_step build cpu) limit t (step32-ok cpu never build t))
      ∙ step32-ok cpu never build t

  uint64_retry-ok :
      (retry_limit : ℤ) (t : ℕ)
      → (x : ℕ) × ((rdrand_get_uint64_retry build cpu retry_limit t).dest ≡ some x)
  uint64_retry-ok retry_limit t = (
    (retry (rdrand64_step build cpu) rdrand_failure (effective_limit retry_limit) t).x,
    unfold rdrand_get_uint64_retry fetch effective_limit in
        rw (retry64-ok (effective_limit retry_limit) t),
  )

  pub uint64_array-full :
      (dest count : ℕ) (retry_limit : ℤ) (m : Machine)
      → (rdrand_get_uint64_array_retry build cpu dest count retry_limit m).0 ≡ count
  uint64_array-full dest count retry_limit m =
      ap (λ p. p.0) (uint64_array-drawn build cpu dest count retry_limit m)
      ∙ length-drawn _ (uint64_retry-ok _) count m.ticks

  fill_words-full :
      (per_word generated dest_64 count_64 limit total : ℕ) (m : Machine)
      → generated + per_word * count_64 ≡ total
      → total < 2 ^ 32
      → (fill_words build cpu per_word generated dest_64 count_64 limit m).0 ≡ total
  unfolding fill_words
  fill_words-full per_word generated dest_64 count_64 limit total m e small =
      ap (λ n. u32 (generated + u32 (per_word * n)))
        (uint64_array-full dest_64 count_64 (pos limit) m)
      ∙ omega arith

  pub uint8_array-full :
      (dest count : ℕ) (retry_limit : ℤ) (m : Machine)
      → count < 2 ^ 32
      → (rdrand_get_uint8_array_retry build cpu dest count retry_limit m).0 ≡ count
  unfolding rdrand_get_uint8_array_retry
  uint8_array-full dest count retry_limit m small =
      if_elim {A = ℕ × Machine} (λ p. p.0 ≡ count) (ltb 0 (count % 8))
        (λ _.
          rw (retry64-ok (effective_limit retry_limit) m.ticks)
            (fill_words-full 8 (count % 8) _ (count / 8) _ count _ (omega arith) small))
        (λ none_left. fill_words-full 8 0 _ (count / 8) _ count m (ground arith) small)

  uint32_array-full :
      (dest count : ℕ) (retry_limit : ℤ) (m : Machine)
      → count < 2 ^ 32
      → (rdrand_get_uint32_array_retry build cpu dest count retry_limit m).0 ≡ count
  unfolding rdrand_get_uint32_array_retry
  uint32_array-full dest count retry_limit m small =
      if_elim {A = ℕ × Machine} (λ p. p.0 ≡ count) (ltb 0 (count - 2 * (count / 2)))
        (λ some_left.
          rw (retry32-ok (effective_limit retry_limit) m.ticks) (
            fill_words-full 2 1 _ (count / 2) _ count _ (omega (arith, ltb→lt 0 _ some_left))
              small))
        (λ none_left. fill_words-full 2 0 _ (count / 2) _ count m (ground arith) small)

  -- With a processor on which RDRAND never fails, and in every build, the functions that fill arrays
  -- of 8-bit, 32-bit and 64-bit numbers return `count`.
  pub arrays_full :
      (dest count : ℕ) (retry_limit : ℤ) (m : Machine)
      → count < 2 ^ 32
      → ((rdrand_get_uint8_array_retry build cpu dest count retry_limit m).0 ≡ count)
        × ((rdrand_get_uint32_array_retry build cpu dest count retry_limit m).0 ≡ count)
        × ((rdrand_get_uint64_array_retry build cpu dest count retry_limit m).0 ≡ count)
  arrays_full dest count retry_limit m small = (
    uint8_array-full dest count retry_limit m small,
    uint32_array-full dest count retry_limit m small,
    uint64_array-full dest count retry_limit m,
  )
