-- ===== src/Arrays/Stub/Widths.antt =====
-- In a build with STUB_RDRAND the functions for 8-bit, 16-bit and 32-bit numbers fill their arrays with
-- ones.
use rd_rand.Prelude.{
  ℕ, ◌+◌, ◌-◌, ◌*◌, ◌/◌, ◌%◌, ◌^◌, ◌≤◌, ◌<◌, ◌≡◌, refl, sym, ap, ◌∙◌, arith, replicate, take, ℤ,
  pos, ltb, ltb→lt, if_elim, min,
}
use rd_rand.Cpu.{Cpu, stub, rdrand_failure, rdrand16_step, rdrand32_step, rdrand64_step}
use rd_rand.Retry.{effective_limit}
use rd_rand.Memory.{Machine, store_bytes, le_bytes}
use rd_rand.Arrays.{
  u32, fill_words, rdrand_get_uint32_array_retry, rdrand_get_uint16_array_retry,
  rdrand_get_uint8_array_retry,
}
use rd_rand.Arrays.Stub.{
  ones, Ones, ones-ones, ones_none, retry-first, take-replicate, uint64_array-Ones,
}

module _ (cpu : Cpu) where
  -- The 64-bit part of an array, behind a head that is filled already.
  fill_words-Ones :
      (unit per_word generated dest dest_64 count_64 limit count : ℕ) (m : Machine)
      → dest_64 ≡ dest + unit * generated
      → unit * per_word ≡ 8
      → generated + per_word * count_64 ≡ count
      → count < 2 ^ 32
      → Ones unit dest count m (
          fill_words stub cpu per_word generated dest_64 count_64 limit
            (ones dest (unit * generated) m))
  unfolding fill_words
  fill_words-Ones unit per_word generated dest dest_64 count_64 limit count m place words8 total
        small =
      ap (λ d. step d) place
      ∙ ap (λ r. (u32 (generated + u32 (per_word * r.0)), r.1))
          (uint64_array-Ones cpu (dest + unit * generated) count_64 (pos limit)
            (ones dest (unit * generated) m))
      ∙ (λ i. (counted i, ones-ones dest (unit * generated) (8 * count_64) m i))
      ∙ ap (λ n. (count, ones dest n m)) bytes
    where
      step : ℕ → ℕ × Machine
      step d =
          fill_words stub cpu per_word generated d count_64 limit (ones dest (unit * generated) m)

      counted : u32 (generated + u32 (per_word * count_64)) ≡ count
      counted = omega (arith, total)

      bytes : unit * generated + 8 * count_64 ≡ unit * count
      bytes = omega (arith, ap (λ (k : ℕ). k * count_64) words8, ap (λ (k : ℕ). unit * k) total)

  -- A head of `generated` items, if there is one, and the words behind it.
  head-Ones :
      (unit per_word generated dest dest_64 count_64 limit count : ℕ) (m headed : Machine)
      → headed ≡ ones dest (unit * generated) m
      → dest_64 ≡ dest + unit * generated
      → unit * per_word ≡ 8
      → generated + per_word * count_64 ≡ count
      → count < 2 ^ 32
      → Ones unit dest count m
          (fill_words stub cpu per_word generated dest_64 count_64 limit headed)
  head-Ones unit per_word generated dest dest_64 count_64 limit count m headed e place words8 total
        small =
      ap (fill_words stub cpu per_word generated dest_64 count_64 limit) e
      ∙ fill_words-Ones unit per_word generated dest dest_64 count_64 limit count m place words8
          total small

  pub uint8_array-Ones :
      (dest count : ℕ) (retry_limit : ℤ) (m : Machine)
      → count < 2 ^ 32
      → Ones 1 dest count m (rdrand_get_uint8_array_retry stub cpu dest count retry_limit m)
  unfolding rdrand_get_uint8_array_retry rdrand64_step le_bytes
  uint8_array-Ones dest count retry_limit m small =
      if_elim {A = ℕ × Machine} (Ones 1 dest count m) (ltb 0 (count % 8))
        (λ _.
          rw
            (retry-first (rdrand64_step stub cpu) rdrand_failure (effective_limit retry_limit)
              m.ticks refl)
            (head-Ones 1 8 (count % 8) dest _ (count / 8) _ count m _
              (ap (λ xs. record m { mem = store_bytes m.mem dest xs })
                (headed (count % 8) (omega arith)))
              (omega arith) refl (omega arith) small))
        (λ none_left.
          head-Ones 1 8 0 dest dest (count / 8) _ count m m (sym (ones_none dest m)) (omega arith)
            refl (ground arith) small)
    where
      headed : (k : ℕ) → k ≤ 8 → take k (le_bytes 8 (2 ^ 64 - 1)) ≡ replicate (1 * k) 255
      headed k le = take-replicate k 8 255 le ∙ ap (λ n. replicate n 255) (omega arith)

  pub uint32_array-Ones :
      (dest count : ℕ) (retry_limit : ℤ) (m : Machine)
      → count < 2 ^ 32
      → Ones 4 dest count m (rdrand_get_uint32_array_retry stub cpu dest count retry_limit m)
  unfolding rdrand_get_uint32_array_retry rdrand32_step le_bytes
  uint32_array-Ones dest count retry_limit m small =
      if_elim {A = ℕ × Machine} (Ones 4 dest count m) (ltb 0 (count - 2 * (count / 2)))
        (λ some_left.
          rw
            (retry-first (rdrand32_step stub cpu) rdrand_failure (effective_limit retry_limit)
              m.ticks refl)
            (head-Ones 4 2 1 dest _ (count / 2) _ count m _ refl refl refl
              (omega (arith, ltb→lt 0 _ some_left)) small))
        (λ none_left.
          head-Ones 4 2 0 dest dest (count / 2) _ count m m (sym (ones_none dest m)) (omega arith)
            refl (ground arith) small)

  -- Of the numbers that do not fill a word one is fetched at most.
  pub uint16_array-Ones :
      (dest count : ℕ) (retry_limit : ℤ) (m : Machine)
      → count < 2 ^ 32
      → Ones 2 dest
          (min 1 (count % 4) + 4 * (count / 4))
          m
          (rdrand_get_uint16_array_retry stub cpu dest count retry_limit m)
  unfolding rdrand_get_uint16_array_retry rdrand16_step le_bytes
  uint16_array-Ones dest count retry_limit m small =
      if_elim {A = ℕ × Machine} (Ones 2 dest most m) (ltb 0 (count - 4 * (count / 4)))
        (λ some_left.
          rw
            (retry-first (rdrand16_step stub cpu) rdrand_failure (effective_limit retry_limit)
              m.ticks refl)
            (head-Ones 2 4 1 dest _ (count / 4) _ most m _ refl refl refl
              (omega (arith, ltb→lt 0 _ some_left)) (omega arith)))
        (λ none_left.
          head-Ones 2 4 0 dest dest (count / 4) _ most m m (sym (ones_none dest m)) (omega arith)
            refl (ground arith) (omega arith))
    where
      most : ℕ
      most = min 1 (count % 4) + 4 * (count / 4)
