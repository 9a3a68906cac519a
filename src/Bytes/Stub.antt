-- ===== src/Bytes/Stub.antt =====
-- `rdrand_get_bytes_retry` in a build with STUB_RDRAND.
use rd_rand.Prelude.{ℕ, ◌+◌, ◌*◌, ◌^◌, ◌<◌, ◌≡◌, ap, ◌∙◌, arith, ℤ, pos, ◌==◌, Bool-cases, inl, inr}
use rd_rand.Cpu.{Cpu, stub}
use rd_rand.Retry.{effective_limit}
use rd_rand.Memory.{Machine, store_bytes}
use rd_rand.Arrays.{u32}
use rd_rand.Arrays.Stub.{ones, Ones, ones-ones, uint64_array-Ones}
use rd_rand.Arrays.Stub.Widths.{uint8_array-Ones}
use rd_rand.Bytes.{
  Blocks, blocks, rest_of, q_words, fill_bytes, fill_blocks, rdrand_get_bytes_retry,
}
use rd_rand.Bytes.Layout.{Divides, blocks-Divides}

-- The first `g` bytes of the buffer are filled.
abbrev filled_to : ℕ → Machine → ℕ → ℕ × Machine
filled_to start m g = (g, ones start g m)

module _ (cpu : Cpu) (start limit : ℕ) (m : Machine) where
  fill_bytes-filled_to :
      (dest n g : ℕ)
      → dest ≡ start + g
      → n < 2 ^ 32
      → fill_bytes stub cpu dest n limit (filled_to start m g) ≡ filled_to start m (g + n)
  unfolding fill_bytes
  fill_bytes-filled_to dest n g place small = elim (Bool-cases (n == 0)) [
    | inl none_left ↦ let e : g ≡ g + n = ground arith in rw none_left (ap (filled_to start m) e)
    | inr some_left ↦ rw some_left (
        ap (λ r. (g + r.0, r.1)) (uint8_array-Ones cpu dest n (pos limit) (ones start g m) small)
        ∙ ap (λ d. (g + n, ones d (1 * n) (ones start g m))) place
        ∙ ap (λ k. (g + n, k)) (ones-ones start g (1 * n) m)
        ∙ ap (λ k. (g + n, ones start (g + k) m)) (omega arith))
  ]

  fill_blocks-filled_to :
      (dest n g : ℕ)
      → dest ≡ start + g
      → 8 * n < 2 ^ 32
      → fill_blocks stub cpu dest n limit (filled_to start m g) ≡ filled_to start m (g + 8 * n)
  unfolding fill_blocks
  fill_blocks-filled_to dest n g place small = elim (Bool-cases (n == 0)) [
    | inl none_left ↦
        let e : g ≡ g + 8 * n = ground arith in rw none_left (ap (filled_to start m) e)
    | inr some_left ↦ rw some_left (
        ap (λ r. (g + u32 (8 * r.0), r.1))
          (uint64_array-Ones cpu dest n (pos limit) (ones start g m))
        ∙ ap (λ d. (g + u32 (8 * n), ones d (8 * n) (ones start g m))) place
        ∙ (λ i. (g + sized i, ones-ones start g (8 * n) m i)))
  ]
    where
      sized : u32 (8 * n) ≡ 8 * n
      sized = omega arith

module _ (cpu : Cpu) where
  -- In a build with STUB_RDRAND `rdrand_get_bytes_retry` returns `size` and sets every byte of the
  -- buffer to 255, and changes nothing else, for sizes below 2 ^ 32, whatever the alignment of the
  -- buffer and the retry limit.
  pub bytes_retry-Ones :
      (start size : ℕ) (retry_limit : ℤ) (m : Machine)
      → size < 2 ^ 32
      → Ones 1 start size m (rdrand_get_bytes_retry stub cpu start size retry_limit m)
  unfolding rdrand_get_bytes_retry store_bytes
  bytes_retry-Ones start size retry_limit m small =
      ap
        (λ r.
          fill_bytes stub cpu (b.aligned_start + 8 * q_words b) (rest_of b) limit
            (fill_blocks stub cpu b.aligned_start (q_words b) limit r))
        (fill_bytes-filled_to cpu start limit m start b.offset 0 (omega arith)
          (omega (arith, d.offset_small)))
      ∙ ap (fill_bytes stub cpu (b.aligned_start + 8 * q_words b) (rest_of b) limit) (
          fill_blocks-filled_to cpu start limit m b.aligned_start (q_words b) (0 + b.offset)
            (omega (arith, d.adjacent)) d.words_small)
      ∙ fill_bytes-filled_to cpu start limit m (b.aligned_start + 8 * q_words b) (rest_of b)
          (0 + b.offset + 8 * q_words b) (omega (arith, d.adjacent)) (omega (arith, d.rest_small))
      ∙ (λ i. (total i, ones start (total_one i) m))
    where
      limit : ℕ
      limit = effective_limit retry_limit

      b : Blocks
      b = blocks start size

      d : Divides start size b
      d = blocks-Divides start size small

      total : 0 + b.offset + 8 * q_words b + rest_of b ≡ size
      total = omega (arith, d.parts)

      total_one : 0 + b.offset + 8 * q_words b + rest_of b ≡ 1 * size
      total_one = omega (arith, d.parts)
