-- ===== src/Bytes/Safety.antt =====
-- Where `rdrand_get_bytes_retry` writes, and how much it returns.
use rd_rand.Prelude.{
  ℕ, ◌+◌, ◌*◌, ◌^◌, ◌≤◌, ◌<◌, ◌≡◌, ◌⊎◌, ◌∙◌, ap, refl, arith, ℤ, pos, ◌==◌, if_elim,
}
use native.Mathlib.Nat.{mul-le-mul_left}
use rd_rand.Cpu.{Cpu, Build}
use rd_rand.Retry.{effective_limit}
use rd_rand.Memory.{Machine}
use rd_rand.Memory.Store.{store_bytes_outside}
use rd_rand.Arrays.Words.{Fills}
use rd_rand.Arrays.Fill.{uint8_array-Fills, uint64_array-Fills}
use rd_rand.Arrays.Full.{NeverFails, uint8_array-full, uint64_array-full}
use rd_rand.Bytes.{
  Blocks, blocks, rest_of, q_words, fill_bytes, fill_blocks, rdrand_get_bytes_retry,
}
use rd_rand.Bytes.Layout.{blocks-Divides, blocks_small}

-- The byte at `p` lies outside the `n` bytes from `dest` on.
abbrev pub Outside : ℕ → ℕ → ℕ → Type 0
Outside dest n p = (p < dest) ⊎ (dest + n ≤ p)

Fills-Outside :
    (unit dest count p : ℕ) (m : Machine) (r : ℕ × Machine)
    → Fills unit dest count m r
    → Outside dest (unit * count) p
    → r.1.mem p ≡ m.mem p
Fills-Outside unit dest count p m r fills out =
    let le : unit * r.0 ≤ unit * count = mul-le-mul_left unit fills.bounded in
    ap (λ s. s.mem p) fills.stores ∙ store_bytes_outside m.mem dest fills.bytes p (omega arith)

module _ (build : Build) (cpu : Cpu) (limit dest n : ℕ) (m : Machine) (generated : ℕ) where
  fill_bytes-le : n < 2 ^ 32 → (fill_bytes build cpu dest n limit (generated, m)).0 ≤ generated + n
  unfolding fill_bytes
  fill_bytes-le small =
      if_elim {A = ℕ × Machine} (λ r. r.0 ≤ generated + n) (n == 0) (λ _. omega arith)
        (λ _. omega (arith, (uint8_array-Fills build cpu dest n (pos limit) m small).bounded))

  fill_bytes-Outside :
      (p : ℕ)
      → n < 2 ^ 32
      → Outside dest n p
      → (fill_bytes build cpu dest n limit (generated, m)).1.mem p ≡ m.mem p
  unfolding fill_bytes
  fill_bytes-Outside p small out =
      if_elim {A = ℕ × Machine} (λ r. r.1.mem p ≡ m.mem p) (n == 0) (λ _. refl)
        (λ _.
          Fills-Outside 1 dest n p m _ (uint8_array-Fills build cpu dest n (pos limit) m small)
            (omega arith))

  fill_blocks-le :
      8 * n < 2 ^ 32 → (fill_blocks build cpu dest n limit (generated, m)).0 ≤ generated + 8 * n
  unfolding fill_blocks
  fill_blocks-le small =
      if_elim {A = ℕ × Machine} (λ r. r.0 ≤ generated + 8 * n) (n == 0) (λ _. omega arith)
        (λ _. omega (arith, (uint64_array-Fills build cpu dest n (pos limit) m).bounded))

  fill_blocks-Outside :
      (p : ℕ)
      → Outside dest (8 * n) p
      → (fill_blocks build cpu dest n limit (generated, m)).1.mem p ≡ m.mem p
  unfolding fill_blocks
  fill_blocks-Outside p out =
      if_elim {A = ℕ × Machine} (λ r. r.1.mem p ≡ m.mem p) (n == 0) (λ _. refl)
        (λ _. Fills-Outside 8 dest n p m _ (uint64_array-Fills build cpu dest n (pos limit) m) out)

  module _ (never : NeverFails cpu) where
    fill_bytes-full :
        n < 2 ^ 32 → (fill_bytes build cpu dest n limit (generated, m)).0 ≡ generated + n
    unfolding fill_bytes
    fill_bytes-full small =
        if_elim {A = ℕ × Machine} (λ r. r.0 ≡ generated + n) (n == 0) (λ z. ground arith)
          (λ _.
            ap (λ g. generated + g) (uint8_array-full build cpu never dest n (pos limit) m small))

    fill_blocks-full :
        8 * n < 2 ^ 32 → (fill_blocks build cpu dest n limit (generated, m)).0 ≡ generated + 8 * n
    unfolding fill_blocks
    fill_blocks-full small =
        if_elim {A = ℕ × Machine} (λ r. r.0 ≡ generated + 8 * n) (n == 0) (λ z. ground arith)
          (λ _. omega (arith, uint64_array-full build cpu never dest n (pos limit) m))

module _ (build : Build) (cpu : Cpu) (start size : ℕ) (retry_limit : ℤ) (m : Machine) where
  abbrev b : Blocks
  b = blocks start size

  abbrev limit : ℕ
  limit = effective_limit retry_limit

  abbrev r1 : ℕ × Machine
  r1 = fill_bytes build cpu start b.offset limit (0, m)

  abbrev r2 : ℕ × Machine
  r2 = fill_blocks build cpu b.aligned_start (q_words b) limit r1

  bytes_retry-le :
      size < 2 ^ 32 → (rdrand_get_bytes_retry build cpu start size retry_limit m).0 ≤ size
  unfolding rdrand_get_bytes_retry
  bytes_retry-le small =
      let d = blocks-Divides start size small in
      omega (
        arith,
        fill_bytes-le build cpu limit start b.offset m 0 (omega arith),
        fill_blocks-le build cpu limit b.aligned_start (q_words b) r1.1 r1.0 d.words_small,
        fill_bytes-le build cpu limit (b.aligned_start + 8 * q_words b) (rest_of b) r2.1 r2.0
            (omega arith),
      )

  bytes_retry-Outside :
      (p : ℕ)
      → size < 2 ^ 32
      → Outside start size p
      → (rdrand_get_bytes_retry build cpu start size retry_limit m).1.mem p ≡ m.mem p
  unfolding rdrand_get_bytes_retry
  bytes_retry-Outside p small out =
      let d = blocks-Divides start size small in
      fill_bytes-Outside build cpu limit (b.aligned_start + 8 * q_words b) (rest_of b) r2.1 r2.0 p
        (omega arith) (omega arith)
      ∙ fill_blocks-Outside build cpu limit b.aligned_start (q_words b) r1.1 r1.0 p (omega arith)
      ∙ fill_bytes-Outside build cpu limit start b.offset m 0 p (omega arith) (omega arith)

  -- Whatever the processor returns, `rdrand_get_bytes_retry` returns `size` at most and changes no
  -- byte outside the buffer of `size` bytes at `start`, for a buffer of less than 2 ^ 32 bytes.
  pub bytes_retry_within :
      (p : ℕ)
      → size < 2 ^ 32
      → Outside start size p
      → ((rdrand_get_bytes_retry build cpu start size retry_limit m).0 ≤ size)
        × ((rdrand_get_bytes_retry build cpu start size retry_limit m).1.mem p ≡ m.mem p)
  bytes_retry_within p small out = (bytes_retry-le small, bytes_retry-Outside p small out)

  -- With a processor on which RDRAND never fails, `rdrand_get_bytes_retry` returns `size`, for a
  -- buffer of less than 2 ^ 32 bytes at any address.
  pub bytes_retry_full :
      NeverFails cpu
      → size < 2 ^ 32
      → (rdrand_get_bytes_retry build cpu start size retry_limit m).0 ≡ size
  unfolding rdrand_get_bytes_retry
  bytes_retry_full never small =
      let d = blocks-Divides start size small in
      omega (
        arith,
        fill_bytes-full build cpu limit start b.offset m 0 never (omega arith),
        fill_blocks-full build cpu limit b.aligned_start (q_words b) r1.1 r1.0 never d.words_small,
        fill_bytes-full build cpu limit (b.aligned_start + 8 * q_words b) (rest_of b) r2.1 r2.0
            never (omega arith),
      )

  -- From 2 ^ 32 + 8 bytes on, `rdrand_get_bytes_retry` returns less than `size`, whatever the
  -- processor returns: the size is cut to an `unsigned int`.
  pub bytes_retry_truncated :
      2 ^ 32 + 8 ≤ size → (rdrand_get_bytes_retry build cpu start size retry_limit m).0 < size
  unfolding rdrand_get_bytes_retry
  bytes_retry_truncated large =
      let d = blocks_small start size in
      omega (
        arith,
        fill_bytes-le build cpu limit start b.offset m 0 (omega arith),
        fill_blocks-le build cpu limit b.aligned_start (q_words b) r1.1 r1.0 d.2,
        fill_bytes-le build cpu limit (b.aligned_start + 8 * q_words b) (rest_of b) r2.1 r2.0
            (omega arith),
      )
