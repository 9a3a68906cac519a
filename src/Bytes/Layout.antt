-- ===== src/Bytes/Layout.antt =====
-- How `rdrand_get_bytes_retry` divides its buffer.
use rd_rand.Prelude.{
  ℕ, ◌+◌, ◌*◌, ◌%◌, ◌^◌, ◌≤◌, ◌<◌, ◌≡◌, ◌⊎◌, inl, inr, Bool-cases, ltb→lt, arith, ltb,
}
use rd_rand.Bytes.{Blocks, blocks, rest_of, q_words}

-- The three parts follow one another and make up the buffer of `size` bytes at `start`, and no part
-- is wider than the `unsigned int` that counts it. The 64-bit blocks of a buffer of eight bytes or
-- more are aligned.
pub record Divides (start size : ℕ) (b : Blocks) : Type 0 where
  pub parts : b.offset + 8 * q_words b + rest_of b ≡ size
  pub adjacent : b.aligned_start ≡ start + b.offset
  pub offset_small : b.offset ≤ 8
  pub rest_small : rest_of b < 8
  pub words_small : 8 * q_words b < 2 ^ 32
  pub aligned : (size < 8) ⊎ (b.aligned_start % 8 ≡ 0)

aligned_lem : (start size : ℕ) → (size < 8) ⊎ ((blocks start size).aligned_start % 8 ≡ 0)
unfolding blocks
aligned_lem start size = elim (Bool-cases (ltb size 8)) [
  | inl small ↦ inl (ltb→lt size 8 small)
  | inr large ↦ inr (ground arith)
]

-- A buffer of less than 2 ^ 32 bytes is divided into adjacent parts that make it up: 8 bytes at most
-- before the blocks, the 64-bit blocks, aligned unless the buffer is shorter than one, and
-- fewer than 8 bytes after them.
pub blocks-Divides : (start size : ℕ) → size < 2 ^ 32 → Divides start size (blocks start size)
unfolding blocks rest_of q_words
blocks-Divides start size small = record {
  parts = ground arith;
  adjacent = ground arith;
  offset_small = ground arith;
  rest_small = ground arith;
  words_small = ground arith;
  aligned = aligned_lem start size;
}

-- Whatever `size` is, the parts fit the counters, and have less than 2 ^ 32 + 8 bytes together.
pub blocks_small :
    (start size : ℕ)
    → let b = blocks start size in
      (b.offset ≤ 8)
      × (rest_of b < 8)
      × (8 * q_words b < 2 ^ 32)
      × (b.offset + 8 * q_words b + rest_of b < 2 ^ 32 + 8)
unfolding blocks rest_of q_words
blocks_small start size = ground arith
