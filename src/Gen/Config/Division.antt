-- ===== src/Gen/Config/Division.antt =====
-- How `compute_chunk_size` divides the bytes that are asked for.
use rd_rand.Prelude.{
  ℕ, ◌+◌, ◌-◌, ◌*◌, ◌/◌, ◌%◌, ◌^◌, ◌≤◌, ◌<◌, ◌≡◌, refl, arith, if_elim, ltb, lt→ltb, ltb→lt,
  Bool-cases, inl, inr,
}
use native.Mathlib.Nat.{
  mul-pos, div-mul-le_self, mul-le-mul_right, lt-div-mul-add, mod-eq-sub-mod, mod-eq_of_lt,
  le-div_iff_mul-le,
}
use rd_rand.Gen.Config.{Cnf, size_t, chunk_size_of, compute_chunk_size}

chunk_size-le : (blocks threads : ℕ) → chunk_size_of blocks threads ≤ 2048
unfolding chunk_size_of
chunk_size-le blocks threads = ground arith

chunk_size-le-div : (blocks threads : ℕ) → chunk_size_of blocks threads ≤ blocks / threads
unfolding chunk_size_of
chunk_size-le-div blocks threads = ground arith

chunk_size-small : (blocks threads : ℕ) → chunk_size_of blocks threads ≡ 0 → blocks / threads ≡ 0
unfolding chunk_size_of
chunk_size-small blocks threads none_full = ground arith

-- One round of all threads asks for no more blocks than there are.
round-le : (blocks threads : ℕ) → chunk_size_of blocks threads * threads ≤ blocks
round-le blocks threads = omega (
  arith,
  mul-le-mul_right threads (chunk_size-le-div blocks threads),
  div-mul-le_self blocks threads,
)

-- The bytes that whole rounds of `u` blocks leave.
rest_lem :
    (bytes u : ℕ)
    → 0 < u
    → u ≤ bytes / 8
    → let d = bytes / 8 / u * u * 8 in (d + bytes % d ≡ bytes) × (bytes % d < 8 * u) × (d ≤ bytes)
rest_lem bytes u some_u fits =
    let q = bytes / 8 / u in
    let one_round : 1 ≤ q = (le-div_iff_mul-le some_u).1 (omega arith) in
    let u_le : u ≤ q * u = omega (arith, mul-le-mul_right u one_round) in
    let v = q * u in
    let low : v * 8 ≤ bytes = omega (arith, div-mul-le_self (bytes / 8) u) in
    let high : bytes - v * 8 < v * 8 = omega (arith, lt-div-mul-add {a = bytes / 8} some_u) in
    let rest : bytes % (v * 8) ≡ bytes - v * 8 =
      omega (arith, mod-eq-sub-mod low, mod-eq_of_lt high) in
    (omega arith, omega (arith, lt-div-mul-add {a = bytes / 8} some_u), low)

pub shuffle : (a b c : ℕ) → a * b * c ≡ b * (a * c)
shuffle a b c = grind arith

one_more : (a b : ℕ) → (a + 1) * b ≡ a * b + b
one_more a b = grind arith

module _ (c : Cnf) where
  abbrev blocks : ℕ
  blocks = c.bytes / 8

  abbrev size : ℕ
  size = chunk_size_of blocks c.threads

  abbrev r : Cnf
  r = compute_chunk_size c

  abbrev count : ℕ
  count = blocks / (size * c.threads)

  fits_size_t : (n : ℕ) → n ≤ c.bytes → c.bytes < 2 ^ 64 → size_t n ≡ n
  unfolding size_t
  fits_size_t n le fits = omega arith

  -- Some chunk is filled.
  chunks_filled :
      0 < size
      → 0 < c.threads
      → 0 < c.bytes
      → c.bytes < 2 ^ 64
      → r ≡ record c {
        blocks = blocks;
        chunk_size = size;
        chunk_count = count;
        ending_bytes = c.bytes % (size * count * c.threads * 8);
      }
  unfolding compute_chunk_size
  chunks_filled some_size some_thread some_byte fits =
      let round = fits_size_t (size * c.threads) (omega (arith, round-le blocks c.threads)) fits in
      let le : size * count * c.threads * 8 ≤ c.bytes = omega (
        arith,
        shuffle size count c.threads,
        (rest_lem c.bytes (size * c.threads) (mul-pos some_size some_thread)
            (round-le blocks c.threads)).2,
      ) in
      rw
        (
          lt→ltb 0 c.bytes some_byte,
          lt→ltb 0 size some_size,
          round,
          fits_size_t (size * count * c.threads * 8) le fits,
        )
        refl

  -- What `compute_chunk_size` does not change.
  pub record IsKept (c' : Cnf) : Type 0 where
    pub method_kept : c'.method ≡ c.method
    pub aes_kept : c'.aes_flag ≡ c.aes_flag
    pub keys_kept : c'.aeskeys_filename ≡ c.aeskeys_filename
    pub threads_kept : c'.threads ≡ c.threads
    pub bytes_kept : c'.bytes ≡ c.bytes

  pub compute_chunk_size-IsKept : IsKept (compute_chunk_size c)
  unfolding compute_chunk_size
  compute_chunk_size-IsKept =
      if_elim {A = Cnf} IsKept (ltb 0 c.bytes)
        (λ _. if_elim {A = Cnf} IsKept (ltb 0 size) (λ _. kept) (λ _. kept)) (λ _. kept)
    where
      kept :
          {b s n e : ℕ}
          → IsKept (record c { blocks = b; chunk_size = s; chunk_count = n; ending_bytes = e })
      kept = record {
        method_kept = refl;
        aes_kept = refl;
        keys_kept = refl;
        threads_kept = refl;
        bytes_kept = refl;
      }

  chunks_empty :
      size ≡ 0
      → 0 < c.bytes
      → r ≡ record c { blocks = blocks; chunk_size = size; ending_bytes = c.bytes }
  unfolding compute_chunk_size
  chunks_empty no_size some_byte = rw (lt→ltb 0 c.bytes some_byte, no_size) refl

  -- For `bytes` other than 0, and a thread at least, the chunks of all threads and the ending bytes
  -- are together the `bytes` that are asked for; a chunk has 2048 blocks at most; the ending bytes are
  -- fewer than a round of chunks that have one block more. No product overflows.
  pub compute_chunk_size-divides :
      0 < c.threads
      → 0 < c.bytes
      → c.bytes < 2 ^ 64
      → (r.chunk_size * r.chunk_count * r.threads * 8 + r.ending_bytes ≡ c.bytes)
        × (r.chunk_size ≤ 2048)
        × (r.ending_bytes < (r.chunk_size + 1) * r.threads * 8)
  compute_chunk_size-divides some_thread some_byte fits = elim (Bool-cases (ltb 0 size)) [
    | inl filled ↦
        let some_size : 0 < size = omega (arith, ltb→lt 0 size filled) in
        let rest =
          rest_lem c.bytes (size * c.threads) (mul-pos some_size some_thread)
            (round-le blocks c.threads) in
        rw (chunks_filled some_size some_thread some_byte fits) (
          rw (shuffle size count c.threads) rest.0,
          chunk_size-le blocks c.threads,
          rw (shuffle size count c.threads) (omega (arith, rest.1, one_more size c.threads)),
        )
    | inr empty ↦
        let no_size : size ≡ 0 = ground arith in
        let few = lt-div-mul-add {a = blocks} some_thread in
        let none_full = chunk_size-small blocks c.threads no_size in
        rw (chunks_empty no_size some_byte, no_size)
          (omega arith, omega arith, omega (arith, rw none_full at few))
  ]
