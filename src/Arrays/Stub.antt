-- ===== src/Arrays/Stub.antt =====
-- The functions that fill a buffer, in a build with STUB_RDRAND: every step succeeds at once and sets
-- all bits.
pub mod Widths
use native.Mathlib.Nat.{add-zero, zero-add}
use rd_rand.Prelude.{
  ℕ, zero, suc, ◌+◌, ◌-◌, ◌*◌, ◌/◌, ◌%◌, ◌^◌, ◌≤◌, ◌<◌, ◌≡◌, refl, sym, ap, ◌∙◌, arith, List, [],
  ◌∷◌, ◌++◌, length, replicate, length-replicate, take, some, ℤ, pos, ltb, ltb→lt, if_elim, ◌==ℤ◌,
  false, min,
}
use rd_rand.Cpu.{
  Cpu, stub, Step, rdrand_success, rdrand_failure, rdrand16_step, rdrand32_step, rdrand64_step,
}
use rd_rand.Retry.{Fetch, fetch, retry_loop, retry, effective_limit, rdrand_get_uint64_retry}
use rd_rand.Memory.{Machine, store_bytes, le_bytes, words}
use rd_rand.Memory.Store.{store_bytes-append}
use rd_rand.Arrays.{
  u32, fill_words, rdrand_get_uint64_array_retry, rdrand_get_uint32_array_retry,
  rdrand_get_uint16_array_retry, rdrand_get_uint8_array_retry,
}
use rd_rand.Arrays.Drawn.{
  drawn, drawn_ticks, drawn-some, drawn_ticks-some, uint64_array-drawn, wrote,
}

-- The machine after `n` bytes with all bits set were stored from `dest` on.
abbrev pub ones : ℕ → ℕ → Machine → Machine
ones dest n m = record m { mem = store_bytes m.mem dest (replicate n 255) }

-- A function that fills `unit * count` bytes with ones, and returns `count`.
abbrev pub Ones : (unit dest count : ℕ) → Machine → ℕ × Machine → Type 0
Ones unit dest count m r = r ≡ (count, ones dest (unit * count) m)

pub replicate-append : (n k : ℕ) (b : ℕ) → replicate n b ++ replicate k b ≡ replicate (n + k) b
replicate-append zero k b = rw zero-add
replicate-append (suc n) k b =
    let e : suc n + k ≡ suc (n + k) = omega arith in
    rw e (ap (λ xs. b ∷ xs) (replicate-append n k b))

pub ones-ones :
    (dest n k : ℕ) (m : Machine) → ones (dest + n) k (ones dest n m) ≡ ones dest (n + k) m
ones-ones dest n k m =
    ap (λ mem. record m { mem = mem })
      (ap (λ d. store_bytes (store_bytes m.mem dest (replicate n 255)) d (replicate k 255))
          (ap (λ l. dest + l) (sym (length-replicate n 255)))
        ∙ sym (store_bytes-append m.mem dest (replicate n 255) (replicate k 255))
        ∙ ap (store_bytes m.mem dest) (replicate-append n k 255))

ones_none : (dest : ℕ) (m : Machine) → ones dest 0 m ≡ m
unfolding store_bytes
ones_none dest m = refl

words-ones : (n : ℕ) → words (replicate n (2 ^ 64 - 1)) ≡ replicate (8 * n) 255
unfolding words le_bytes
words-ones zero = refl
words-ones (suc n) =
    let e : 8 * suc n ≡ 8 + 8 * n = omega arith in
    rw e (ap (λ xs. replicate 8 255 ++ xs) (words-ones n) ∙ replicate-append 8 (8 * n) 255)

-- A loop whose first step succeeds makes no other.
pub retry-first :
    (step : ℕ → Step) (again : ℤ) (limit t : ℕ)
    → ((step t).rc ==ℤ again) ≡ false
    → retry step again limit t ≡ step t
unfolding retry
retry-first step again limit t ok = first (limit - 1)
  where
    first : (left : ℕ) → retry_loop step again left t ≡ step t
    first zero = unfold retry_loop in refl
    first (suc left) = rw (retry_loop, ok)

pub take-replicate : (k n b : ℕ) → k ≤ n → take k (replicate n b) ≡ replicate k b
take-replicate zero n b h = refl
take-replicate (suc k) zero b h = absurd (omega arith)
take-replicate (suc k) (suc n) b h = ap (λ xs. b ∷ xs) (take-replicate k n b (omega arith))

module _ (cpu : Cpu) where
  pub stub_fetch :
      (retry_limit : ℤ) (t : ℕ)
      → rdrand_get_uint64_retry stub cpu retry_limit t
        ≡ record { rc = rdrand_success; dest = some (2 ^ 64 - 1); ticks = t }
  unfolding rdrand_get_uint64_retry rdrand64_step fetch
  stub_fetch retry_limit t =
      ap fetch
        (retry-first (rdrand64_step stub cpu) rdrand_failure (effective_limit retry_limit) t refl)

  stub_drawn :
      (retry_limit : ℤ) (n t : ℕ)
      → drawn (rdrand_get_uint64_retry stub cpu retry_limit) n t ≡ replicate n (2 ^ 64 - 1)
  stub_drawn retry_limit zero t = unfold drawn in refl
  stub_drawn retry_limit (suc n) t =
      drawn-some _ n t (ap (λ f. f.dest) (stub_fetch retry_limit t))
      ∙ ap (λ xs. (2 ^ 64 - 1) ∷ xs)
          (ap (drawn _ n) (ap (λ f. f.ticks) (stub_fetch retry_limit t))
            ∙ stub_drawn retry_limit n t)

  stub_ticks :
      (retry_limit : ℤ) (n t : ℕ)
      → drawn_ticks (rdrand_get_uint64_retry stub cpu retry_limit) n t ≡ t
  stub_ticks retry_limit zero t = unfold drawn_ticks in refl
  stub_ticks retry_limit (suc n) t =
      drawn_ticks-some _ n t (ap (λ f. f.dest) (stub_fetch retry_limit t))
      ∙ ap (drawn_ticks _ n) (ap (λ f. f.ticks) (stub_fetch retry_limit t))
      ∙ stub_ticks retry_limit n t

  pub uint64_array-Ones :
      (dest count : ℕ) (retry_limit : ℤ) (m : Machine)
      → Ones 8 dest count m (rdrand_get_uint64_array_retry stub cpu dest count retry_limit m)
  uint64_array-Ones dest count retry_limit m =
      uint64_array-drawn stub cpu dest count retry_limit m
      ∙ (λ i. (
        length (drawn_numbers i),
        wrote m dest (words (drawn_numbers i)) (stub_ticks limit count m.ticks i),
      ))
      ∙ (λ i. (
        length-replicate count (2 ^ 64 - 1) i,
        record m { mem = store_bytes m.mem dest (words-ones count i) },
      ))
    where
      limit : ℤ
      limit = pos (effective_limit retry_limit)

      drawn_numbers :
          drawn (rdrand_get_uint64_retry stub cpu limit) count m.ticks
          ≡ replicate count (2 ^ 64 - 1)
      drawn_numbers = stub_drawn limit count m.ticks
