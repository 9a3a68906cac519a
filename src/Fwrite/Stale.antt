-- ===== src/Fwrite/Stale.antt =====
-- What `rdrand_fwrite` writes. Its test `!rc` never holds, since a failing fetch returns -1.
use rd_rand.Prelude.{
  ℕ, zero, suc, ◌+◌, ◌*◌, ◌/◌, ◌%◌, ◌≡◌, refl, sym, ap, ◌∙◌, arith, none, List, [], ◌∷◌, ◌++◌,
  append_assoc, append-nil, ℤ, pos, ◌==ℤ◌, ◌==◌, take, false, replicate,
}
use rd_rand.Cpu.{Cpu, Build, asm_64}
use rd_rand.Retry.Outcome.{uint64_retry-exhausted}
use rd_rand.Retry.{Fetch, fetch, rdrand_get_uint64_retry}
use rd_rand.Memory.{le_bytes, words}
use rd_rand.Fwrite.{Writer, store_in, fetch_tmp, put, fwrite_rest, fwrite_loop, rdrand_fwrite}

module _ (build : Build) (cpu : Cpu) (fwrite : List ℕ → List ℕ → List ℕ) where
  rc_not_zero :
      (retry_limit : ℤ) (t : ℕ)
      → ((rdrand_get_uint64_retry build cpu retry_limit t).rc ==ℤ pos 0) ≡ false
  unfolding rdrand_get_uint64_retry fetch
  rc_not_zero retry_limit t = ground arith

  generated-rest :
      (retry_limit : ℤ) (count8 : ℕ) (s : Writer)
      → (fwrite_rest build cpu fwrite retry_limit count8 s).generated ≡ s.generated + count8
  unfolding fwrite_rest
  generated-rest retry_limit count8 s = ground (arith, rc_not_zero retry_limit s.ticks)

  generated-loop :
      (retry_limit : ℤ) (count8 count64 : ℕ) (s : Writer)
      → (fwrite_loop build cpu fwrite retry_limit count8 count64 s).generated
        ≡ s.generated + 8 * count64 + count8
  unfolding fwrite_loop
  generated-loop retry_limit count8 zero s = generated-rest retry_limit count8 s ∙ omega arith
  generated-loop retry_limit count8 (suc count64) s =
      rw (fwrite_loop, rc_not_zero retry_limit s.ticks)
        (generated-loop retry_limit count8 count64 _ ∙ (unfold put in omega arith))

  -- `rdrand_fwrite` returns `count` whatever the processor and the stream do: it never notices that a
  -- fetch failed.
  pub fwrite_returns_count :
      (junk : ℕ) (file : List ℕ) (count : ℕ) (retry_limit : ℤ) (t : ℕ)
      → (rdrand_fwrite build cpu fwrite junk file count retry_limit t).generated ≡ count
  unfolding rdrand_fwrite
  fwrite_returns_count junk file count retry_limit t =
      generated-loop retry_limit (count % 8) (count / 8) _ ∙ omega arith

-- The contents of `tmprand` after each of `n` fetches: a fetch that fails leaves the old one.
unfoldable pub latched : (ℕ → Fetch) → ℕ → ℕ → ℕ → List ℕ
latched next zero t x = []
latched next (suc n) t x = let y = store_in (next t).dest x in y ∷ latched next n (next t).ticks y

take_word : (n x : ℕ) (ys : List ℕ) → take (8 + n) (le_bytes 8 x ++ ys) ≡ le_bytes 8 x ++ take n ys
unfolding le_bytes
take_word n x ys =
    let e : 8 + n ≡ suc (suc (suc (suc (suc (suc (suc (suc n))))))) = omega arith in rw e

take_all : (x : ℕ) → take 8 (le_bytes 8 x) ≡ le_bytes 8 x
unfolding le_bytes
take_all x = refl

module _ (build : Build) (cpu : Cpu) (fwrite : List ℕ → List ℕ → List ℕ)
    (appends : (file bytes : List ℕ) → fwrite file bytes ≡ file ++ bytes) where
  put-appends :
      (n : ℕ) (s : Writer)
      → (put build cpu fwrite n s).file ≡ s.file ++ take n (le_bytes 8 s.tmprand ++ [])
  unfolding put
  put-appends n s = rw append-nil (appends s.file (take n (le_bytes 8 s.tmprand)))

  file-rest :
      (retry_limit : ℤ) (count8 : ℕ) (s : Writer)
      → (fwrite_rest build cpu fwrite retry_limit count8 s).file
        ≡ s.file
          ++ take count8
              (words (latched (rdrand_get_uint64_retry build cpu retry_limit) 1 s.ticks s.tmprand))
  unfolding fwrite_rest latched words
  file-rest retry_limit zero s = sym (append-nil s.file)
  file-rest retry_limit (suc count8) s =
      let e : (suc count8 == 0) ≡ false = ground arith in
      rw (fwrite_rest, e, rc_not_zero build cpu fwrite retry_limit s.ticks)
        (put-appends (suc count8) (fetch_tmp build cpu fwrite retry_limit s).1)

  file-loop :
      (retry_limit : ℤ) (count8 count64 : ℕ) (s : Writer)
      → (fwrite_loop build cpu fwrite retry_limit count8 count64 s).file
        ≡ s.file
          ++ take (8 * count64 + count8) (
              words (
                latched
                  (rdrand_get_uint64_retry build cpu retry_limit)
                  (suc count64)
                  s.ticks
                  s.tmprand))
  unfolding fwrite_loop latched words
  file-loop retry_limit count8 zero s =
      let e : 0 + count8 ≡ count8 = omega arith in rw e (file-rest retry_limit count8 s)
  file-loop retry_limit count8 (suc count64) s =
      let next = rdrand_get_uint64_retry build cpu retry_limit in
      let r = next s.ticks in
      let y = store_in r.dest s.tmprand in
      let later = take (8 * count64 + count8) (words (latched next (suc count64) r.ticks y)) in
      let e : 8 * suc count64 + count8 ≡ 8 + (8 * count64 + count8) = omega arith in
      rw (fwrite_loop, rc_not_zero build cpu fwrite retry_limit s.ticks)
        (file-loop retry_limit count8 count64 _
          ∙ ap (λ f. f ++ later)
              (appends s.file (take 8 (le_bytes 8 y)) ∙ ap (λ b. s.file ++ b) (take_all y))
          ∙ append_assoc s.file (le_bytes 8 y) later
          ∙ ap (λ b. s.file ++ b)
              (sym (
                  take_word (8 * count64 + count8) y (words (latched next (suc count64) r.ticks y)))
                ∙ ap (λ n. take n (words (latched next (suc (suc count64)) s.ticks s.tmprand)))
                    (sym e)))

  -- With a stream to which fwrite appends, `rdrand_fwrite` appends the first `count` bytes of the
  -- numbers that `tmprand` holds after each fetch, where a fetch that fails leaves the old number (at
  -- first, the content `junk` of the uninitialised variable).
  pub fwrite-latched :
      (junk : ℕ) (file : List ℕ) (count : ℕ) (retry_limit : ℤ) (t : ℕ)
      → (rdrand_fwrite build cpu fwrite junk file count retry_limit t).file
        ≡ file
          ++ take count (
              words
                (latched (rdrand_get_uint64_retry build cpu retry_limit) (suc (count / 8)) t junk))
  unfolding rdrand_fwrite
  fwrite-latched junk file count retry_limit t =
      let e : 8 * (count / 8) + count % 8 ≡ count = omega arith in
      file-loop retry_limit (count % 8) (count / 8) _
      ∙ ap (λ n. file ++ take n (words (latched next (suc (count / 8)) t junk))) e
    where
      next : ℕ → Fetch
      next = rdrand_get_uint64_retry build cpu retry_limit

latched-stale :
    (next : ℕ → Fetch)
    → ((t : ℕ) → (next t).dest ≡ none)
    → (n t x : ℕ) → latched next n t x ≡ replicate n x
unfolding latched
latched-stale next fails zero t x = refl
latched-stale next fails (suc n) t x =
    rw (latched, fails t) (ap (λ xs. x ∷ xs) (latched-stale next fails n (next t).ticks x))

-- With a processor on which every execution of RDRAND fails, `rdrand_fwrite` reports success in full
-- and appends nothing but copies of the old content `junk` of its variable: its first `count` bytes.
-- (With the inline assembly on a 64-bit target, and a stream to which fwrite appends.)
pub fwrite_stale :
    (cpu : Cpu) (fwrite : List ℕ → List ℕ → List ℕ)
    → ((t w : ℕ) → (cpu t w).carry ≡ false)
    → ((file bytes : List ℕ) → fwrite file bytes ≡ file ++ bytes)
    → (junk : ℕ) (file : List ℕ) (count : ℕ) (retry_limit : ℤ) (t : ℕ)
    → let s = rdrand_fwrite asm_64 cpu fwrite junk file count retry_limit t in
      (s.generated ≡ count)
      × (s.file ≡ file ++ take count (words (replicate (suc (count / 8)) junk)))
fwrite_stale cpu fwrite fails appends junk file count retry_limit t = (
  fwrite_returns_count asm_64 cpu fwrite junk file count retry_limit t,
  fwrite-latched asm_64 cpu fwrite appends junk file count retry_limit t
      ∙ ap (λ xs. file ++ take count (words xs))
          (latched-stale (rdrand_get_uint64_retry asm_64 cpu retry_limit)
            (λ s. ap (λ r. r.dest) (uint64_retry-exhausted cpu retry_limit s (λ i p q. fails i 64)))
            (suc (count / 8)) t junk),
)
