-- ===== src/Arrays/Words.antt =====
-- The 64-bit part of an array, behind a head of fewer numbers than a word holds.
use rd_rand.Prelude.{
  ℕ, ◌+◌, ◌*◌, ◌^◌, ◌≤◌, ◌<◌, ◌≡◌, refl, sym, subst, ap, ◌∙◌, List, [], ◌++◌, arith, length,
  length-append, pos,
}
use rd_rand.Cpu.{Cpu, Build}
use rd_rand.Retry.{Fetch, effective_limit, rdrand_get_uint64_retry}
use rd_rand.Memory.{Machine, store_bytes, words}
use rd_rand.Memory.Store.{store_bytes-append, length-words}
use rd_rand.Arrays.{u32, fill_words, rdrand_get_uint64_array_retry}
use rd_rand.Arrays.Drawn.{drawn, drawn_ticks, wrote, length-drawn-le, uint64_array-drawn}

-- The result `r` of a function that was called on machine `m`: it stored `r.0` items of `unit` bytes
-- from `dest` on, at most `count` of them, and changed no other byte.
pub record Fills (unit dest count : ℕ) (m : Machine) (r : ℕ × Machine) : Type 0 where
  pub bytes : List ℕ
  pub ticks : ℕ
  pub stores : r.1 ≡ wrote m dest bytes ticks
  pub sized : length bytes ≡ unit * r.0
  pub bounded : r.0 ≤ count

module _ (unit per_word generated length_64 count_64 count : ℕ) (words8 : unit * per_word ≡ 8)
    (total : generated + per_word * count_64 ≡ count) (below : length_64 ≤ count_64)
    (small : count < 2 ^ 32) where
  total_bounded : generated + per_word * length_64 ≤ count
  total_bounded = let le : per_word * length_64 ≤ per_word * count_64 = grind arith in omega arith

  -- The counters do not wrap.
  total_u32 : u32 (generated + u32 (per_word * length_64)) ≡ generated + per_word * length_64
  total_u32 = omega (arith, total_bounded)

  total_bytes : unit * (generated + per_word * length_64) ≡ unit * generated + 8 * length_64
  total_bytes = omega (arith, ap (λ (k : ℕ). k * length_64) words8)

module _ (build : Build) (cpu : Cpu) where
  -- The 64-bit part of an array, after a head of `generated` items.
  pub fill_words-Fills :
      (unit per_word generated dest count_64 limit t count : ℕ) (head : List ℕ) (m : Machine)
      → unit * per_word ≡ 8
      → length head ≡ unit * generated
      → generated + per_word * count_64 ≡ count
      → count < 2 ^ 32
      → Fills unit dest count m (
          fill_words build cpu per_word generated
            (dest + length head)
            count_64
            limit
            (wrote m dest head t))
  unfolding fill_words
  fill_words-Fills unit per_word generated dest count_64 limit t count head m words8 headed total
        small =
      record {
        bytes = head ++ words ds;
        ticks = _;
        stores =
            ap (λ p. p.1) run
            ∙ ap (λ mem. record m { ticks = drawn_ticks next count_64 t; mem = mem })
                (sym (store_bytes-append m.mem dest head (words ds)));
        sized = bytes_sized ∙ ap (λ n. unit * n) (sym counted);
        bounded = subst (λ n. n ≤ count) (sym counted) bound;
      }
    where
      next : ℕ → Fetch
      next = rdrand_get_uint64_retry build cpu (pos (effective_limit (pos limit)))

      ds : List ℕ
      ds = drawn next count_64 t

      run :
          rdrand_get_uint64_array_retry build cpu
            (dest + length head)
            count_64
            (pos limit)
            (wrote m dest head t)
          ≡ (
            length ds,
            wrote
                (wrote m dest head t)
                (dest + length head)
                (words ds)
                (drawn_ticks next count_64 t),
          )
      run =
          uint64_array-drawn build cpu (dest + length head) count_64 (pos limit)
            (wrote m dest head t)

      counted :
          (fill_words build cpu per_word generated
            (dest + length head)
            count_64
            limit
            (wrote m dest head t)).0
          ≡ generated + per_word * length ds
      counted =
          ap (λ p. u32 (generated + u32 (per_word * p.0))) run
          ∙ total_u32 unit per_word generated (length ds) count_64 count words8 total
              (length-drawn-le next count_64 t) small

      bound : generated + per_word * length ds ≤ count
      bound =
          total_bounded unit per_word generated (length ds) count_64 count words8 total
            (length-drawn-le next count_64 t) small

      bytes_sized : length (head ++ words ds) ≡ unit * (generated + per_word * length ds)
      bytes_sized = omega (
        arith,
        length-append head (words ds),
        length-words ds,
        total_bytes unit per_word generated (length ds) count_64 count words8 total
            (length-drawn-le next count_64 t) small,
      )

  -- The same, for a function that has no head to fetch, or one whose head succeeded or failed.
  pub no_head-Fills :
      (unit per_word dest count_64 limit count : ℕ) (m : Machine)
      → unit * per_word ≡ 8
      → per_word * count_64 ≡ count
      → count < 2 ^ 32
      → Fills unit dest count m (fill_words build cpu per_word 0 dest count_64 limit m)
  no_head-Fills unit per_word dest count_64 limit count m words8 total small =
      let z : dest + 0 ≡ dest = omega arith in
      subst (λ d. Fills unit dest count m (fill_words build cpu per_word 0 d count_64 limit m)) z
        (unfold store_bytes in
          fill_words-Fills unit per_word 0 dest count_64 limit m.ticks count [] m words8
            (omega arith) (omega arith) small)

  pub head-Fills :
      (unit per_word generated dest dest_64 count_64 limit t count : ℕ) (head : List ℕ)
      (m : Machine)
      → dest_64 ≡ dest + length head
      → unit * per_word ≡ 8
      → length head ≡ unit * generated
      → generated + per_word * count_64 ≡ count
      → count < 2 ^ 32
      → Fills unit dest count m
          (fill_words build cpu per_word generated dest_64 count_64 limit (wrote m dest head t))
  head-Fills unit per_word generated dest dest_64 count_64 limit t count head m place words8 headed
        total small =
      rw place (
        fill_words-Fills unit per_word generated dest count_64 limit t count head m words8 headed
          total small)

  pub failed-Fills :
      (unit dest count t : ℕ) (m : Machine) → Fills unit dest count m (0, record m { ticks = t })
  failed-Fills unit dest count t m = record {
    bytes = [];
    ticks = t;
    stores = unfold store_bytes in refl;
    sized = omega arith;
    bounded = omega arith;
  }
