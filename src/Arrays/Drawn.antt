-- ===== src/Arrays/Drawn.antt =====
-- The numbers that a sequence of fetches yields, up to the first that fails, and the refinement of
-- the loop of `rdrand_get_uint64_array_retry`, with its moving pointer, to that sequence.
use rd_rand.Prelude.{
  ℕ, zero, suc, ◌+◌, ◌≤◌, ◌≡◌, ap, ◌∙◌, inl, inr, Bool-cases, List, [], ◌∷◌, arith, length, none,
  some, ℤ, pos, ◌==ℤ◌, true, false,
}
use rd_rand.Cpu.{Cpu, Build, Step, rdrand_success, rdrand_failure, rdrand64_step}
use rd_rand.Retry.{Fetch, retry, effective_limit, rdrand_get_uint64_retry}
use rd_rand.Memory.{Machine, store_bytes, le_bytes, words}
use rd_rand.Memory.Store.{store_bytes-append, length-le_bytes}
use rd_rand.Arrays.{uint64_array_loop, rdrand_get_uint64_array_retry}

-- Up to `count` numbers, from execution `t` of RDRAND on; `one` fetches the next of them.
unfoldable pub drawn : (ℕ → Fetch) → ℕ → ℕ → List ℕ
drawn one zero t = []
drawn one (suc count) t =
    let rest = drawn one count (one t).ticks in elim (one t).dest [ none ↦ [] | some x ↦ x ∷ rest ]

-- The number of executions when they have been fetched.
unfoldable pub drawn_ticks : (ℕ → Fetch) → ℕ → ℕ → ℕ
drawn_ticks one zero t = t
drawn_ticks one (suc count) t =
    let rest = drawn_ticks one count (one t).ticks in
    elim (one t).dest [ none ↦ (one t).ticks | some x ↦ rest ]

-- The machine after `bytes` were stored from `dest` on.
abbrev pub wrote : Machine → ℕ → List ℕ → ℕ → Machine
wrote m dest bytes ticks = record m { ticks = ticks; mem = store_bytes m.mem dest bytes }

pub length-drawn-le : (one : ℕ → Fetch) (count t : ℕ) → length (drawn one count t) ≤ count
unfolding drawn
length-drawn-le one zero t = omega arith
length-drawn-le one (suc count) t = ground (arith, length-drawn-le one count (one t).ticks)

module _ (one : ℕ → Fetch) (n t : ℕ) where
  pub drawn-some :
      {x : ℕ} → (one t).dest ≡ some x → drawn one (suc n) t ≡ x ∷ drawn one n (one t).ticks
  unfolding drawn
  drawn-some e = rw (drawn, e)

  pub drawn-none : (one t).dest ≡ none → drawn one (suc n) t ≡ []
  unfolding drawn
  drawn-none e = rw (drawn, e)

  pub drawn_ticks-some :
      {x : ℕ} → (one t).dest ≡ some x → drawn_ticks one (suc n) t ≡ drawn_ticks one n (one t).ticks
  unfolding drawn_ticks
  drawn_ticks-some e = rw (drawn_ticks, e)

  pub drawn_ticks-none : (one t).dest ≡ none → drawn_ticks one (suc n) t ≡ (one t).ticks
  unfolding drawn_ticks
  drawn_ticks-none e = rw (drawn_ticks, e)

module _ (build : Build) (cpu : Cpu) where
  abbrev one : ℕ → ℕ → Fetch
  one limit = rdrand_get_uint64_retry build cpu (pos limit)

  word : ℕ → ℕ → Step
  word limit = retry (rdrand64_step build cpu) rdrand_failure limit

  one-some :
      (limit t : ℕ)
      → ((word limit t).rc ==ℤ rdrand_success) ≡ true
      → (one limit t).dest ≡ some (word limit t).x
  unfolding rdrand_get_uint64_retry word
  one-some limit t e = rw e

  one-none :
      (limit t : ℕ) → ((word limit t).rc ==ℤ rdrand_success) ≡ false → (one limit t).dest ≡ none
  unfolding rdrand_get_uint64_retry word
  one-none limit t e = rw e

  one-ticks : (limit t : ℕ) → (one limit t).ticks ≡ (word limit t).ticks
  unfolding rdrand_get_uint64_retry word
  one-ticks limit t = ground arith

  stored_words :
      (m : Machine) (dest g x tick ticks : ℕ) (xs : List ℕ)
      → ◌≡◌ {A = ℕ × Machine}
          (g + 1 + length xs, wrote (wrote m dest (le_bytes 8 x) tick) (dest + 8) (words xs) ticks)
          (g + length (x ∷ xs), wrote m dest (words (x ∷ xs)) ticks)
  unfolding words
  stored_words m dest g x tick ticks xs =
      let e : g + 1 + length xs ≡ g + suc (length xs) = omega arith in
      rw (e, store_bytes-append m.mem dest (le_bytes 8 x) (words xs), length-le_bytes 8 x)

  module _ (limit left dest g : ℕ) (m : Machine) where
    abbrev r : Step
    r = word limit m.ticks

    loop-hit :
        (r.rc ==ℤ rdrand_success) ≡ true
        → uint64_array_loop build cpu limit (suc left) dest g m
          ≡ uint64_array_loop build cpu limit left
              (dest + 8)
              (g + 1)
              (wrote m dest (le_bytes 8 r.x) r.ticks)
    unfolding uint64_array_loop word
    loop-hit e = rw (uint64_array_loop, e)

    loop-miss :
        (r.rc ==ℤ rdrand_success) ≡ false
        → uint64_array_loop build cpu limit (suc left) dest g m ≡ (g, record m { ticks = r.ticks })
    unfolding uint64_array_loop word
    loop-miss e = rw (uint64_array_loop, e)

  wrote_nothing :
      (m : Machine) (dest g ticks : ℕ)
      → ◌≡◌ {A = ℕ × Machine}
          (g, record m { ticks = ticks })
          (g + length {A = ℕ} [], wrote m dest (words []) ticks)
  unfolding words store_bytes
  wrote_nothing m dest g ticks = let e : g + 0 ≡ g = omega arith in rw e

  uint64_array_loop-drawn :
      (limit left dest g : ℕ) (m : Machine)
      → uint64_array_loop build cpu limit left dest g m ≡ (
        g + length (drawn (one limit) left m.ticks),
        wrote m dest
            (words (drawn (one limit) left m.ticks))
            (drawn_ticks (one limit) left m.ticks),
      )
  uint64_array_loop-drawn limit zero dest g m =
      unfold uint64_array_loop drawn drawn_ticks in wrote_nothing m dest g m.ticks
  uint64_array_loop-drawn limit (suc left) dest g m =
      elim (Bool-cases ((word limit m.ticks).rc ==ℤ rdrand_success)) [
        | inl hit ↦
            rw
              (
                drawn-some (one limit) left m.ticks (one-some limit m.ticks hit),
                drawn_ticks-some (one limit) left m.ticks (one-some limit m.ticks hit),
                one-ticks limit m.ticks,
                loop-hit limit left dest g m hit,
              )
              (uint64_array_loop-drawn limit left (dest + 8) (g + 1) _
                ∙ stored_words m dest g _ (word limit m.ticks).ticks _ _)
        | inr miss ↦
            rw
              (
                drawn-none (one limit) left m.ticks (one-none limit m.ticks miss),
                drawn_ticks-none (one limit) left m.ticks (one-none limit m.ticks miss),
                one-ticks limit m.ticks,
                loop-miss limit left dest g m miss,
              )
              (wrote_nothing m dest g _)
      ]

  -- `rdrand_get_uint64_array_retry` stores at `dest` the numbers that repeated calls of
  -- `rdrand_get_uint64_retry` yield, up to `count` of them or to the first that fails, as consecutive
  -- 64-bit words; it returns how many these are, executes RDRAND as often as those calls, and changes
  -- nothing else.
  pub uint64_array-drawn :
      (dest count : ℕ) (retry_limit : ℤ) (m : Machine)
      → let next = rdrand_get_uint64_retry build cpu (pos (effective_limit retry_limit)) in
        rdrand_get_uint64_array_retry build cpu dest count retry_limit m ≡ (
          length (drawn next count m.ticks),
          wrote m dest (words (drawn next count m.ticks)) (drawn_ticks next count m.ticks),
        )
  uint64_array-drawn dest count retry_limit m =
      unfold rdrand_get_uint64_array_retry in
      uint64_array_loop-drawn (effective_limit retry_limit) count dest 0 m
      ∙ ap (λ n. (n, wrote m dest (words ds) (drawn_ticks next count m.ticks))) zero
    where
      next : ℕ → Fetch
      next = rdrand_get_uint64_retry build cpu (pos (effective_limit retry_limit))

      ds : List ℕ
      ds = drawn next count m.ticks

      zero : 0 + length ds ≡ length ds
      zero = omega arith
