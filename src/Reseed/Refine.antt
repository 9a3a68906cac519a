-- ===== src/Reseed/Refine.antt =====
-- The reseeding functions against the sequence of fetches that they stand for.
use rd_rand.Prelude.{
  ℕ, zero, suc, ◌+◌, ◌*◌, ◌≡◌, refl, sym, ap, ◌∙◌, inl, inr, List, ◌∷◌, arith, length, Option-cases,
  none, some, ℤ, pos, min,
}
use native.Mathlib.Nat.{add-zero}
use rd_rand.Cpu.{Cpu, Build, Step, rdrand_success, rdrand_failure, rdrand64_step}
use rd_rand.Retry.{Fetch, fetch, retry, effective_limit, rdrand_get_uint64_retry}
use rd_rand.Memory.{Mem, Machine, store_bytes, le_bytes, words}
use rd_rand.Memory.Store.{store_bytes-append, length-le_bytes}
use rd_rand.Arrays.{rdrand_get_uint64_array_retry}
use rd_rand.Arrays.Drawn.{
  drawn, drawn_ticks, drawn-some, drawn-none, drawn_ticks-some, drawn_ticks-none, wrote,
  uint64_array-drawn,
}
use rd_rand.Reseed.{
  reseed_delay, delay_loop, rdrand_get_uint64_array_reseed_delay, skip, skip_loop,
  rdrand_get_uint64_array_reseed_skip,
}

-- The number of fetches that were made for `drawn`: one more than there are numbers, if the last
-- one failed.
unfoldable pub fetches : (ℕ → Fetch) → ℕ → ℕ → ℕ
fetches one count t = min count (length (drawn one count t) + 1)

abbrev Loop : Type 0
Loop = ℕ → ℕ → ℕ → Machine → ℕ × Machine

-- One round of a loop that sleeps for `nap` microseconds and then fetches a number by `one`.
abbrev Stored : (ℕ → Fetch) → ℕ → Machine → ℕ → ℕ → Machine
Stored one nap m dest x = record {
  ticks = (one m.ticks).ticks;
  mem = store_bytes m.mem dest (le_bytes 8 x);
  slept = m.slept + nap;
}

record Rounds (one : ℕ → Fetch) (nap : ℕ) (loop : Loop) : Type 0 where
  stop : (dest g : ℕ) (m : Machine) → loop 0 dest g m ≡ (g, m)
  hit :
      (left dest g x : ℕ) (m : Machine)
      → (one m.ticks).dest ≡ some x
      → loop (suc left) dest g m ≡ loop left (dest + 8) (g + 1) (Stored one nap m dest x)
  miss :
      (left dest g : ℕ) (m : Machine)
      → (one m.ticks).dest ≡ none
      → loop (suc left) dest g m
        ≡ (g, record m { ticks = (one m.ticks).ticks; slept = m.slept + nap })

module _ (one : ℕ → Fetch) (left t : ℕ) where
  fetches-some :
      {x : ℕ}
      → (one t).dest ≡ some x
      → fetches one (suc left) t ≡ suc (fetches one left (one t).ticks)
  unfolding fetches
  fetches-some got = rw (drawn-some one left t got) (omega arith)

  fetches-none : (one t).dest ≡ none → fetches one (suc left) t ≡ 1
  unfolding fetches
  fetches-none no_more = rw (drawn-none one left t no_more) (omega arith)

stored_words :
    (m : Mem) (dest x : ℕ) (xs : List ℕ)
    → store_bytes m dest (words (x ∷ xs))
      ≡ store_bytes (store_bytes m dest (le_bytes 8 x)) (dest + 8) (words xs)
unfolding words
stored_words m dest x xs =
    store_bytes-append m dest (le_bytes 8 x) (words xs)
    ∙ ap (λ n. store_bytes (store_bytes m dest (le_bytes 8 x)) (dest + n) (words xs))
        (length-le_bytes 8 x)

result_eq :
    (t : ℕ) {g h s u : ℕ} {a b : Mem}
    → g ≡ h
    → a ≡ b
    → s ≡ u
    → ◌≡◌ {A = ℕ × Machine}
        (g, record { ticks = t; mem = a; slept = s })
        (h, record { ticks = t; mem = b; slept = u })
result_eq t p q r = λ i. (p i, record { ticks = t; mem = q i; slept = r i })

module _ (one : ℕ → Fetch) (nap : ℕ) (loop : Loop) (rounds : Rounds one nap loop) where
  -- The machine when the loop is over.
  abbrev Final : ℕ → ℕ → Machine → Machine
  Final left dest m = record {
    ticks = drawn_ticks one left m.ticks;
    mem = store_bytes m.mem dest (words (drawn one left m.ticks));
    slept = m.slept + nap * fetches one left m.ticks;
  }

  loop-drawn :
      (left dest g : ℕ) (m : Machine)
      → loop left dest g m ≡ (g + length (drawn one left m.ticks), Final left dest m)
  loop-drawn zero dest g m =
      rounds.stop dest g m
      ∙ (unfold drawn drawn_ticks fetches words store_bytes in
          result_eq m.ticks (omega arith) refl (omega arith))
  loop-drawn (suc left) dest g m = elim (Option-cases (one m.ticks).dest) [
    | inl no_more ↦
        rounds.miss left dest g m no_more
        ∙ rw (drawn-none one left m.ticks no_more, drawn_ticks-none one left m.ticks no_more)
            (result_eq (one m.ticks).ticks (omega arith) (unfold words store_bytes in refl)
              (omega (arith, ap (λ n. nap * n) (fetches-none one left m.ticks no_more))))
    | inr (x, got) ↦
        rounds.hit left dest g x m got
        ∙ loop-drawn left (dest + 8) (g + 1) (Stored one nap m dest x)
        ∙ rw (drawn-some one left m.ticks got, drawn_ticks-some one left m.ticks got)
            (result_eq (drawn_ticks one left (one m.ticks).ticks) (omega arith)
              (sym (stored_words m.mem dest x (drawn one left (one m.ticks).ticks)))
              (omega (arith, ap (λ n. nap * n) (fetches-some one left m.ticks got))))
  ]

fetch_rc-some : (r : Step) {x : ℕ} → (fetch r).dest ≡ some x → (fetch r).rc ≡ rdrand_success
unfolding fetch
fetch_rc-some r got = ground arith

fetch_rc-none : (r : Step) → (fetch r).dest ≡ none → (fetch r).rc ≡ rdrand_failure
unfolding fetch
fetch_rc-none r no_more = ground arith

module _ (build : Build) (cpu : Cpu) where
  abbrev one : ℕ → ℕ → Fetch
  one limit = rdrand_get_uint64_retry build cpu (pos limit)

  abbrev pub one_skipped : ℕ → ℕ → Fetch
  one_skipped limit t = one limit (skip build cpu 1024 t)

  rc-some : (limit t : ℕ) {x : ℕ} → (one limit t).dest ≡ some x → (one limit t).rc ≡ rdrand_success
  unfolding rdrand_get_uint64_retry
  rc-some limit t got = fetch_rc-some (retry (rdrand64_step build cpu) rdrand_failure limit t) got

  rc-none : (limit t : ℕ) → (one limit t).dest ≡ none → (one limit t).rc ≡ rdrand_failure
  unfolding rdrand_get_uint64_retry
  rc-none limit t no_more =
      fetch_rc-none (retry (rdrand64_step build cpu) rdrand_failure limit t) no_more

  delay-Rounds : (limit : ℕ) → Rounds (one limit) reseed_delay (delay_loop build cpu limit)
  unfolding delay_loop
  delay-Rounds limit = record {
    stop = λ dest g m. refl;
    hit = λ left dest g x m got. rw (delay_loop, rc-some limit m.ticks got, got) refl;
    miss = λ left dest g m no_more. rw (delay_loop, rc-none limit m.ticks no_more) refl;
  }

  skip-Rounds : (limit : ℕ) → Rounds (one_skipped limit) 0 (skip_loop build cpu limit)
  unfolding skip_loop
  skip-Rounds limit = record {
    stop = λ dest g m. refl;
    hit = λ left dest g x m got.
        rw (skip_loop, rc-some limit (skip build cpu 1024 m.ticks) got, got, add-zero) refl;
    miss = λ left dest g m no_more.
        rw (skip_loop, rc-none limit (skip build cpu 1024 m.ticks) no_more, add-zero) refl;
  }

  -- `rdrand_get_uint64_array_reseed_delay` returns and stores what `rdrand_get_uint64_array_retry`
  -- does with the same processor, and sleeps 20 microseconds before each of its fetches: one for each
  -- number that it stores, and one more if that is less than `count`.
  pub reseed_delay-array :
      (dest count : ℕ) (retry_limit : ℤ) (m : Machine)
      → let r = rdrand_get_uint64_array_retry build cpu dest count retry_limit m in
        rdrand_get_uint64_array_reseed_delay build cpu dest count retry_limit m
        ≡ (r.0, record r.1 { slept = m.slept + 20 * min count (r.0 + 1) })
  unfolding rdrand_get_uint64_array_reseed_delay
  reseed_delay-array dest count retry_limit m =
      rw (uint64_array-drawn build cpu dest count retry_limit m) (
        loop-drawn (one limit) 20 _ (delay-Rounds limit) count dest 0 m
        ∙ result_eq (drawn_ticks (one limit) count m.ticks) (omega arith) refl
            (unfold fetches in refl))
    where
      limit : ℕ
      limit = effective_limit retry_limit

  -- `rdrand_get_uint64_array_reseed_skip` stores at `dest` the numbers that repeated fetches yield, up
  -- to `count` of them or to the first that fails, where each fetch comes after 1024 steps whose
  -- results are dropped; it returns how many these are.
  pub reseed_skip-drawn :
      (dest count : ℕ) (retry_limit : ℤ) (m : Machine)
      → let next = one_skipped (effective_limit retry_limit) in
        rdrand_get_uint64_array_reseed_skip build cpu dest count retry_limit m ≡ (
          length (drawn next count m.ticks),
          wrote m dest (words (drawn next count m.ticks)) (drawn_ticks next count m.ticks),
        )
  unfolding rdrand_get_uint64_array_reseed_skip
  reseed_skip-drawn dest count retry_limit m =
      loop-drawn (one_skipped limit) 0 _ (skip-Rounds limit) count dest 0 m
      ∙ result_eq (drawn_ticks (one_skipped limit) count m.ticks) (omega arith) refl (omega arith)
    where
      limit : ℕ
      limit = effective_limit retry_limit
