-- ===== src/Gen/Chunks/Parts.antt =====
-- The parts of the buffer that the generating threads of a round of `generate_chunk` fill.
use rd_rand.Prelude.{
  ℕ, zero, suc, ◌+◌, ◌-◌, ◌*◌, ◌/◌, ◌^◌, ◌≤◌, ◌<◌, ◌≡◌, refl, ap, ◌∙◌, arith, List, length, ℤ, pos,
}
use rd_rand.Cpu.{Cpu, Build}
use rd_rand.Retry.{effective_limit, rdrand_get_uint64_retry}
use rd_rand.Memory.{Machine, words, store_bytes}
use rd_rand.Memory.Store.{store_bytes_outside, length-words}
use rd_rand.Arrays.{u32}
use rd_rand.Arrays.Drawn.{drawn, length-drawn-le, uint64_array-drawn}
use rd_rand.Bytes.Safety.{Outside, bytes_retry_within}
use rd_rand.Reseed.Refine.{one_skipped, reseed_delay-array, reseed_skip-drawn}
use rd_rand.Gen.Config.{Method, get_bytes, get_reseed64_delay, get_reseed64_skip}
use rd_rand.Gen.Chunks.{retry_limit, generate_with_metod, fill_threads}

abbrev Within : ℕ → ℕ → Machine → ℕ × Machine → Type 0
Within n p m r = (r.0 ≤ n) × (r.1.mem p ≡ m.mem p)

words-Outside :
    (m : Machine) (buf n p : ℕ) (xs : List ℕ)
    → length xs ≤ n / 8
    → Outside buf n p
    → (length xs * 8 ≤ n) × (store_bytes m.mem buf (words xs) p ≡ m.mem p)
words-Outside m buf n p xs le out =
    (omega arith, store_bytes_outside m.mem buf (words xs) p (omega (arith, length-words xs)))

module _ (build : Build) (cpu : Cpu) where
  metod-Within :
      (method : Method) (buf n p : ℕ) (limit : ℤ) (m : Machine)
      → n < 2 ^ 32
      → Outside buf n p
      → Within n p m (generate_with_metod build cpu method buf n limit m)
  unfolding generate_with_metod
  metod-Within get_bytes buf n p limit m small out =
      bytes_retry_within build cpu buf n limit m p small out
  metod-Within get_reseed64_delay buf n p limit m small out =
      rw
        (
          reseed_delay-array build cpu buf (n / 8) limit m,
          uint64_array-drawn build cpu buf (n / 8) limit m,
        )
        (words-Outside m buf n p
          (drawn (rdrand_get_uint64_retry build cpu (pos (effective_limit limit))) (n / 8) m.ticks)
          (length-drawn-le _ (n / 8) m.ticks) out)
  metod-Within get_reseed64_skip buf n p limit m small out =
      rw (reseed_skip-drawn build cpu buf (n / 8) limit m) (
        words-Outside m buf n p
          (drawn (one_skipped build cpu (effective_limit limit)) (n / 8) m.ticks)
          (length-drawn-le _ (n / 8) m.ticks) out)

  module _ (method : Method) (chunk cur : ℕ) where
    -- The state when `left` threads have run from thread `i` on.
    abbrev after_threads : ℕ → ℕ → ℕ → Machine → ℕ × Machine
    after_threads left i written m = fill_threads build cpu method chunk cur left i written m

    -- The call of thread `i`.
    abbrev own : ℕ → Machine → ℕ × Machine
    own i m =
        generate_with_metod build cpu method (cur + 8 * (i * chunk)) (u32 (chunk * 8)) retry_limit m

    own-Within :
        (i p : ℕ) (m : Machine)
        → 8 * chunk < 2 ^ 32
        → Outside (cur + 8 * (i * chunk)) (8 * chunk) p
        → Within (8 * chunk) p m (own i m)
    own-Within i p m small out =
        let e : u32 (chunk * 8) ≡ 8 * chunk = omega arith in
        rw e (metod-Within method (cur + 8 * (i * chunk)) (8 * chunk) p retry_limit m small out)

    threads_split :
        (a b i written : ℕ) (m : Machine)
        → after_threads (a + b) i written m
          ≡ after_threads b (i + a) (after_threads a i written m).0 (after_threads a i written m).1
    unfolding fill_threads
    threads_split zero b i written m =
        let e : i ≡ i + 0 = omega arith in let f : 0 + b ≡ b = omega arith in rw (← e, f) refl
    threads_split (suc a) b i written m =
        let e : i + 1 + a ≡ i + suc a = omega arith in
        let f : suc a + b ≡ suc (a + b) = omega arith in
        rw (← e, f) (threads_split a b (i + 1) (written + (own i m).0 / 8) (own i m).1)

    -- Threads from `i` on change nothing before the part of thread `i`, and nothing behind that of
    -- the last.
    threads-Within :
        (left i written p : ℕ) (m : Machine)
        → 8 * chunk < 2 ^ 32
        → Outside (cur + 8 * (i * chunk)) (8 * (left * chunk)) p
        → Within (written + left * chunk) p m (after_threads left i written m)
    unfolding fill_threads
    threads-Within zero i written p m small out = (omega arith, refl)
    threads-Within (suc left) i written p m small out =
        let next : (i + 1) * chunk ≡ i * chunk + chunk = omega arith in
        let first = own-Within i p m small (omega arith) in
        let rest =
          threads-Within left (i + 1) (written + (own i m).0 / 8) p (own i m).1 small
            (omega (arith, next)) in
        (omega (arith, rest.0, first.0), rest.1 ∙ first.1)

    threads_at :
        (i rest : ℕ) (m : Machine)
        → let before = after_threads i 0 0 m in
          let mine = own i before.1 in
          after_threads (i + suc rest) 0 0 m
          ≡ after_threads rest (i + 1) (before.0 + mine.0 / 8) mine.1
    threads_at i rest m =
        let e : 0 + i ≡ i = omega arith in
        threads_split i (suc rest) 0 0 m ∙ rw e (unfold fill_threads in refl)

    -- The threads of a round do not disturb each other, with each of the three methods: thread `i`
    -- leaves the bytes outside its part of the buffer (`q`) as they were and returns no more than the
    -- length of the part, and at the end of the round its part (`p`) holds what it left there. All
    -- threads together change nothing outside the buffer (`z`), and count its length at most.
    pub thread_parts :
        (threads i p q z : ℕ) (m : Machine)
        → 8 * chunk < 2 ^ 32
        → i < threads
        → cur + 8 * (i * chunk) ≤ p
        → p < cur + 8 * (i * chunk) + 8 * chunk
        → Outside (cur + 8 * (i * chunk)) (8 * chunk) q
        → Outside cur (8 * (threads * chunk)) z
        → let before = (fill_threads build cpu method chunk cur i 0 0 m).1 in
          let mine =
            generate_with_metod build cpu method
              (cur + 8 * (i * chunk))
              (u32 (chunk * 8))
              retry_limit
              before in
          let all = fill_threads build cpu method chunk cur threads 0 0 m in
          (mine.0 ≤ 8 * chunk)
          × (mine.1.mem q ≡ before.mem q)
          × (all.1.mem p ≡ mine.1.mem p)
          × (all.1.mem z ≡ m.mem z)
          × (all.0 ≤ threads * chunk)
    thread_parts threads i p q z m small less from to out outside =
        let before = after_threads i 0 0 m in
        let rest = threads - suc i in
        let later : ℕ × Machine =
          after_threads rest (i + 1) (before.0 + (own i before.1).0 / 8) (own i before.1).1 in
        let split : after_threads threads 0 0 m ≡ later =
          let e : threads ≡ i + suc rest = omega arith in
          ap (λ n. after_threads n 0 0 m) e ∙ threads_at i rest m in
        let first = own-Within i q before.1 small out in
        let next : (i + 1) * chunk ≡ i * chunk + chunk = omega arith in
        let after =
          threads-Within rest (i + 1) (before.0 + (own i before.1).0 / 8) p (own i before.1).1 small
            (omega (arith, next)) in
        let whole = threads-Within threads 0 0 z m small (omega arith) in
        (first.0, first.1, ap (λ r. r.1.mem p) split ∙ after.1, whole.1, omega (arith, whole.0))
