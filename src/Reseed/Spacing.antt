-- ===== src/Reseed/Spacing.antt =====
-- How far apart the numbers of `rdrand_get_uint64_array_reseed_skip` are.
use rd_rand.Prelude.{
  ℕ, zero, suc, ◌+◌, ◌*◌, ◌%◌, ◌^◌, ◌≡◌, refl, ap, ◌∙◌, arith, length, List, [], ◌∷◌, some, ℤ, pos,
}
use rd_rand.Cpu.{Cpu, asm_64, rdrand_success, rdrand64_step}
use rd_rand.Retry.{effective_limit}
use rd_rand.Retry.Outcome.{uint64_retry-first}
use rd_rand.Memory.{Machine, words}
use rd_rand.Arrays.Drawn.{drawn, drawn_ticks, wrote, drawn-some, drawn_ticks-some}
use rd_rand.Arrays.Full.{NeverFails}
use rd_rand.Reseed.{skip, rdrand_get_uint64_array_reseed_skip}
use rd_rand.Reseed.Refine.{one_skipped, reseed_skip-drawn}

skip-add : (cpu : Cpu) (n t : ℕ) → skip asm_64 cpu n t ≡ t + n
unfolding skip rdrand64_step
skip-add cpu zero t = omega arith
skip-add cpu (suc n) t = skip-add cpu n (t + 1) ∙ omega arith

-- One number for each 1025 executions of RDRAND, the last of them.
unfoldable pub spaced : Cpu → ℕ → ℕ → List ℕ
spaced cpu zero t = []
spaced cpu (suc count) t = (cpu (t + 1024) 64).value % 2 ^ 64 ∷ spaced cpu count (t + 1025)

module _ (cpu : Cpu) (never : NeverFails cpu) where
  one_skipped_lem :
      (limit t : ℕ)
      → one_skipped asm_64 cpu limit t ≡ record {
        rc = rdrand_success;
        dest = some ((cpu (t + 1024) 64).value % 2 ^ 64);
        ticks = t + 1025;
      }
  one_skipped_lem limit t = rw (skip-add cpu 1024 t) (
      uint64_retry-first cpu (pos limit) (t + 1024) (t + 1024) (omega arith) (omega arith)
        (λ i p q. absurd (omega arith)) (never (t + 1024) 64)
      ∙ (let e : t + 1024 + 1 ≡ t + 1025 = omega arith in rw e refl))

  drawn-spaced :
      (limit count t : ℕ) → drawn (one_skipped asm_64 cpu limit) count t ≡ spaced cpu count t
  drawn-spaced limit zero t = unfold drawn spaced in refl
  drawn-spaced limit (suc count) t =
      drawn-some (one_skipped asm_64 cpu limit) count t (ap (λ r. r.dest) (one_skipped_lem limit t))
      ∙ rw (ap (λ r. r.ticks) (one_skipped_lem limit t), drawn-spaced limit count (t + 1025))
          (unfold spaced in refl)

  drawn_ticks-spaced :
      (limit count t : ℕ) → drawn_ticks (one_skipped asm_64 cpu limit) count t ≡ t + 1025 * count
  drawn_ticks-spaced limit zero t = unfold drawn_ticks in omega arith
  drawn_ticks-spaced limit (suc count) t =
      drawn_ticks-some (one_skipped asm_64 cpu limit) count t
        (ap (λ r. r.dest) (one_skipped_lem limit t))
      ∙ rw (ap (λ r. r.ticks) (one_skipped_lem limit t), drawn_ticks-spaced limit count (t + 1025))
          (omega arith)

  length-spaced : (count t : ℕ) → length (spaced cpu count t) ≡ count
  unfolding spaced
  length-spaced zero t = refl
  length-spaced (suc count) t = ap suc (length-spaced count (t + 1025))

  -- With the inline assembly on a 64-bit target and a processor on which RDRAND never fails,
  -- `rdrand_get_uint64_array_reseed_skip` returns `count`, executes RDRAND 1025 times for each
  -- number, and stores the result of the last of these as that number.
  pub reseed_skip-spaced :
      (dest count : ℕ) (retry_limit : ℤ) (m : Machine)
      → rdrand_get_uint64_array_reseed_skip asm_64 cpu dest count retry_limit m
        ≡ (count, wrote m dest (words (spaced cpu count m.ticks)) (m.ticks + 1025 * count))
  reseed_skip-spaced dest count retry_limit m =
      reseed_skip-drawn asm_64 cpu dest count retry_limit m
      ∙ rw (
        drawn-spaced (effective_limit retry_limit) count m.ticks,
        drawn_ticks-spaced (effective_limit retry_limit) count m.ticks,
        length-spaced count m.ticks,
      )
