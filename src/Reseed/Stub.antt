-- ===== src/Reseed/Stub.antt =====
-- The reseeding functions in a build with STUB_RDRAND.
use rd_rand.Prelude.{ℕ, zero, suc, ◌+◌, ◌-◌, ◌*◌, ◌^◌, ◌≡◌, refl, ap, ◌∙◌, arith, ℤ, pos, min, some}
use rd_rand.Cpu.{Cpu, stub, rdrand_success, rdrand64_step}
use rd_rand.Retry.{effective_limit, rdrand_get_uint64_retry}
use rd_rand.Memory.{Machine, store_bytes, le_bytes}
use rd_rand.Arrays.Stub.{ones, Ones, ones-ones, stub_fetch, uint64_array-Ones}
use rd_rand.Reseed.{
  rdrand_get_uint64_array_reseed_delay, skip, skip_loop, rdrand_get_uint64_array_reseed_skip,
}
use rd_rand.Reseed.Refine.{reseed_delay-array}

module _ (cpu : Cpu) where
  -- The same bytes as without the delays, and the time slept.
  pub reseed_delay-Ones :
      (dest count : ℕ) (retry_limit : ℤ) (m : Machine)
      → rdrand_get_uint64_array_reseed_delay stub cpu dest count retry_limit m
        ≡ (count, record (ones dest (8 * count) m) { slept = m.slept + 20 * count })
  reseed_delay-Ones dest count retry_limit m =
      reseed_delay-array stub cpu dest count retry_limit m
      ∙ ap (λ r. (r.0, record (r.1) { slept = m.slept + 20 * min count (r.0 + 1) }))
          (uint64_array-Ones cpu dest count retry_limit m)
      ∙ ap (λ n. (count, record (ones dest (8 * count) m) { slept = m.slept + 20 * n }))
          (omega arith)

  skip_lem : (n t : ℕ) → skip stub cpu n t ≡ t
  unfolding skip rdrand64_step
  skip_lem zero t = refl
  skip_lem (suc n) t = skip_lem n t

  skip_fetch :
      (limit t : ℕ)
      → rdrand_get_uint64_retry stub cpu (pos limit) (skip stub cpu 1024 t)
        ≡ record { rc = rdrand_success; dest = some (2 ^ 64 - 1); ticks = t }
  skip_fetch limit t =
      stub_fetch cpu (pos limit) (skip stub cpu 1024 t)
      ∙ ap (λ n. record { rc = rdrand_success; dest = some (2 ^ 64 - 1); ticks = n })
          (skip_lem 1024 t)

  skip_round :
      (limit left dest g : ℕ) (m : Machine)
      → skip_loop stub cpu limit (suc left) dest g m
        ≡ skip_loop stub cpu limit left (dest + 8) (g + 1) (ones dest 8 m)
  unfolding skip_loop le_bytes
  skip_round limit left dest g m = rw (skip_loop, skip_fetch limit m.ticks) refl

  skip_loop-Ones :
      (limit left dest g : ℕ) (m : Machine)
      → skip_loop stub cpu limit left dest g m ≡ (g + left, ones dest (8 * left) m)
  skip_loop-Ones limit zero dest g m =
      unfold skip_loop store_bytes in ap (λ n. (n, m)) (omega arith)
  skip_loop-Ones limit (suc left) dest g m =
      skip_round limit left dest g m
      ∙ skip_loop-Ones limit left (dest + 8) (g + 1) (ones dest 8 m)
      ∙ (λ i. (counted i, ones-ones dest 8 (8 * left) m i))
      ∙ ap (λ n. (g + suc left, ones dest n m)) (omega arith)
    where
      counted : g + 1 + left ≡ g + suc left
      counted = omega arith

  -- The skipped numbers cost nothing, since the stub does not execute RDRAND.
  pub reseed_skip-Ones :
      (dest count : ℕ) (retry_limit : ℤ) (m : Machine)
      → Ones 8 dest count m (rdrand_get_uint64_array_reseed_skip stub cpu dest count retry_limit m)
  unfolding rdrand_get_uint64_array_reseed_skip
  reseed_skip-Ones dest count retry_limit m =
      skip_loop-Ones (effective_limit retry_limit) count dest 0 m
      ∙ ap (λ n. (n, ones dest (8 * count) m)) (omega arith)
