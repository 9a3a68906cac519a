-- ===== src/Gen/Chunks/Progress.antt =====
-- What an iteration of the loop of `generate_chunk` changes of the bounds of the loop.
use rd_rand.Prelude.{
  ℕ, suc, ◌+◌, ◌*◌, ◌<◌, ◌≡◌, ◌≢◌, ◌⊎◌, inl, inr, refl, subst, ap, ◌∙◌, arith, true, false, not,
  ◌&&◌, List, if_elim, ltb, ◌==◌,
}
use rd_rand.Cpu.{Cpu, Build}
use rd_rand.Aes.State.{OpenSsl}
use rd_rand.Aes.Encrypt.{load_bytes}
use rd_rand.Gen.Config.{Cnf}
use rd_rand.Gen.Chunks.{
  Generator, Next, next_chunk, same_chunk, stop, slow_loop, run_threads, write_chunk, finish_chunk,
  retry_slowly, lower_threads, chunk_round,
}
use rd_rand.Gen.Chunks.Threads.{run_threads-Kept}

-- What decides how long the loop runs, but for the number of threads.
pub record SameBounds (c c' : Cnf) : Type 0 where
  pub count_same : c'.chunk_count ≡ c.chunk_count
  pub aes_same : c'.aes_flag ≡ c.aes_flag
  pub bytes_same : c'.bytes ≡ c.bytes

module _ {Ctx : Type 0} where
  -- An iteration repeats its chunk only with a thread less.
  pub record Advances (g : Generator Ctx) (r : Next × Generator Ctx) : Type 0 where
    pub bounds : SameBounds g.cnf r.1.cnf
    pub progress :
        ((suc r.1.cnf.threads ≡ g.cnf.threads) × (0 < r.1.cnf.threads))
        ⊎ ((r.0 ≢ same_chunk) × (r.1.cnf.threads ≡ g.cnf.threads))

  -- With the configuration kept, or but for a flag.
  kept :
      (g g' : Generator Ctx) (next : Next)
      → next ≢ same_chunk
      → g'.cnf ≡ g.cnf
      → Advances g (next, g')
  kept g g' next differs e = record {
    bounds = record {
      count_same = ap (λ c. c.chunk_count) e;
      aes_same = ap (λ c. c.aes_flag) e;
      bytes_same = ap (λ c. c.bytes) e;
    };
    progress = inr (differs, ap (λ c. c.threads) e);
  }

  rebase :
      (g g' : Generator Ctx)
      → g'.cnf ≡ g.cnf
      → (r : Next × Generator Ctx) → Advances g' r
      → Advances g r
  rebase g g' e r a = record {
    bounds = record {
      count_same = a.bounds.count_same ∙ ap (λ c. c.chunk_count) e;
      aes_same = a.bounds.aes_same ∙ ap (λ c. c.aes_flag) e;
      bytes_same = a.bounds.bytes_same ∙ ap (λ c. c.bytes) e;
    };
    progress =
        subst
          (λ n.
            ((suc r.1.cnf.threads ≡ n) × (0 < r.1.cnf.threads))
            ⊎ ((r.0 ≢ same_chunk) × (r.1.cnf.threads ≡ n)))
          (ap (λ c. c.threads) e) a.progress;
  }

  module _ (build : Build) (cpu : Cpu) (ssl : OpenSsl Ctx) (buf : ℕ)
      (fwrite : List ℕ → ℕ → List ℕ → ℕ × List ℕ) where
    write_chunk-Advances : (g : Generator Ctx) → Advances g (write_chunk build cpu ssl buf fwrite g)
    unfolding write_chunk
    write_chunk-Advances g =
        let w = fwrite g.output 8 (load_bytes g.machine.mem buf (g.buf_size * 8)) in
        let counted = record g { written_total = g.written_total + w.0; output = w.1 } in
        if_elim {A = Next × Generator Ctx} (Advances g) (w.0 == g.buf_size)
          (λ _. kept g counted next_chunk (λ p. cc) refl) (λ _. kept g counted stop (λ p. cc) refl)

    finish_chunk-Advances :
        (g : Generator Ctx) → Advances g (finish_chunk build cpu ssl buf fwrite g)
    unfolding finish_chunk
    finish_chunk-Advances g =
        let swapped = record g { gen_current = g.gen_previous; gen_previous = g.gen_current } in
        if_elim {A = Next × Generator Ctx} (Advances g) g.cnf.aes_flag
          (λ _.
            if_elim {A = Next × Generator Ctx} (Advances g) g.first_run
              (λ _. kept g (record swapped { first_run = false }) next_chunk (λ p. cc) refl)
              (λ _. rebase g swapped refl _ (write_chunk-Advances swapped)))
          (λ _. write_chunk-Advances g)

    retry_slowly-Advances :
        (written : ℕ) (g : Generator Ctx)
        → Advances g (retry_slowly build cpu ssl buf fwrite written g)
    unfolding retry_slowly
    retry_slowly-Advances written g =
        let r = slow_loop build cpu g.cnf g.gen_current g.buf_size 100 written g.machine in
        let retried : Generator Ctx = record g {
          machine = r.1;
          cnf = record (g.cnf) { printed_warning_flag = true };
        } in
        let flagged : (k : Next × Generator Ctx) → Advances retried k → Advances g k = λ k a.
          record {
            bounds = record {
              count_same = a.bounds.count_same;
              aes_same = a.bounds.aes_same;
              bytes_same = a.bounds.bytes_same;
            };
            progress = a.progress;
          } in
        if_elim {A = Next × Generator Ctx} (Advances g) (r.0 == g.buf_size)
          (λ _. flagged _ (finish_chunk-Advances retried))
          (λ _. flagged _ (kept retried retried stop (λ p. cc) refl))

    lower_threads-Advances :
        (g : Generator Ctx)
        → 0 < g.cnf.threads
        → (g.cnf.threads == 1) ≡ false
        → Advances g (same_chunk, lower_threads build cpu ssl buf fwrite g)
    unfolding lower_threads
    lower_threads-Advances g some_thread several = record {
      bounds = record { count_same = refl; aes_same = refl; bytes_same = refl };
      progress = inl (ground arith, ground arith);
    }

    pub chunk_round-Advances :
        (n : ℕ) (g : Generator Ctx)
        → 0 < g.cnf.threads
        → Advances g (chunk_round build cpu ssl buf fwrite n g)
    unfolding chunk_round
    chunk_round-Advances n g some_thread =
        let p = run_threads build cpu ssl buf fwrite n g in
        let e = (run_threads-Kept build cpu ssl buf fwrite n g).cnf_kept in
        let g' = p.1 in
        if_elim {A = Next × Generator Ctx} (Advances g)
          (not (p.0 == g'.buf_size) && ltb n g'.cnf.chunk_count)
          (λ _.
            if_elim {A = Next × Generator Ctx} (Advances g) (g'.cnf.threads == 1)
              (λ _. rebase g g' e _ (retry_slowly-Advances p.0 g'))
              (λ several.
                rebase g g' e _
                  (lower_threads-Advances g' (rw (ap (λ c. c.threads) e) some_thread) several)))
          (λ _. rebase g g' e _ (finish_chunk-Advances g'))
