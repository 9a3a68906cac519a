-- ===== src/Gen/Chunks/Threads.antt =====
-- The threads of a round of `generate_chunk`: what they leave as it was, and how many blocks they
-- make where every request of bytes is met.
use rd_rand.Prelude.{
  ℕ, zero, suc, ◌+◌, ◌*◌, ◌/◌, ◌^◌, ◌≤◌, ◌<◌, ◌≡◌, refl, ◌∙◌, arith, ◌||◌, ◌&&◌, not, List,
  if◌then◌else◌, ltb, if_elim, lt→ltb, ◌==◌,
}
use rd_rand.Cpu.{Cpu, Build}
use rd_rand.Memory.{Machine}
use rd_rand.Arrays.{u32}
use rd_rand.Bytes.Complete.{Complete}
use rd_rand.Aes.State.{OpenSsl}
use rd_rand.Gen.Config.{get_bytes}
use rd_rand.Gen.Chunks.{
  retry_limit, Generator, generate_with_metod, fill_threads, run_threads, encrypt_previous,
}

-- The threads change the machine and AES_CFG only.
pub record Kept {Ctx : Type 0} (g g' : Generator Ctx) : Type 0 where
  pub cnf_kept : g'.cnf ≡ g.cnf
  pub size_kept : g'.buf_size ≡ g.buf_size
  pub total_kept : g'.written_total ≡ g.written_total
  pub output_kept : g'.output ≡ g.output
  pub first_kept : g'.first_run ≡ g.first_run

module _ (build : Build) (cpu : Cpu) where
  module _ (complete : Complete build cpu) where
    pub metod_full :
        (buf n : ℕ) (m : Machine)
        → n < 2 ^ 32
        → (generate_with_metod build cpu get_bytes buf (u32 n) retry_limit m).0 ≡ n
    unfolding generate_with_metod
    metod_full buf n m small = complete buf (u32 n) retry_limit m (omega arith) ∙ omega arith

    pub fill_threads_full :
        (chunk_size cur left i written : ℕ) (m : Machine)
        → chunk_size ≤ 2048
        → (fill_threads build cpu get_bytes chunk_size cur left i written m).0
          ≡ written + chunk_size * left
    unfolding fill_threads
    fill_threads_full chunk_size cur zero i written m small = omega arith
    fill_threads_full chunk_size cur (suc left) i written m small =
        let got = metod_full (cur + 8 * (i * chunk_size)) (chunk_size * 8) m (omega arith) in
        let eighth : chunk_size * 8 / 8 ≡ chunk_size = omega arith in
        fill_threads_full chunk_size cur left (i + 1) _ _ small ∙ rw (got, eighth) (omega arith)

  module _ {Ctx : Type 0} (ssl : OpenSsl Ctx) (buf : ℕ)
      (fwrite : List ℕ → ℕ → List ℕ → ℕ × List ℕ) where
    encrypt_previous-Kept :
        (g g' : Generator Ctx) → Kept g g' → Kept g (encrypt_previous build cpu ssl buf fwrite g')
    unfolding encrypt_previous
    encrypt_previous-Kept g g' k = record {
      cnf_kept = k.cnf_kept;
      size_kept = k.size_kept;
      total_kept = k.total_kept;
      output_kept = k.output_kept;
      first_kept = k.first_kept;
    }

    abbrev From : Generator Ctx → ℕ × Generator Ctx → Type 0
    From g r = Kept g r.1

    same-Kept : (g : Generator Ctx) (m : Machine) → Kept g (record g { machine = m })
    same-Kept g m = record {
      cnf_kept = refl;
      size_kept = refl;
      total_kept = refl;
      output_kept = refl;
      first_kept = refl;
    }

    -- The generating threads of iteration `n`.
    abbrev generated : ℕ → Generator Ctx → ℕ × Generator Ctx
    generated n g =
        let c = g.cnf in
        let r =
          fill_threads build cpu c.method c.chunk_size g.gen_current c.threads 0 0 g.machine in
        if ltb n c.chunk_count || (c.bytes == 0) then (r.0, record g { machine = r.1 }) else (0, g)

    generated-Kept : (n : ℕ) (g : Generator Ctx) → Kept g (generated n g).1
    generated-Kept n g =
        if_elim {A = ℕ × Generator Ctx} (From g) (ltb n g.cnf.chunk_count || (g.cnf.bytes == 0))
          (λ _. same-Kept g _) (λ _. same-Kept g g.machine)

    pub run_threads-Kept :
        (n : ℕ) (g : Generator Ctx) → Kept g (run_threads build cpu ssl buf fwrite n g).1
    unfolding run_threads
    run_threads-Kept n g =
        if_elim {A = ℕ × Generator Ctx} (From g) (g.cnf.aes_flag && not g.first_run)
          (λ _. encrypt_previous-Kept g (generated n g).1 (generated-Kept n g))
          (λ _. generated-Kept n g)

    run_threads_count :
        (n : ℕ) (g : Generator Ctx)
        → (run_threads build cpu ssl buf fwrite n g).0 ≡ (generated n g).0
    unfolding run_threads
    run_threads_count n g =
        if_elim {A = ℕ × Generator Ctx} (λ r. r.0 ≡ (generated n g).0)
          (g.cnf.aes_flag && not g.first_run) (λ _. refl) (λ _. refl)

    pub run_threads_full :
        (n : ℕ) (g : Generator Ctx)
        → Complete build cpu
        → g.cnf.method ≡ get_bytes
        → g.cnf.chunk_size ≤ 2048
        → n < g.cnf.chunk_count
        → (run_threads build cpu ssl buf fwrite n g).0 ≡ g.cnf.chunk_size * g.cnf.threads
    run_threads_full n g complete bytes_method small more =
        run_threads_count n g
        ∙ rw (lt→ltb n g.cnf.chunk_count more, bytes_method)
            (fill_threads_full complete g.cnf.chunk_size g.gen_current g.cnf.threads 0 0 g.machine
                small
              ∙ omega arith)
